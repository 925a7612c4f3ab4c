-- ===== src/Golang/Strings/Replace.antt =====
-- What `strings.ReplaceAll` leaves and what it replaces, from the front of a text.
use burrowcode.Base.{
  ℕ, zero, ◌-◌, Char, code, String, ◌⧺◌, ◌≡◌, ◌≢◌, refl, ap, ◌∙◌, Bool, true, false, arith, nat_eq,
  ◌&&◌,
}
use text.Mathlib.TextLemmas.{nil-append, cons-append}
use Prim.Native.String.{count}
use Prim.Native.String
use burrowcode.Golang.Strings.{has_prefix, replace_from, replace_all}
use burrowcode.Golang.Strings.Laws.{has_prefix-append}

-- a text without the rune `q`
abbrev pub Lacks : ℕ → String → Type 0
Lacks q String.[] = Unit
Lacks q (String.◌∷◌ c s) = (code c ≢ q) × Lacks q s

module _ (old new : String) where
  -- the loop's step, by whether there is a match
  abbrev pub after : Char → String → Bool → String
  after c s true = new ⧺ replace_from old new (count old - 1) s
  after c s false = String.◌∷◌ c (replace_from old new zero s)

  pub replace_all-keeps :
      (c : Char) (s : String)
      → has_prefix (String.◌∷◌ c s) old ≡ false
      → replace_all (String.◌∷◌ c s) old new ≡ String.◌∷◌ c (replace_all s old new)
  unfolding replace_all replace_from
  replace_all-keeps c s h = ap (λ b. after c s b) h

  pub replace_all-nil : replace_all "" old new ≡ ""
  unfolding replace_all replace_from
  replace_all-nil = refl

  replace_from-skips :
      (p s : String) → replace_from old new (count p) (p ⧺ s) ≡ replace_from old new zero s
  unfolding replace_from
  replace_from-skips String.[] s = rw (nil-append s) refl
  replace_from-skips (String.◌∷◌ c p) s =
      rw (String.count.cons c p, cons-append) (replace_from-skips p s)

module _ (new : String) where
  -- A match at the front is replaced.
  pub replace_all-append :
      (d : Char) (p s : String)
      → replace_all (String.◌∷◌ d p ⧺ s) (String.◌∷◌ d p) new
        ≡ new ⧺ replace_all s (String.◌∷◌ d p) new
  unfolding replace_all replace_from
  replace_all-append d p s =
      let old = String.◌∷◌ d p in
      let one_less : count (String.◌∷◌ d p) - 1 ≡ count p = ground (arith, String.count.cons d p) in
      let found = rw cons-append at (has_prefix-append old s) in
      rw cons-append (
        ap (λ b. after old new d (p ⧺ s) b) found
        ∙ ap (λ n. new ⧺ replace_from old new n (p ⧺ s)) one_less
        ∙ ap (λ t. new ⧺ t) (replace_from-skips old new p s))

-- What no match can begin in is left.
pub replace_all-literal :
    (d : Char) (p new a s : String)
    → Lacks (code d) a
    → replace_all (a ⧺ s) (String.◌∷◌ d p) new ≡ a ⧺ replace_all s (String.◌∷◌ d p) new
unfolding has_prefix
replace_all-literal d p new String.[] s h = simp nil-append
replace_all-literal d p new (String.◌∷◌ c a) s h =
    let other : nat_eq (code c) (code d) ≡ false = ground arith in
    rw (cons-append, cons-append)
      (replace_all-keeps (String.◌∷◌ d p) new c (a ⧺ s) (ap (λ b. b && has_prefix (a ⧺ s) p) other)
        ∙ ap (λ t. String.◌∷◌ c t) (replace_all-literal d p new a s h.1))
