-- ===== src/Worker/Placeholders/Hole.antt =====
-- What `strings.ReplaceAll` does at the placeholders of a command.
use burrowcode.Base.{
  Char, code, String, ◌⧺◌, ◌≡◌, refl, sym, ap, ◌∙◌, Bool, true, false, ◌==◌, eq_refl,
  eq-false_of_ne, arith, nat_eq, ◌&&◌, inl, inr, Bool-cases,
}
use text.Mathlib.TextLemmas.{nil-append, cons-append, append_assoc}
use text.Mathlib.TextEquality.{Char-path}
use burrowcode.Golang.Strings.{has_prefix, replace_all}
use burrowcode.Golang.Strings.Replace.{
  Lacks, replace_all-keeps, replace_all-append, replace_all-literal,
}
use burrowcode.Worker.Placeholders.{placeholder}

-- a key without braces
abbrev pub IsPlainKey : String → Type 0
IsPlainKey key = Lacks b'{' key × Lacks b'}' key

and-false : (b : Bool) → b && false ≡ false
and-false true = refl
and-false false = refl

tails_differ :
    (c d : Char) (j k : String)
    → nat_eq (code c) (code d) ≡ true
    → (String.◌∷◌ d k == String.◌∷◌ c j) ≡ false
    → (k == j) ≡ false
tails_differ c d j k same e =
    let head : c ≡ d = Char-path c d (ground arith) in
    eq-false_of_ne k j (λ q. absurd (cc (e, head, q, eq_refl (String.◌∷◌ d k))))

-- Of two keys without a brace, only the same one begins with it and the closing brace.
closed-has_prefix :
    (j k s t : String)
    → Lacks b'}' j
    → Lacks b'}' k
    → (k == j) ≡ false
    → has_prefix (j ⧺ String.◌∷◌ "}" s) (k ⧺ String.◌∷◌ "}" t) ≡ false
unfolding has_prefix
closed-has_prefix String.[] String.[] s t h h' e = absurd (cc e)
closed-has_prefix String.[] (String.◌∷◌ d k) s t h h' e =
    simp (nil-append, cons-append) (ground arith)
closed-has_prefix (String.◌∷◌ c j) String.[] s t h h' e =
    simp (nil-append, cons-append) (ground arith)
closed-has_prefix (String.◌∷◌ c j) (String.◌∷◌ d k) s t h h' e =
    rw (cons-append, cons-append)
      (elim (Bool-cases (nat_eq (code c) (code d))) [
        | inl same ↦
            let rest = closed-has_prefix j k s t h.1 h'.1 (tails_differ c d j k same e) in
            ap (λ b. nat_eq (code c) (code d) && b) rest ∙ and-false (nat_eq (code c) (code d))
        | inr other ↦ ap (λ b. b && has_prefix (j ⧺ String.◌∷◌ "}" s) (k ⧺ String.◌∷◌ "}" t)) other
      ])

two-append :
    (a b : Char) (s : String) → String.◌∷◌ a (String.◌∷◌ b "") ⧺ s ≡ String.◌∷◌ a (String.◌∷◌ b s)
two-append a b s =
    cons-append a (String.◌∷◌ b "") s
    ∙ ap (λ t. String.◌∷◌ a t) (cons-append b "" s ∙ ap (λ t. String.◌∷◌ b t) (nil-append s))

-- what is behind the first brace of a placeholder
abbrev pub behind_brace : String → String → String
behind_brace k s = String.◌∷◌ "{" (k ⧺ String.◌∷◌ "}" (String.◌∷◌ "}" s))

placeholder-append : (k s : String) → placeholder k ⧺ s ≡ String.◌∷◌ "{" (behind_brace k s)
unfolding placeholder
placeholder-append k s =
    append_assoc "{{" (k ⧺ "}}") s
    ∙ two-append "{" "{" ((k ⧺ "}}") ⧺ s)
    ∙ ap (λ t. String.◌∷◌ "{" (String.◌∷◌ "{" t))
        (append_assoc k "}}" s ∙ ap (λ t. k ⧺ t) (two-append "}" "}" s))

pub placeholder-cons : (k : String) → placeholder k ≡ String.◌∷◌ "{" (behind_brace k "")
unfolding placeholder
placeholder-cons k = two-append "{" "{" (k ⧺ "}}")

brace-has_prefix :
    (j s t : String) → Lacks b'{' j → has_prefix (j ⧺ String.◌∷◌ "}" s) (String.◌∷◌ "{" t) ≡ false
unfolding has_prefix
brace-has_prefix String.[] s t h = rw (nil-append (String.◌∷◌ "}" s)) refl
brace-has_prefix (String.◌∷◌ c j) s t h =
    let other : nat_eq (code c) b'{' ≡ false = ground arith in
    rw cons-append (ap (λ b. b && has_prefix (j ⧺ String.◌∷◌ "}" s) t) other)

module _ (k v : String) (plain : IsPlainKey k) where
  abbrev pub replaced : String → String
  replaced s = replace_all s (String.◌∷◌ "{" (behind_brace k "")) v

  closing_braces :
      (s : String)
      → replaced (String.◌∷◌ "}" (String.◌∷◌ "}" s)) ≡ String.◌∷◌ "}" (String.◌∷◌ "}" (replaced s))
  unfolding has_prefix
  closing_braces s =
      replace_all-keeps _ v "}" (String.◌∷◌ "}" s) refl
      ∙ ap (λ t. String.◌∷◌ "}" t) (replace_all-keeps _ v "}" s refl)

  -- the placeholder of another key is left
  pub other_hole :
      (j s : String)
      → IsPlainKey j
      → (k == j) ≡ false
      → replaced (placeholder j ⧺ s) ≡ placeholder j ⧺ replaced s
  unfolding has_prefix
  other_hole j s h e =
      let inner = String.◌∷◌ "}" (String.◌∷◌ "}" s) in
      ap replaced (placeholder-append j s)
      ∙ replace_all-keeps _ v "{" (behind_brace j s)
          (closed-has_prefix j k (String.◌∷◌ "}" s) "}" h.1 plain.1 e)
      ∙ ap (λ t. String.◌∷◌ "{" t)
          (replace_all-keeps _ v "{" (j ⧺ inner)
              (brace-has_prefix j (String.◌∷◌ "}" s) (k ⧺ "}}") h.0)
            ∙ ap (λ t. String.◌∷◌ "{" t)
                (replace_all-literal "{" (behind_brace k "") v j inner h.0
                  ∙ ap (λ t. j ⧺ t) (closing_braces s)))
      ∙ sym (placeholder-append j (replaced s))

  pub same_hole : (s : String) → replaced (placeholder k ⧺ s) ≡ v ⧺ replaced s
  same_hole s =
      ap (λ p. replaced (p ⧺ s)) (placeholder-cons k)
      ∙ replace_all-append v "{" (behind_brace k "") s
