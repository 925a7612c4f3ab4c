-- ===== src/Golang/Strings/Laws.antt =====
-- Laws of the functions on texts.
use burrowcode.Base.{String, ◌⧺◌, ◌≡◌, refl, true, arith}
use text.Mathlib.TextLemmas.{nil-append, cons-append}
use burrowcode.Golang.Strings.{has_prefix, contains}

-- A text begins with the first of the two that it joins.
pub has_prefix-append : (p s : String) → has_prefix (p ⧺ s) p ≡ true
unfolding has_prefix
has_prefix-append String.[] s = refl
has_prefix-append (String.◌∷◌ c p) s = rw cons-append (ground (arith, has_prefix-append p s))

-- A text contains the first of the two that it joins.
pub contains-append : (p s : String) → contains (p ⧺ s) p ≡ true
unfolding contains has_prefix
contains-append String.[] String.[] = refl
contains-append String.[] (String.◌∷◌ c s) = rw (nil-append (String.◌∷◌ c s)) refl
contains-append (String.◌∷◌ c p) s =
    let found = rw cons-append at (has_prefix-append (String.◌∷◌ c p) s) in
    rw (cons-append, found) refl
