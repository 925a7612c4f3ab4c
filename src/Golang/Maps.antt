-- ===== src/Golang/Maps.antt =====
-- Go's maps with text keys, as association lists. The order of the entries stands for the order in
-- which one iteration meets them, which Go leaves open; a key occurs once.
use burrowcode.Base.{
  String, ◌≡◌, refl, Option, none, some, List, [], ◌∷◌, ◌++◌, false, arith, ◌==◌, eq_iff,
  if◌then◌else◌,
}

abbrev pub Map {ℓ} : Type ℓ → Type ℓ
Map V = List (String × V)

module _ {ℓ} {V : Type ℓ} where
  unfoldable pub lookup : String → Map V → Option V
  lookup k [] = none
  lookup k ((j, v) ∷ m) = if j == k then some v else lookup k m

  -- `m[k] = v`
  unfoldable pub insert : String → V → Map V → Map V
  insert k v [] = (k, v) ∷ []
  insert k v ((j, w) ∷ m) = if j == k then (k, v) ∷ m else (j, w) ∷ insert k v m

  pub lookup-insert :
      (old : Map V) (name : String) (new : V) (asked : String)
      → lookup asked (insert name new old) ≡ (if name == asked then some new else lookup asked old)
  unfolding lookup insert
  lookup-insert [] name new asked = refl
  lookup-insert ((first, w) ∷ rest) name new asked =
      let behind = lookup-insert rest name new asked in
      ground (arith, behind, eq_iff first asked, eq_iff first name, eq_iff name asked)

-- `m[k]`, which is the empty text where the key is missing
unfoldable pub get_text : String → Map String → String
unfolding lookup
get_text k m = elim (lookup k m) [ none ↦ "" | some v ↦ v ]

-- no key occurs twice
abbrev pub HasUniqueKeys {ℓ} : {V : Type ℓ} → Map V → Type ℓ
HasUniqueKeys [] = Unit
HasUniqueKeys ((k, v) ∷ m) = (lookup k m ≡ none) × HasUniqueKeys m

module _ {A : Type 0} where
  pub insert-absent :
      (k : String) (a : A) (m : Map A) → lookup k m ≡ none → insert k a m ≡ m ++ (k, a) ∷ []
  unfolding lookup insert
  insert-absent k a [] h = refl
  insert-absent k a ((j, b) ∷ m) h = ground (arith, insert-absent k a m)

  key_ne :
      (k j : String) (a : A) (done m : Map A)
      → lookup j (done ++ (k, a) ∷ m) ≡ none
      → (k == j) ≡ false
  unfolding lookup
  key_ne k j a [] m h = ground arith
  key_ne k j a ((i, b) ∷ done) m h = ground (arith, key_ne k j a done m)

  pub lookup-none_of_unique :
      (k : String) (a : A) (done m : Map A)
      → HasUniqueKeys (done ++ (k, a) ∷ m)
      → lookup k done ≡ none
  unfolding lookup
  lookup-none_of_unique k a [] m h = refl
  lookup-none_of_unique k a ((j, b) ∷ done) m h =
      ground (
        arith,
        lookup-none_of_unique k a done m h.1,
        key_ne k j a done m h.0,
        eq_iff k j,
        eq_iff j k,
      )
