-- ===== src/Json/RoundTrip.antt =====
-- What Unmarshal reads of the maps and lists of texts that Marshal wrote.
use Prim.Native.String.{compare}
use text.Mathlib.Text.{is_le}
use text.Mathlib.TextPositions.{compare_refl}
use burrowcode.Base.{
  String, ◌≡◌, ◌≢◌, refl, ◌∙◌, true, false, Option, none, some, List, [], ◌∷◌, All, if_both, arith,
  ◌==◌, eq_iff, if◌then◌else◌, Bool-cases, inl, inr,
}
use burrowcode.Golang.Maps.{Map, lookup, insert, lookup-insert, HasUniqueKeys}
use burrowcode.Json.{
  insert_sorted, sort_keys, text_fields, text_items, text_map, decode_text, decode_entries,
  decode_map, decode_items, decode_texts, array,
}

le_of_eq : (j k : String) → j ≡ k → is_le (compare k j) ≡ true
le_of_eq j k e = rw e (rw compare_refl)

-- a key that does not go before `j` is not `j`
ne_of_not_le : (k j : String) → is_le (compare k j) ≡ false → j ≢ k
ne_of_not_le k j h e = cc (le_of_eq j k e)

module _ {ℓ} {V : Type ℓ} where
  lookup-insert_sorted :
      (k x : String) (v : V) (m : Map V)
      → lookup x (insert_sorted k v m) ≡ (if k == x then some v else lookup x m)
  unfolding lookup insert_sorted
  lookup-insert_sorted k x v [] = refl
  lookup-insert_sorted k x v ((j, w) ∷ m) = elim (Bool-cases (is_le (compare k j))) [
    | inl le ↦ rw le
    | inr gt ↦ rw gt (
        ground (
          arith,
          lookup-insert_sorted k x v m,
          ne_of_not_le k j gt,
          eq_iff k x,
          eq_iff j x,
          eq_iff j k,
        ))
  ]

  pub lookup-sort_keys : (x : String) (m : Map V) → lookup x (sort_keys m) ≡ lookup x m
  unfolding lookup sort_keys
  lookup-sort_keys x [] = refl
  lookup-sort_keys x ((k, v) ∷ m) =
      lookup-insert_sorted k x v (sort_keys m) ∙ rw (lookup-sort_keys x m)

  HasUniqueKeys-insert_sorted :
      (k : String) (v : V) (m : Map V)
      → lookup k m ≡ none
      → HasUniqueKeys m
      → HasUniqueKeys (insert_sorted k v m)
  unfolding insert_sorted lookup
  HasUniqueKeys-insert_sorted k v [] h u = (refl, tt)
  HasUniqueKeys-insert_sorted k v ((j, w) ∷ m) h u = elim (Bool-cases (is_le (compare k j))) [
    | inl le ↦ rw le (h, u)
    | inr gt ↦ rw gt (
      ground (arith, lookup-insert_sorted k j v m, ne_of_not_le k j gt, eq_iff k j),
      HasUniqueKeys-insert_sorted k v m (ground (arith, ne_of_not_le k j gt, eq_iff j k)) u.1,
    )
  ]

  pub HasUniqueKeys-sort_keys : (m : Map V) → HasUniqueKeys m → HasUniqueKeys (sort_keys m)
  unfolding sort_keys
  HasUniqueKeys-sort_keys [] u = tt
  HasUniqueKeys-sort_keys ((k, v) ∷ m) u =
      HasUniqueKeys-insert_sorted k v (sort_keys m) (lookup-sort_keys k m ∙ u.0)
        (HasUniqueKeys-sort_keys m u.1)

module _ {V : Type 0} (P : V → Type 0) where
  abbrev pub EachEntry : Map V → Type 0
  EachEntry m = All (λ (e : String × V). P e.1) m

  EachEntry-insert_sorted :
      (k : String) (v : V) (m : Map V) → P v → EachEntry m → EachEntry (insert_sorted k v m)
  unfolding insert_sorted
  EachEntry-insert_sorted k v [] h hs = (h, tt)
  EachEntry-insert_sorted k v ((j, w) ∷ m) h hs =
      if_both EachEntry (is_le (compare k j)) ((k, v) ∷ (j, w) ∷ m) ((j, w) ∷ insert_sorted k v m)
        (h, hs) (hs.0, EachEntry-insert_sorted k v m h hs.1)

  pub EachEntry-sort_keys : (m : Map V) → EachEntry m → EachEntry (sort_keys m)
  unfolding sort_keys
  EachEntry-sort_keys [] hs = tt
  EachEntry-sort_keys ((k, v) ∷ m) hs =
      EachEntry-insert_sorted k v (sort_keys m) hs.0 (EachEntry-sort_keys m hs.1)

abbrev or_lookup : Option String → Option String → Option String
or_lookup (some v) other = some v
or_lookup none other = other

-- the decoder reads every entry, and fits all of them
decode_entries-text_fields :
    (m acc : Map String) (x : String)
    → HasUniqueKeys m
    → (lookup x (decode_entries (text_fields m) acc true).0 ≡ or_lookup (lookup x m) (lookup x acc))
      × ((decode_entries (text_fields m) acc true).1 ≡ true)
unfolding decode_entries text_fields lookup
decode_entries-text_fields [] acc x u = (refl, refl)
decode_entries-text_fields ((k, v) ∷ m) acc x u =
    let (found, fine) = decode_entries-text_fields m (insert k v acc) x u.1 in
    (ground (arith, found, lookup-insert acc k v x, eq_iff k x, u.0), fine)

-- a map with the entries of another
abbrev pub SameEntries : Option (Map String) → Option (Map String) → Type 0
SameEntries none none = Unit
SameEntries (some m) (some n) = (x : String) → lookup x m ≡ lookup x n
SameEntries _ _ = ⊥

or_lookup-none : (o : Option String) → or_lookup o none ≡ o
or_lookup-none none = refl
or_lookup-none (some v) = refl

-- Unmarshal reads from a map that Marshal wrote the entries of the map.
pub decode_map-text_map :
    (m : Map String)
    → HasUniqueKeys m
    → SameEntries (decode_map (text_map m) none).0 (some m)
      × ((decode_map (text_map m) none).1 ≡ true)
unfolding decode_map text_map lookup
decode_map-text_map m u = (
  λ x.
      (decode_entries-text_fields (sort_keys m) [] x (HasUniqueKeys-sort_keys m u)).0
      ∙ or_lookup-none (lookup x (sort_keys m))
      ∙ lookup-sort_keys x m,
  (decode_entries-text_fields (sort_keys m) [] "" (HasUniqueKeys-sort_keys m u)).1,
)

decode_items-text_items : (ts : List String) → decode_items (text_items ts) true ≡ (ts, true)
unfolding decode_items text_items decode_text
decode_items-text_items [] = refl
decode_items-text_items (t ∷ ts) = rw (decode_items-text_items ts)

pub decode_texts-text_items :
    (ts old : List String) → decode_texts (array (text_items ts)) old ≡ (ts, true)
unfolding decode_texts
decode_texts-text_items ts old = decode_items-text_items ts
