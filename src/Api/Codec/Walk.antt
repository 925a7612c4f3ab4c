-- ===== src/Api/Codec/Walk.antt =====
-- What the walk over an object's fields makes of those that an encoder wrote.
use burrowcode.Base.{
  String, ◌≡◌, refl, sym, ap, ◌∙◌, Bool, false, Option, none, some, List, [], ◌∷◌, ◌++◌, All, map,
  if◌then◌else◌, one_of,
}
use mathlib.Core.Path.{subst}
use mathlib.Core.List.{append_assoc, append-nil}
use burrowcode.Golang.Maps.{insert-absent, lookup-none_of_unique, Map, HasUniqueKeys}
use burrowcode.Json.{Json, Fields, no_fields, field, object, array}
use burrowcode.Os.{Values}
use burrowcode.Api.Codec.{
  Jx, JxLaws, decode_object, check_required, missed, decode_entries, decode_array, Decoding,
  decoded, walk, walk_entries, walk_items, encode_entries, encode_items, field_if_set,
}

module _ {S : Type 0} (store : String → Json → S → Decoding S) (required : List String) where
  pub walk-field :
      (k : String) (j : Json) (rest : Fields) (s s' : S) (met : List String)
      → store k j s ≡ decoded s'
      → walk store required (field k j rest) s met
        ≡ walk store required rest s' (if one_of k required then k ∷ met else met)
  unfolding walk
  walk-field k j rest s s' met h = rw (h, walk) refl

  pub walk-no_fields :
      (s : S) (met : List String) → walk store required no_fields s met ≡ decoded (s, met)
  unfolding walk
  walk-no_fields s met = refl

  -- a field that is written where its value is set; `put` is the state by that value
  pub walk-field_if_set :
      {A : Type 0} (k : String) (write : A → Json) (o : Option A) (rest : Fields)
      (put : Option A → S) (met : List String)
      → one_of k required ≡ false
      → ((a : A) → o ≡ some a → store k (write a) (put none) ≡ decoded (put (some a)))
      → walk store required (field_if_set k write o rest) (put none) met
        ≡ walk store required rest (put o) met
  walk-field_if_set k write none rest put met free h = refl
  walk-field_if_set k write (some a) rest put met free h =
      walk-field k (write a) rest (put none) (put (some a)) met (h a refl)
      ∙ ap (λ (b : Bool). walk store required rest (put (some a)) (if b then k ∷ met else met)) free

-- elements that come back in their normal form
pub walk_items-normal :
    {A : Type 0} (P : A → Type 0) (write : A → Json) (read : Json → Decoding A) (normal : A → A)
    → ((a : A) → P a → read (write a) ≡ decoded (normal a))
    → (xs done : List A) → All P xs
    → walk_items read (encode_items write xs) done ≡ decoded (done ++ map normal xs)
unfolding walk_items encode_items
walk_items-normal P write read normal back [] done h = ap decoded (sym (append-nil done))
walk_items-normal P write read normal back (x ∷ xs) done h = rw (back x h.0) (
    walk_items-normal P write read normal back xs (done ++ normal x ∷ []) h.1
    ∙ ap decoded (append_assoc done (normal x ∷ []) (map normal xs)))

module _ {A : Type 0} (P : A → Type 0) (write : A → Json) (read : Json → Decoding A)
    (back : (a : A) → P a → read (write a) ≡ decoded a) where
  pub walk_items-encode_items :
      (xs done : List A)
      → All P xs
      → walk_items read (encode_items write xs) done ≡ decoded (done ++ xs)
  unfolding walk_items encode_items
  walk_items-encode_items [] done h = ap decoded (sym (append-nil done))
  walk_items-encode_items (x ∷ xs) done h =
      rw (back x h.0) (
        walk_items-encode_items xs (done ++ x ∷ []) h.1
        ∙ ap decoded (append_assoc done (x ∷ []) xs))

  pub walk_entries-encode_entries :
      (m done : Map A)
      → All (λ (e : String × A). P e.1) m
      → HasUniqueKeys (done ++ m)
      → walk_entries read (encode_entries write m) done ≡ decoded (done ++ m)
  unfolding walk_entries encode_entries
  walk_entries-encode_entries [] done h u = ap decoded (sym (append-nil done))
  walk_entries-encode_entries ((k, a) ∷ m) done h u =
      let same = append_assoc done ((k, a) ∷ []) m in
      rw (back a h.0) (
        rw (insert-absent k a done (lookup-none_of_unique k a done m u))
          (walk_entries-encode_entries m (done ++ (k, a) ∷ []) h.1 (rw same u) ∙ ap decoded same))

-- an option's content, where there is one
abbrev pub IfSet : {A : Type 0} → (A → Type 0) → Option A → Type 0
IfSet P none = Unit
IfSet P (some a) = P a

module _ {v : Values} (jx : Jx v) (laws : JxLaws v jx) where
  pub decode_object-walked :
      {S : Type 0} (name : String) (required : List String) (store : String → Json → S → Decoding S)
      (zero_value s : S) (met : List String) (fs : Fields)
      → walk store required fs zero_value [] ≡ decoded (s, met)
      → missed required met ≡ []
      → decode_object jx name required store zero_value (object fs) ≡ decoded s
  unfolding decode_object check_required
  decode_object-walked name required store zero_value s met fs h e =
      rw (laws.read-object fs, h, e, check_required) refl

  pub decode_entries-encoded :
      {A : Type 0} (P : A → Type 0) (write : A → Json) (read : Json → Decoding A)
      → ((a : A) → P a → read (write a) ≡ decoded a)
      → (name : String) (m : Map A) → All (λ (e : String × A). P e.1) m
      → HasUniqueKeys m
      → decode_entries jx name read [] (object (encode_entries write m)) ≡ decoded m
  unfolding decode_entries
  decode_entries-encoded P write read back name m h u =
      rw
        (
          laws.read-object (encode_entries write m),
          walk_entries-encode_entries P write read back m [] h u,
        )
        refl

  pub decode_array-encoded :
      {A : Type 0} (P : A → Type 0) (write : A → Json) (read : Json → Decoding A)
      → ((a : A) → P a → read (write a) ≡ decoded a)
      → (xs : List A) → All P xs
      → decode_array jx read (array (encode_items write xs)) ≡ decoded xs
  unfolding decode_array
  decode_array-encoded P write read back xs h =
      rw (laws.read-array (encode_items write xs))
        (walk_items-encode_items P write read back xs [] h)

pub IfSet-some : {A : Type 0} (P : A → Type 0) (o : Option A) (a : A) → IfSet P o → o ≡ some a → P a
IfSet-some P none a h e = absurd (cc e)
IfSet-some P (some b) a h e = let same : b ≡ a = cc e in subst P (same) h
