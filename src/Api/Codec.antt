-- ===== src/Api/Codec.antt =====
-- What the coders of api/oas/oas_json_gen.go have in common: the walk over an object's fields, the
-- check that the required ones are there, and the errors.
pub mod Walk
pub mod Request
pub mod Status
pub mod Replies
use burrowcode.Base.{
  ℕ, String, Bool, true, false, not, Option, none, some, List, [], ◌∷◌, ◌++◌, ◌≡◌, ◌==◌,
  if◌then◌else◌, one_of,
}
use burrowcode.Golang.Int.{ℤ, of_bits, to_bits}
use burrowcode.Golang.Maps.{Map, insert}
use burrowcode.Json.{Json, Items, Fields, no_items, item, no_fields, field, object, array, string}
use burrowcode.Os.{Values}

-- The library go-faster/jx, the package json of ogen and its package validate, none of which is
-- part of the repository: how a decoder reads the value that it stands at, how an encoder writes a
-- number, a time or a URL, which is its text here, and the test `validate.Float{}.Validate`.
pub record Jx (v : Values) : Type 0 where
  pub read_fields : Json → Option Fields
  pub read_items : Json → Option Items
  pub read_text : Json → Option String
  pub read_int : Json → Option ℤ
  pub read_float : Json → Option (Values.Float v)
  pub read_date_time : Json → Option ℕ
  pub read_uri : Json → Option String
  pub write_int : ℤ → Json
  pub write_float : Values.Float v → Json
  pub write_date_time : ℕ → Json
  pub write_uri : String → Json
  pub is_finite : Values.Float v → Bool

-- an integer of 64 bits
abbrev pub IsInt64 : ℤ → Type 0
IsInt64 n = of_bits (to_bits n) ≡ n

-- What the coders rely on: a decoder reads what an encoder wrote. Not all times and not all texts
-- are spelled so that they come back; `IsKept` and `IsUri` are those that are.
pub record JxLaws (v : Values) (jx : Jx v) : Type 1 where
  pub IsKept : ℕ → Type 0
  pub IsUri : String → Type 0
  pub read-object : (fs : Fields) → jx.read_fields (object fs) ≡ some fs
  pub read-array : (xs : Items) → jx.read_items (array xs) ≡ some xs
  pub read-string : (t : String) → jx.read_text (string t) ≡ some t
  pub read-write_int : (n : ℤ) → IsInt64 n → jx.read_int (jx.write_int n) ≡ some n
  pub read-write_float :
      (x : Values.Float v) → jx.is_finite x ≡ true → jx.read_float (jx.write_float x) ≡ some x
  pub read-write_date_time : (t : ℕ) → IsKept t → jx.read_date_time (jx.write_date_time t) ≡ some t
  pub read-write_uri : (t : String) → IsUri t → jx.read_uri (jx.write_uri t) ≡ some t

-- The error of a decoder: what it stands at is of another kind, a field is wrong, the whole is
-- wrong, or fields are missing.
pub data Fault : Type 0 where
  unreadable : Fault
  in_field : String → Fault → Fault
  in_type : String → Fault → Fault
  missing : List String → Fault

pub data Decoding (A : Type 0) : Type 0 where
  decoded : A → Decoding A
  faulty : Fault → Decoding A

abbrev pub of_option : {A : Type 0} → Option A → Decoding A
of_option none = faulty unreadable
of_option (some a) = decoded a

module _ {A B : Type 0} where
  abbrev pub and_then : Decoding A → (A → Decoding B) → Decoding B
  and_then (decoded a) f = f a
  and_then (faulty e) f = faulty e

module _ {A : Type 0} where
  -- `errors.Wrap(err, "decode field …")` and `errors.Wrap(err, "decode …")`
  abbrev pub wrap_field : String → Decoding A → Decoding A
  wrap_field name (decoded a) = decoded a
  wrap_field name (faulty e) = faulty (in_field name e)

  abbrev pub wrap_type : String → Decoding A → Decoding A
  wrap_type name (decoded a) = decoded a
  wrap_type name (faulty e) = faulty (in_type name e)

-- the required keys that were not met
unfoldable pub missed : List String → List String → List String
missed [] met = []
missed (k ∷ required) met =
    let others = missed required met in if one_of k met then others else k ∷ others

module _ {S : Type 0} where
  -- `ObjBytes` with the callback `store`, which is given a key, its value and what the fields before
  -- it left, and the list of the required keys that were met, for the bit set
  unfoldable pub walk :
      (String → Json → S → Decoding S)
      → List String
      → Fields
      → S
      → List String
      → Decoding (S × List String)
  walk store required no_fields s met = decoded (s, met)
  walk store required (field k j rest) s met = elim (store k j s) [
    | decoded s' ↦ walk store required rest s' (if one_of k required then k ∷ met else met)
    | faulty e ↦ faulty e
  ]

  -- the check behind the walk
  unfoldable pub check_required : List String → S × List String → Decoding S
  unfolding missed
  check_required required (s, met) = elim (missed required met) [
    | [] ↦ decoded s
    | k ∷ ks ↦ faulty (missing (k ∷ ks))
  ]

  -- a generated Decode, of the type `name`, into the zero value
  unfoldable pub decode_object :
      {v : Values}
      → Jx v
      → String
      → List String
      → (String → Json → S → Decoding S)
      → S
      → Json
      → Decoding S
  unfolding walk check_required
  decode_object jx name required store zero_value j =
      and_then
        (wrap_type name
          (and_then (of_option (jx.read_fields j)) λ fs. walk store required fs zero_value []))
        (check_required required)

  -- a generated Decode of a map: each entry into a fresh value
  unfoldable pub walk_entries : (Json → Decoding S) → Fields → Map S → Decoding (Map S)
  unfolding insert
  walk_entries read no_fields m = decoded m
  walk_entries read (field k j rest) m = elim (read j) [
    | decoded a ↦ walk_entries read rest (insert k a m)
    | faulty e ↦ faulty (in_field k e)
  ]

  -- `old` is the map that is there, empty where it was nil
  unfoldable pub decode_entries :
      {v : Values} → Jx v → String → (Json → Decoding S) → Map S → Json → Decoding (Map S)
  unfolding walk_entries
  decode_entries jx name read old j =
      wrap_type name (and_then (of_option (jx.read_fields j)) λ fs. walk_entries read fs old)

  -- `d.Arr` that appends each element
  unfoldable pub walk_items : (Json → Decoding S) → Items → List S → Decoding (List S)
  walk_items read no_items xs = decoded xs
  walk_items read (item j rest) xs = elim (read j) [
    | decoded a ↦ walk_items read rest (xs ++ a ∷ [])
    | faulty e ↦ faulty e
  ]

  unfoldable pub decode_array : {v : Values} → Jx v → (Json → Decoding S) → Json → Decoding (List S)
  unfolding walk_items
  decode_array jx read j = and_then (of_option (jx.read_items j)) λ xs. walk_items read xs []

  -- the encoding of a map's entries, of a slice's elements, and of a field that is set
  unfoldable pub encode_entries : (S → Json) → Map S → Fields
  encode_entries write [] = no_fields
  encode_entries write ((k, a) ∷ m) = field k (write a) (encode_entries write m)

  unfoldable pub encode_items : (S → Json) → List S → Items
  encode_items write [] = no_items
  encode_items write (a ∷ xs) = item (write a) (encode_items write xs)

  abbrev pub field_if_set : String → (S → Json) → Option S → Fields → Fields
  field_if_set k write none rest = rest
  field_if_set k write (some a) rest = field k (write a) rest
