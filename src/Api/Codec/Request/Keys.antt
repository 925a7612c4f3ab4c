-- ===== src/Api/Codec/Request/Keys.antt =====
-- What the decoder of a CommandRequest leaves: maps in which no key occurs twice.
use burrowcode.Base.{
  String, refl, Bool, Option, none, some, List, [], ◌∷◌, ◌==◌, if_both, if◌then◌else◌, arith,
  eq_iff, Bool-cases, inl, inr, one_of,
}
use burrowcode.Golang.Maps.{Map, lookup, insert, lookup-insert, HasUniqueKeys}
use burrowcode.Json.{Json, Fields, field, no_fields}
use burrowcode.Os.{Values}
use burrowcode.Api.Types.{CommandRequest}
use burrowcode.Api.Codec.{
  Jx, Fault, Decoding, decoded, faulty, of_option, and_then, wrap_field, wrap_type, walk, missed,
  check_required, decode_object, walk_entries, decode_entries, decode_array,
}
use burrowcode.Api.Codec.Walk.{IfSet}
use burrowcode.Api.Codec.Request.{
  entries_or_none, no_request, required_of_request, read_string, decode_files, store_request,
  decode_request,
}

-- what is decoded, if anything is, meets `P`
abbrev pub Yields : {A : Type 0} → (A → Type 0) → Decoding A → Type 0
Yields P (decoded a) = P a
Yields P (faulty e) = Unit

module _ {A : Type 0} where
  Yields-trivial : (d : Decoding A) → Yields (λ a. Unit) d
  Yields-trivial (decoded a) = tt
  Yields-trivial (faulty e) = tt

  Yields-wrap_field :
      (P : A → Type 0) (name : String) (d : Decoding A) → Yields P d → Yields P (wrap_field name d)
  Yields-wrap_field P name (decoded a) h = h
  Yields-wrap_field P name (faulty e) h = h

  Yields-wrap_type :
      (P : A → Type 0) (name : String) (d : Decoding A) → Yields P d → Yields P (wrap_type name d)
  Yields-wrap_type P name (decoded a) h = h
  Yields-wrap_type P name (faulty e) h = h

module _ {A B : Type 0} (P : A → Type 0) (Q : B → Type 0) where
  Yields-and_then :
      (d : Decoding A) (f : A → Decoding B)
      → Yields P d
      → ((a : A) → P a → Yields Q (f a))
      → Yields Q (and_then d f)
  Yields-and_then (decoded a) f h k = k a h
  Yields-and_then (faulty e) f h k = h

module _ {S : Type 0} (P : S → Type 0) where
  Yields-walk :
      (store : String → Json → S → Decoding S)
      → ((k : String) (j : Json) (s : S) → P s → Yields P (store k j s))
      → (required : List String) (fs : Fields) (s : S) (met : List String) → P s
      → Yields (λ (x : S × List String). P x.0) (walk store required fs s met)
  unfolding walk
  Yields-walk store keeps required no_fields s met h = h
  Yields-walk store keeps required (field k j rest) s met h =
      go (store k j s) (keeps k j s h) λ s' h'.
        Yields-walk store keeps required rest s' (if one_of k required then k ∷ met else met) h'
    where
      go :
          (d : Decoding S)
          → Yields P d
          → ((s' : S)
              → P s'
              → Yields
                  (λ (x : S × List String). P x.0)
                  (walk store required rest s' (if one_of k required then k ∷ met else met)))
          → Yields
              (λ (x : S × List String). P x.0)
              (elim d [
                | decoded s' ↦
                    walk store required rest s' (if one_of k required then k ∷ met else met)
                | faulty e ↦ faulty e
              ])
      go (decoded s') h' others = others s' h'
      go (faulty e) h' others = tt

  Yields-check_required :
      (required : List String) (x : S × List String) → P x.0 → Yields P (check_required required x)
  unfolding check_required
  Yields-check_required required (s, met) h = go (missed required met)
    where
      go :
          (ks : List String)
          → Yields P (elim ks [ [] ↦ decoded s | k ∷ ks ↦ faulty (Fault.missing (k ∷ ks)) ])
      go [] = h
      go (k ∷ ks) = tt

  pub Yields-decode_object :
      {v : Values} (jx : Jx v) (name : String) (required : List String)
      (store : String → Json → S → Decoding S) (zero_value : S) (j : Json)
      → ((k : String) (j : Json) (s : S) → P s → Yields P (store k j s))
      → P zero_value
      → Yields P (decode_object jx name required store zero_value j)
  unfolding decode_object
  Yields-decode_object jx name required store zero_value j keeps h =
      let Walked = λ (x : S × List String). P x.0 in
      let fields = of_option (jx.read_fields j) in
      let walked = λ (fs : Fields). walk store required fs zero_value [] in
      Yields-and_then Walked P (wrap_type name (and_then fields walked)) (check_required required)
        (Yields-wrap_type Walked name (and_then fields walked) (
          Yields-and_then (λ fs. Unit) Walked fields walked (Yields-trivial fields)
            λ fs _. Yields-walk store keeps required fs zero_value [] h))
        (Yields-check_required required)

insert-HasUniqueKeys :
    {A : Type 0} (k : String) (a : A) (m : Map A) → HasUniqueKeys m → HasUniqueKeys (insert k a m)
unfolding lookup insert
insert-HasUniqueKeys k a [] u = (refl, tt)
insert-HasUniqueKeys k a ((j, b) ∷ m) u = elim (Bool-cases (j == k)) [
  | inl e ↦ rw e (ground (arith, eq_iff j k, e, u.0), u.1)
  | inr e ↦ rw e (
    ground (arith, lookup-insert m k a j, eq_iff j k, eq_iff k j, e, u.0),
    insert-HasUniqueKeys k a m u.1,
  )
]

Yields-walk_entries :
    {A : Type 0} (read : Json → Decoding A) (fs : Fields) (m : Map A)
    → HasUniqueKeys m
    → Yields HasUniqueKeys (walk_entries read fs m)
unfolding walk_entries
Yields-walk_entries read no_fields m u = u
Yields-walk_entries {A} read (field k j rest) m u =
    go (read j) λ a. Yields-walk_entries read rest (insert k a m) (insert-HasUniqueKeys k a m u)
  where
    go :
        (d : Decoding A)
        → ((a : A) → Yields HasUniqueKeys (walk_entries read rest (insert k a m)))
        → Yields HasUniqueKeys (elim d [
          | decoded a ↦ walk_entries read rest (insert k a m)
          | faulty e ↦ faulty (Fault.in_field k e)
        ])
    go (decoded a) others = others a
    go (faulty e) others = tt

-- no key of the maps of a request occurs twice
pub record HasKeys (r : CommandRequest) : Type 0 where
  pub input_files : IfSet HasUniqueKeys r.input_files
  pub output_files : IfSet HasUniqueKeys r.output_files

entries_or_none-HasUniqueKeys :
    (m : Option (Map String)) → IfSet HasUniqueKeys m → HasUniqueKeys (entries_or_none m)
entries_or_none-HasUniqueKeys none h = tt
entries_or_none-HasUniqueKeys (some m) h = h

record GivesKeys (d : Decoding CommandRequest) : Type 0 where
  holds : Yields HasKeys d

GivesKeys-if :
    (b : Bool) (d d' : Decoding CommandRequest)
    → GivesKeys d
    → GivesKeys d'
    → GivesKeys (if b then d else d')
GivesKeys-if b d d' = if_both GivesKeys b d d'

module _ {v : Values} (jx : Jx v) where
  Yields-decode_files :
      (name : String) (old : Map String) (j : Json)
      → HasUniqueKeys old
      → Yields HasUniqueKeys (decode_files jx name old j)
  unfolding decode_files decode_entries
  Yields-decode_files name old j u =
      let fields = of_option (jx.read_fields j) in
      let entries = λ (fs : Fields). walk_entries (read_string jx) fs old in
      Yields-wrap_type HasUniqueKeys name (and_then fields entries) (
        Yields-and_then (λ fs. Unit) HasUniqueKeys fields entries (Yields-trivial fields)
          λ fs _. Yields-walk_entries (read_string jx) fs old u)

  -- one field of the request: what is read, and the request with it
  field_read :
      {A : Type 0} (P : A → Type 0) (k : String) (d : Decoding A) (put : A → CommandRequest)
      → Yields P d
      → ((a : A) → P a → HasKeys (put a))
      → GivesKeys (wrap_field k (and_then d λ a. decoded (put a)))
  field_read P k d put h fits = record {
    holds =
        Yields-wrap_field HasKeys k (and_then d λ a. decoded (put a))
          (Yields-and_then P HasKeys d (λ a. decoded (put a)) h fits);
  }

  other_field :
      {A : Type 0} (k : String) (d : Decoding A) (put : A → CommandRequest)
      → ((a : A) → HasKeys (put a))
      → GivesKeys (wrap_field k (and_then d λ a. decoded (put a)))
  other_field k d put fits = field_read (λ a. Unit) k d put (Yields-trivial d) λ a _. fits a

  store_request-GivesKeys :
      (k : String) (j : Json) (r : CommandRequest) → HasKeys r → GivesKeys (store_request jx k j r)
  unfolding store_request
  store_request-GivesKeys k j r h =
      let text = read_string jx j in
      let old = entries_or_none r.output_files in
      GivesKeys-if (k == "input_files") _ _
        (field_read HasUniqueKeys k _ (λ m. record r { input_files = some m })
          (Yields-decode_files "CommandRequestInputFiles" [] j tt)
          λ m u. record { input_files = u; output_files = h.output_files })
        (GivesKeys-if (k == "output_files") _ _
          (field_read HasUniqueKeys k _ (λ m. record r { output_files = some m })
            (Yields-decode_files "CommandRequestOutputFiles" old j
              (entries_or_none-HasUniqueKeys r.output_files h.output_files))
            λ m u. record { input_files = h.input_files; output_files = u })
          (GivesKeys-if (k == "ffmpeg_command") _ _
            (other_field k text (λ t. record r { ffmpeg_command = some t })
              (λ t. record { input_files = h.input_files; output_files = h.output_files }))
            (GivesKeys-if (k == "ffmpeg_commands") _ _
              (other_field k (decode_array jx (read_string jx) j)
                (λ ts. record r { ffmpeg_commands = some ts })
                λ ts. record { input_files = h.input_files; output_files = h.output_files })
              (GivesKeys-if (k == "webhook") _ _
                (other_field k (of_option (jx.read_uri j)) (λ u. record r { webhook = some u })
                  λ u. record { input_files = h.input_files; output_files = h.output_files })
                (GivesKeys-if (k == "reference_id") _ (decoded r)
                  (other_field k text (λ t. record r { reference_id = some t })
                    λ t. record { input_files = h.input_files; output_files = h.output_files })
                  (record { holds = h }))))))

  -- The decoder leaves no key twice in a map of the request.
  pub Yields-decode_request : (j : Json) → Yields HasKeys (decode_request jx j)
  unfolding decode_request
  Yields-decode_request j =
      Yields-decode_object HasKeys jx "CommandRequest" required_of_request (store_request jx)
        no_request j (λ k j r h. (store_request-GivesKeys k j r h).holds)
        (record { input_files = tt; output_files = tt })
