-- ===== src/Contract/Result.antt =====
-- What crosses the queue back from the worker (worker/main.go) to the API (api/main.go): a task's
-- result.
pub mod RoundTrip
use burrowcode.Base.{
  ℕ, String, ◌≡◌, refl, sym, ap, ◌∙◌, ◌^◌, ◌<◌, Bool, true, false, Option, some, List, [], ◌∷◌,
  ◌++◌, map, ◌==◌, eq_iff, Bool-cases, inl, inr, if◌then◌else◌,
}
use burrowcode.Golang.Int.{ℤ, pos, negsuc}
use burrowcode.Golang.Numbers.{Parsed, parsed, parse_int, format_int}
use burrowcode.Golang.Numbers.RoundTrip.{parse_int-format_int}
use burrowcode.Golang.Maps.{
  Map, lookup, insert, HasUniqueKeys, insert-absent, lookup-none_of_unique,
}
use burrowcode.Json.{
  Json, Fields, field, no_fields, string, number, object, same_name, decode_text, sort_keys,
  text_unless_empty,
}
use burrowcode.Json.RoundTrip.{EachEntry, EachEntry-sort_keys, HasUniqueKeys-sort_keys}
use burrowcode.Os.{Values}
use burrowcode.Worker.Request.{
  OutputFileInfo, CommandResult, encode_info, encode_infos, encode_result, int_unless_zero,
  float_json,
}
use burrowcode.Api.Types.{WorkerOutputFileInfo, WorkerCommandResult}
use burrowcode.Api.Result.{
  decode_int, decode_float, decode_time, store_info_key, decode_info_fields, decode_info,
  decode_infos, decode_output_files, store_result_key, decode_result_fields, decode_result, no_info,
  no_result,
}

-- a size in pixels, of an `int`
abbrev pub IsSize : ℤ → Type 0
IsSize (pos n) = n < 2 ^ 63
IsSize (negsuc n) = ⊥

parse_int-size : (n : ℤ) → IsSize n → parse_int (format_int n) ≡ parsed n
parse_int-size (pos n) h = parse_int-format_int n h
parse_int-size (negsuc n) h = absurd h

parsed-injective : {A : Type 0} (a b : A) → parsed a ≡ parsed b → a ≡ b
parsed-injective a b h = cc h

parse_zero : parse_int "0" ≡ parsed (pos 0)
unfolding parse_int
parse_zero = refl

-- a size that is spelled "0" is 0
zero_size : (n : ℤ) → IsSize n → format_int n ≡ "0" → pos 0 ≡ n
zero_size n h e =
    parsed-injective (pos 0) n (sym parse_zero ∙ sym (ap parse_int e) ∙ parse_int-size n h)

module _ (v : Values) where
  open v use {Float, parse_float, format_float, parse_time, format_time}

  -- a number whose spelling parses to it, as that of a finite `float64` does
  abbrev pub IsSpelled : Float → Type 0
  IsSpelled x = parse_float (format_float x) ≡ parsed x

  pub record IsSendableInfo (i : OutputFileInfo v) : Type 0 where
    pub size_mbytes : IsSpelled i.size_mbytes
    pub width : IsSize i.width
    pub height : IsSize i.height

  -- the API's struct with the worker's fields
  abbrev pub received_info : OutputFileInfo v → WorkerOutputFileInfo v
  received_info i = record {
    file_id = i.file_id;
    size_mbytes = i.size_mbytes;
    file_type = i.file_type;
    file_format = i.file_format;
    storage_url = i.storage_url;
    width = i.width;
    height = i.height;
  }

  read_info_field :
      (r r' : WorkerOutputFileInfo v) (rest : Fields) (k : String) (j : Json)
      → store_info_key v r k j ≡ (r', true)
      → decode_info_fields v (field k j rest) r true ≡ decode_info_fields v rest r' true
  unfolding decode_info_fields
  read_info_field r r' rest k j h =
      ap
        (λ (x : WorkerOutputFileInfo v × Bool).
          decode_info_fields v rest x.0 (if x.1 then true else false))
        h

  module _ (r : WorkerOutputFileInfo v) where
    store-size_mbytes :
        (x : Float)
        → IsSpelled x
        → store_info_key v r "size_mbytes" (float_json v x) ≡ (record r { size_mbytes = x }, true)
    unfolding store_info_key same_name decode_float
    store-size_mbytes x h = rw h refl

    store-width :
        (n : ℤ)
        → IsSize n
        → store_info_key v r "width" (number (format_int n)) ≡ (record r { width = n }, true)
    unfolding store_info_key same_name decode_int
    store-width n h = rw (parse_int-size n h) refl

    store-height :
        (n : ℤ)
        → IsSize n
        → store_info_key v r "height" (number (format_int n)) ≡ (record r { height = n }, true)
    unfolding store_info_key same_name decode_int
    store-height n h = rw (parse_int-size n h) refl

  module _ (r : WorkerOutputFileInfo v) (rest : Fields) (n : ℤ) (h : IsSize n) where
    read-width :
        r.width ≡ pos 0
        → decode_info_fields v (int_unless_zero v "width" n rest) r true
          ≡ decode_info_fields v rest (record r { width = n }) true
    read-width z = elim (Bool-cases (format_int n == "0")) [
      | inl e ↦ rw e (
          ap (λ x. decode_info_fields v rest (record r { width = x }) true)
            (z ∙ zero_size n h ((eq_iff (format_int n) "0").0 e)))
      | inr e ↦ rw e (
          read_info_field r (record r { width = n }) rest "width" (number (format_int n))
            (store-width r n h))
    ]

    read-height :
        r.height ≡ pos 0
        → decode_info_fields v (int_unless_zero v "height" n rest) r true
          ≡ decode_info_fields v rest (record r { height = n }) true
    read-height z = elim (Bool-cases (format_int n == "0")) [
      | inl e ↦ rw e (
          ap (λ x. decode_info_fields v rest (record r { height = x }) true)
            (z ∙ zero_size n h ((eq_iff (format_int n) "0").0 e)))
      | inr e ↦ rw e (
          read_info_field r (record r { height = n }) rest "height" (number (format_int n))
            (store-height r n h))
    ]

  store-text :
      (r : WorkerOutputFileInfo v) (t : String)
      → (store_info_key v r "file_id" (string t) ≡ (record r { file_id = t }, true))
        × (store_info_key v r "file_type" (string t) ≡ (record r { file_type = t }, true))
        × (store_info_key v r "file_format" (string t) ≡ (record r { file_format = t }, true))
        × (store_info_key v r "storage_url" (string t) ≡ (record r { storage_url = t }, true))
  unfolding store_info_key same_name decode_text
  store-text r t = (refl, refl, refl, refl)

  pub decode_info-encode_info :
      (i : OutputFileInfo v)
      → IsSendableInfo i
      → decode_info v (encode_info v i) ≡ (received_info i, true)
  unfolding decode_info encode_info
  decode_info-encode_info i h =
      let f6 = int_unless_zero v "height" i.height no_fields in
      let f5 = int_unless_zero v "width" i.width f6 in
      let f4 = field "storage_url" (string i.storage_url) f5 in
      let f3 = field "file_format" (string i.file_format) f4 in
      let f2 = field "file_type" (string i.file_type) f3 in
      let f1 = field "size_mbytes" (float_json v i.size_mbytes) f2 in
      let r1 = record (no_info v) { file_id = i.file_id } in
      let r2 = record r1 { size_mbytes = i.size_mbytes } in
      let r3 = record r2 { file_type = i.file_type } in
      let r4 = record r3 { file_format = i.file_format } in
      let r5 = record r4 { storage_url = i.storage_url } in
      let r6 = record r5 { width = i.width } in
      read_info_field (no_info v) r1 f1 "file_id" (string i.file_id)
        (store-text (no_info v) i.file_id).0
      ∙ read_info_field r1 r2 f2 "size_mbytes" (float_json v i.size_mbytes)
          (store-size_mbytes r1 i.size_mbytes h.size_mbytes)
      ∙ read_info_field r2 r3 f3 "file_type" (string i.file_type) (store-text r2 i.file_type).1
      ∙ read_info_field r3 r4 f4 "file_format" (string i.file_format)
          (store-text r3 i.file_format).2
      ∙ read_info_field r4 r5 f5 "storage_url" (string i.storage_url)
          (store-text r4 i.storage_url).3
      ∙ read-width r5 f6 i.width h.width refl
      ∙ read-height r6 no_fields i.height h.height refl
