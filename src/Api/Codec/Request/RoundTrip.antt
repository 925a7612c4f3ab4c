-- ===== src/Api/Codec/Request/RoundTrip.antt =====
-- A CommandRequest that is encoded decodes to itself.
use burrowcode.Base.{String, ◌≡◌, refl, ◌∙◌, some, List, [], ◌∷◌, All}
use burrowcode.Golang.Maps.{Map, HasUniqueKeys}
use burrowcode.Json.{field, no_fields, string}
use burrowcode.Os.{Values}
use burrowcode.Api.Types.{CommandRequest}
use burrowcode.Api.Codec.{Jx, JxLaws, decoded, walk, field_if_set, decode_array}
use burrowcode.Api.Codec.Walk.{
  walk-field, walk-no_fields, walk-field_if_set, IfSet, IfSet-some, decode_object-walked,
  decode_entries-encoded, decode_array-encoded,
}
use burrowcode.Api.Codec.Request.{
  entries_or_none, no_request, encode_files, encode_texts, required_of_request,
  encode_request_fields, encode_request, decode_files, read_string, store_request, decode_request,
}

-- no key of the maps occurs twice, and the webhook is a URL that comes back
pub record IsCodable {v : Values} (jx : Jx v) (laws : JxLaws v jx) (r : CommandRequest)
    : Type 0 where
  pub input_files : IfSet HasUniqueKeys r.input_files
  pub output_files : HasUniqueKeys (entries_or_none r.output_files)
  pub webhook : IfSet laws.IsUri r.webhook

-- A nil map of output files is written like an empty one.
abbrev pub with_output_files : CommandRequest → CommandRequest
with_output_files r = record r { output_files = some (entries_or_none r.output_files) }

All-trivial : {A : Type 0} (m : List A) → All (λ a. Unit {0}) m
All-trivial [] = tt
All-trivial (x ∷ m) = (tt, All-trivial m)

module _ {v : Values} (jx : Jx v) (laws : JxLaws v jx) where
  pub read_string-string : (t : String) → read_string jx (string t) ≡ decoded t
  read_string-string t = rw (laws.read-string t) refl

  decode_files-encode_files :
      (name : String) (m : Map String)
      → HasUniqueKeys m
      → decode_files jx name [] (encode_files m) ≡ decoded m
  unfolding decode_files encode_files
  decode_files-encode_files name m u =
      decode_entries-encoded jx laws (λ t. Unit {0}) string (read_string jx)
        (λ t h. read_string-string t) name m (All-trivial m) u

  decode_texts-encode_texts :
      (ts : List String) → decode_array jx (read_string jx) (encode_texts ts) ≡ decoded ts
  decode_texts-encode_texts ts =
      decode_array-encoded jx laws (λ t. Unit {0}) string (read_string jx)
        (λ t h. read_string-string t) ts (All-trivial ts)

  module _ (r : CommandRequest) where
    store-input_files :
        (m : Map String)
        → HasUniqueKeys m
        → store_request jx "input_files" (encode_files m) r
          ≡ decoded (record r { input_files = some m })
    unfolding store_request
    store-input_files m u = rw (decode_files-encode_files "CommandRequestInputFiles" m u) refl

    store-output_files :
        (m : Map String)
        → HasUniqueKeys m
        → entries_or_none r.output_files ≡ []
        → store_request jx "output_files" (encode_files m) r
          ≡ decoded (record r { output_files = some m })
    unfolding store_request
    store-output_files m u e =
        rw (e, decode_files-encode_files "CommandRequestOutputFiles" m u) refl

    store-ffmpeg_command :
        (t : String)
        → store_request jx "ffmpeg_command" (string t) r
          ≡ decoded (record r { ffmpeg_command = some t })
    unfolding store_request
    store-ffmpeg_command t = rw (read_string-string t) refl

    store-ffmpeg_commands :
        (ts : List String)
        → store_request jx "ffmpeg_commands" (encode_texts ts) r
          ≡ decoded (record r { ffmpeg_commands = some ts })
    unfolding store_request
    store-ffmpeg_commands ts = rw (decode_texts-encode_texts ts) refl

    store-webhook :
        (t : String)
        → laws.IsUri t
        → store_request jx "webhook" (jx.write_uri t) r ≡ decoded (record r { webhook = some t })
    unfolding store_request
    store-webhook t h = rw (laws.read-write_uri t h) refl

    store-reference_id :
        (t : String)
        → store_request jx "reference_id" (string t) r
          ≡ decoded (record r { reference_id = some t })
    unfolding store_request
    store-reference_id t = rw (read_string-string t) refl

  walk-encode_request_fields :
      (r : CommandRequest)
      → IsCodable jx laws r
      → walk (store_request jx) required_of_request (encode_request_fields jx r) no_request []
        ≡ decoded (with_output_files r, "output_files" ∷ [])
  unfolding encode_request_fields
  walk-encode_request_fields r h =
      let store = store_request jx in
      let need = required_of_request in
      let met : List String = "output_files" ∷ [] in
      let f6 = field_if_set "reference_id" string r.reference_id no_fields in
      let f5 = field_if_set "webhook" jx.write_uri r.webhook f6 in
      let f4 = field_if_set "ffmpeg_commands" encode_texts r.ffmpeg_commands f5 in
      let f3 = field_if_set "ffmpeg_command" string r.ffmpeg_command f4 in
      let outputs = entries_or_none r.output_files in
      let f2 = field "output_files" (encode_files outputs) f3 in
      let r1 = record no_request { input_files = r.input_files } in
      let r2 = record r1 { output_files = some outputs } in
      let r3 = record r2 { ffmpeg_command = r.ffmpeg_command } in
      let r4 = record r3 { ffmpeg_commands = r.ffmpeg_commands } in
      let r5 = record r4 { webhook = r.webhook } in
      walk-field_if_set store need "input_files" encode_files r.input_files f2
        (λ o. record no_request { input_files = o }) [] refl
        (λ m e.
          store-input_files no_request m (IfSet-some HasUniqueKeys r.input_files m h.input_files e))
      ∙ walk-field store need "output_files" (encode_files outputs) f3 r1 r2 []
          (store-output_files r1 outputs h.output_files refl)
      ∙ walk-field_if_set store need "ffmpeg_command" string r.ffmpeg_command f4
          (λ o. record r2 { ffmpeg_command = o }) met refl (λ t e. store-ffmpeg_command r2 t)
      ∙ walk-field_if_set store need "ffmpeg_commands" encode_texts r.ffmpeg_commands f5
          (λ o. record r3 { ffmpeg_commands = o }) met refl (λ ts e. store-ffmpeg_commands r3 ts)
      ∙ walk-field_if_set store need "webhook" jx.write_uri r.webhook f6
          (λ o. record r4 { webhook = o }) met refl
          (λ t e. store-webhook r4 t (IfSet-some laws.IsUri r.webhook t h.webhook e))
      ∙ walk-field_if_set store need "reference_id" string r.reference_id no_fields
          (λ o. record r5 { reference_id = o }) met refl (λ t e. store-reference_id r5 t)
      ∙ walk-no_fields store need (with_output_files r) met

  -- A request that is encoded decodes to itself, but for a nil map of output files, which comes back
  -- as an empty one; no key of the two maps may occur twice, and the webhook must be a URL that its
  -- text gives back.
  pub decode_request-encode_request :
      (r : CommandRequest)
      → IsCodable jx laws r
      → decode_request jx (encode_request jx r) ≡ decoded (with_output_files r)
  unfolding decode_request encode_request
  decode_request-encode_request r h =
      decode_object-walked jx laws "CommandRequest" required_of_request (store_request jx)
        no_request (with_output_files r) ("output_files" ∷ []) (encode_request_fields jx r)
        (walk-encode_request_fields r h) refl
