-- ===== src/Api/Codec/Request.antt =====
-- CommandRequest in api/oas/oas_json_gen.go: its encoder and its decoder.
pub mod RoundTrip
pub mod Keys
use burrowcode.Base.{String, Option, none, some, List, [], ◌∷◌, ◌==◌, if◌then◌else◌}
use burrowcode.Golang.Maps.{Map}
use burrowcode.Json.{Json, Fields, field, no_fields, object, array, string}
use burrowcode.Os.{Values}
use burrowcode.Api.Types.{CommandRequest}
use burrowcode.Api.Codec.{
  Jx, Decoding, decoded, faulty, of_option, and_then, wrap_field, walk, decode_object,
  decode_entries, decode_array, encode_entries, encode_items, field_if_set,
}

-- the entries of a map, of which a nil one has none
abbrev pub entries_or_none : Option (Map String) → Map String
entries_or_none none = []
entries_or_none (some m) = m

abbrev pub no_request : CommandRequest
no_request = record {
  input_files = none;
  output_files = none;
  ffmpeg_command = none;
  ffmpeg_commands = none;
  webhook = none;
  reference_id = none;
}

-- CommandRequestInputFiles and CommandRequestOutputFiles
unfoldable pub encode_files : Map String → Json
unfolding encode_entries
encode_files m = object (encode_entries string m)

abbrev pub encode_texts : List String → Json
encode_texts ts = array (encode_items string ts)

abbrev pub required_of_request : List String
required_of_request = "output_files" ∷ []

module _ {v : Values} (jx : Jx v) where
  unfoldable pub encode_request_fields : CommandRequest → Fields
  unfolding encode_files encode_items
  encode_request_fields r = field_if_set "input_files" encode_files r.input_files (
      field "output_files" (encode_files (entries_or_none r.output_files)) (
        field_if_set "ffmpeg_command" string r.ffmpeg_command (
          field_if_set "ffmpeg_commands" encode_texts r.ffmpeg_commands (
            field_if_set "webhook" jx.write_uri r.webhook
              (field_if_set "reference_id" string r.reference_id no_fields)))))

  unfoldable pub encode_request : CommandRequest → Json
  unfolding encode_request_fields
  encode_request r = object (encode_request_fields r)

  abbrev pub read_string : Json → Decoding String
  read_string j = of_option (jx.read_text j)

  unfoldable pub decode_files : String → Map String → Json → Decoding (Map String)
  unfolding decode_entries
  decode_files name old j = decode_entries jx name read_string old j

  -- the `switch` on the key; an unknown key is skipped
  unfoldable pub store_request : String → Json → CommandRequest → Decoding CommandRequest
  unfolding decode_files decode_array
  store_request k j r =
      if k == "input_files"
      then wrap_field k (
          and_then (decode_files "CommandRequestInputFiles" [] j)
            λ m. decoded (record r { input_files = some m }))
      else if k == "output_files"
      then wrap_field k (
          and_then (decode_files "CommandRequestOutputFiles" (entries_or_none r.output_files) j)
            λ m. decoded (record r { output_files = some m }))
      else if k == "ffmpeg_command"
      then wrap_field k
          (and_then (read_string j) λ t. decoded (record r { ffmpeg_command = some t }))
      else if k == "ffmpeg_commands"
      then wrap_field k (
          and_then (decode_array jx read_string j)
            λ ts. decoded (record r { ffmpeg_commands = some ts }))
      else if k == "webhook"
      then wrap_field k
          (and_then (of_option (jx.read_uri j)) λ u. decoded (record r { webhook = some u }))
      else if k == "reference_id"
      then wrap_field k (and_then (read_string j) λ t. decoded (record r { reference_id = some t }))
      else decoded r

  unfoldable pub decode_request : Json → Decoding CommandRequest
  unfolding decode_object store_request
  decode_request j =
      decode_object jx "CommandRequest" required_of_request store_request no_request j
