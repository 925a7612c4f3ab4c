-- ===== src/Api/Codec/Status.antt =====
-- OutputFileInfo and CommandStatus in api/oas/oas_json_gen.go: encoders and decoders.
pub mod InfoRoundTrip
pub mod RoundTrip
use burrowcode.Base.{String, Option, none, some, List, [], ◌∷◌, ◌==◌, if◌then◌else◌}
use burrowcode.Golang.Int.{ℤ}
use burrowcode.Golang.Maps.{Map}
use burrowcode.Json.{Json, Fields, field, no_fields, object, string}
use burrowcode.Os.{Values}
use burrowcode.Api.Types.{OutputFileInfo, CommandStatus}
use burrowcode.Api.Codec.{
  Jx, Decoding, decoded, of_option, and_then, wrap_field, walk, decode_object, decode_entries,
  encode_entries, field_if_set,
}
use burrowcode.Api.Codec.Request.{read_string, encode_request, decode_request}

abbrev pub required_of_info : List String
required_of_info = "file_id" ∷ "size_mbytes" ∷ "file_type" ∷ "file_format" ∷ "storage_url" ∷ []

abbrev pub required_of_status : List String
required_of_status = "command_id" ∷ "status" ∷ "created_at" ∷ []

module _ {v : Values} (jx : Jx v) where
  -- The zero values of the structs.
  abbrev pub zero_info : OutputFileInfo v
  zero_info = record {
    file_id = "";
    size_mbytes = Values.of_nat v 0;
    file_type = "";
    file_format = "";
    storage_url = "";
    width = none;
    height = none;
  }

  abbrev pub zero_status : CommandStatus v
  zero_status = record {
    command_id = "";
    status = "";
    output_files = none;
    original_request = none;
    ffmpeg_command_run_seconds = none;
    total_processing_seconds = none;
    error = none;
    created_at = 0;
    completed_at = none;
  }

  unfoldable pub encode_info_fields : OutputFileInfo v → Fields
  encode_info_fields i = field "file_id" (string i.file_id) (
      field "size_mbytes" (jx.write_float i.size_mbytes) (
        field "file_type" (string i.file_type) (
          field "file_format" (string i.file_format) (
            field "storage_url" (string i.storage_url) (
              field_if_set "width" jx.write_int i.width
                (field_if_set "height" jx.write_int i.height no_fields))))))

  unfoldable pub encode_info : OutputFileInfo v → Json
  unfolding encode_info_fields
  encode_info i = object (encode_info_fields i)

  unfoldable pub store_info : String → Json → OutputFileInfo v → Decoding (OutputFileInfo v)
  store_info k j i =
      if k == "file_id"
      then wrap_field k (and_then (read_string jx j) λ t. decoded (record i { file_id = t }))
      else if k == "size_mbytes"
      then wrap_field k
          (and_then (of_option (jx.read_float j)) λ x. decoded (record i { size_mbytes = x }))
      else if k == "file_type"
      then wrap_field k (and_then (read_string jx j) λ t. decoded (record i { file_type = t }))
      else if k == "file_format"
      then wrap_field k (and_then (read_string jx j) λ t. decoded (record i { file_format = t }))
      else if k == "storage_url"
      then wrap_field k (and_then (read_string jx j) λ t. decoded (record i { storage_url = t }))
      else if k == "width"
      then wrap_field k
          (and_then (of_option (jx.read_int j)) λ n. decoded (record i { width = some n }))
      else if k == "height"
      then wrap_field k
          (and_then (of_option (jx.read_int j)) λ n. decoded (record i { height = some n }))
      else decoded i

  unfoldable pub decode_info : Json → Decoding (OutputFileInfo v)
  unfolding decode_object store_info
  decode_info j = decode_object jx "OutputFileInfo" required_of_info store_info zero_info j

  -- CommandStatusOutputFiles
  unfoldable pub encode_infos : Map (OutputFileInfo v) → Json
  unfolding encode_entries encode_info
  encode_infos m = object (encode_entries encode_info m)

  unfoldable pub decode_infos : Json → Decoding (Map (OutputFileInfo v))
  unfolding decode_entries decode_info
  decode_infos j = decode_entries jx "CommandStatusOutputFiles" decode_info [] j

  unfoldable pub encode_status_fields : CommandStatus v → Fields
  unfolding encode_infos encode_request
  encode_status_fields s = field "command_id" (string s.command_id) (
      field "status" (string s.status) (
        field_if_set "output_files" encode_infos s.output_files (
          field_if_set "original_request" (encode_request jx) s.original_request (
            field_if_set "ffmpeg_command_run_seconds" jx.write_float s.ffmpeg_command_run_seconds (
              field_if_set "total_processing_seconds" jx.write_float s.total_processing_seconds (
                field_if_set "error" string s.error (
                  field "created_at" (jx.write_date_time s.created_at)
                    (field_if_set "completed_at" jx.write_date_time s.completed_at no_fields))))))))

  unfoldable pub encode_status : CommandStatus v → Json
  unfolding encode_status_fields
  encode_status s = object (encode_status_fields s)

  unfoldable pub store_status : String → Json → CommandStatus v → Decoding (CommandStatus v)
  unfolding decode_infos decode_request
  store_status k j s =
      if k == "command_id"
      then wrap_field k (and_then (read_string jx j) λ t. decoded (record s { command_id = t }))
      else if k == "status"
      then wrap_field k (and_then (read_string jx j) λ t. decoded (record s { status = t }))
      else if k == "output_files"
      then wrap_field k
          (and_then (decode_infos j) λ m. decoded (record s { output_files = some m }))
      else if k == "original_request"
      then wrap_field k
          (and_then (decode_request jx j) λ r. decoded (record s { original_request = some r }))
      else if k == "ffmpeg_command_run_seconds"
      then wrap_field k (
          and_then (of_option (jx.read_float j))
            λ x. decoded (record s { ffmpeg_command_run_seconds = some x }))
      else if k == "total_processing_seconds"
      then wrap_field k (
          and_then (of_option (jx.read_float j))
            λ x. decoded (record s { total_processing_seconds = some x }))
      else if k == "error"
      then wrap_field k (and_then (read_string jx j) λ t. decoded (record s { error = some t }))
      else if k == "created_at"
      then wrap_field k
          (and_then (of_option (jx.read_date_time j)) λ t. decoded (record s { created_at = t }))
      else if k == "completed_at"
      then wrap_field k (
          and_then (of_option (jx.read_date_time j))
            λ t. decoded (record s { completed_at = some t }))
      else decoded s

  unfoldable pub decode_status : Json → Decoding (CommandStatus v)
  unfolding decode_object store_status
  decode_status j = decode_object jx "CommandStatus" required_of_status store_status zero_status j
