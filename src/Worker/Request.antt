-- ===== src/Worker/Request.antt =====
-- The structs of worker/main.go that travel through the queue, with their JSON form.
use burrowcode.Base.{
  ℕ, String, Bool, true, false, Option, none, some, List, [], ◌∷◌, ◌==◌, if◌then◌else◌,
}
use burrowcode.Golang.Int.{ℤ}
use burrowcode.Golang.Numbers.{format_int}
use burrowcode.Golang.Maps.{Map}
use burrowcode.Json.{
  Json, Fields, null, string, number, object, field, no_fields, text_map, text_unless_empty,
  texts_unless_empty, sort_keys, same_name, decode_text, decode_texts, decode_map,
}
use burrowcode.Os.{Values}

abbrev pub type_ffmpeg_command : String
type_ffmpeg_command = "ffmpeg:command"

abbrev pub type_webhook_deliver : String
type_webhook_deliver = "webhook:deliver"

-- A map is `none` where it is nil.
pub record CommandRequest : Type 0 where
  pub input_files : Option (Map String)
  pub output_files : Option (Map String)
  pub ffmpeg_command : String
  pub ffmpeg_commands : List String
  pub webhook : String
  pub reference_id : String

abbrev pub no_request : CommandRequest
no_request = record {
  input_files = none;
  output_files = none;
  ffmpeg_command = "";
  ffmpeg_commands = [];
  webhook = "";
  reference_id = "";
}

abbrev pub map_or_null : Option (Map String) → Json
map_or_null none = null
map_or_null (some m) = text_map m

unfoldable pub encode_request : CommandRequest → Json
encode_request r = object (
    field "input_files" (map_or_null r.input_files) (
      field "output_files" (map_or_null r.output_files) (
        text_unless_empty "ffmpeg_command" r.ffmpeg_command (
          texts_unless_empty "ffmpeg_commands" r.ffmpeg_commands (
            text_unless_empty "webhook" r.webhook
              (text_unless_empty "reference_id" r.reference_id no_fields))))))

-- one key of the object; a key of no field is skipped
unfoldable pub store_key : CommandRequest → String → Json → CommandRequest × Bool
store_key r k v =
    if same_name k "input_files"
    then (let (x, fits) = decode_map v r.input_files in (record r { input_files = x }, fits))
    else if same_name k "output_files"
    then (let (x, fits) = decode_map v r.output_files in (record r { output_files = x }, fits))
    else if same_name k "ffmpeg_command"
    then (let (x, fits) = decode_text v r.ffmpeg_command in (record r { ffmpeg_command = x }, fits))
    else if same_name k "ffmpeg_commands"
    then (let (x, fits) = decode_texts v r.ffmpeg_commands in
        (record r { ffmpeg_commands = x }, fits))
    else if same_name k "webhook"
    then (let (x, fits) = decode_text v r.webhook in (record r { webhook = x }, fits))
    else if same_name k "reference_id"
    then (let (x, fits) = decode_text v r.reference_id in (record r { reference_id = x }, fits))
    else (r, true)

unfoldable pub decode_fields : Fields → CommandRequest → Bool → CommandRequest × Bool
unfolding store_key
decode_fields no_fields r fine = (r, fine)
decode_fields (field k v rest) r fine =
    let (r', fits) = store_key r k v in decode_fields rest r' (if fits then fine else false)

-- `json.Unmarshal(payload, &req)`: what it leaves in `req`, and whether it returns no error. A
-- payload is `none` where it is no JSON text.
unfoldable pub decode_request : Option Json → CommandRequest × Bool
unfolding decode_fields
decode_request none = (no_request, false)
decode_request (some (object fs)) = decode_fields fs no_request true
decode_request (some null) = (no_request, true)
decode_request (some _) = (no_request, false)

module _ (v : Values) where
  open v use {Float, format_float, format_time}

  pub record OutputFileInfo : Type 0 where
    pub file_id : String
    pub size_mbytes : Float
    pub file_type : String
    pub file_format : String
    pub storage_url : String
    pub width : ℤ
    pub height : ℤ

  pub record CommandResult : Type 0 where
    pub output_files : Map OutputFileInfo
    pub ffmpeg_command_run_seconds : Float
    pub total_processing_seconds : Float
    pub completed_at : ℕ
    pub hardware_acceleration : String

  abbrev pub float_json : Float → Json
  float_json x = number (format_float x)

  abbrev pub int_unless_zero : String → ℤ → Fields → Fields
  int_unless_zero name n rest =
      let digits = format_int n in if digits == "0" then rest else field name (number digits) rest

  unfoldable pub encode_info : OutputFileInfo → Json
  encode_info i = object (
      field "file_id" (string i.file_id) (
        field "size_mbytes" (float_json i.size_mbytes) (
          field "file_type" (string i.file_type) (
            field "file_format" (string i.file_format) (
              field "storage_url" (string i.storage_url)
                (int_unless_zero "width" i.width (int_unless_zero "height" i.height no_fields)))))))

  unfoldable pub encode_infos : Map OutputFileInfo → Fields
  unfolding encode_info
  encode_infos [] = no_fields
  encode_infos ((k, i) ∷ m) = field k (encode_info i) (encode_infos m)

  unfoldable pub encode_result : CommandResult → Json
  unfolding encode_infos sort_keys
  encode_result r = object (
      field "output_files" (object (encode_infos (sort_keys r.output_files))) (
        field "ffmpeg_command_run_seconds" (float_json r.ffmpeg_command_run_seconds) (
          field "total_processing_seconds" (float_json r.total_processing_seconds) (
            field "completed_at" (string (format_time r.completed_at))
              (text_unless_empty "hardware_acceleration" r.hardware_acceleration no_fields)))))

  -- the body of a webhook, a map whose keys are written in order
  unfoldable pub webhook_body : String → CommandResult → CommandRequest → Json
  unfolding encode_infos sort_keys encode_request
  webhook_body command_id result req = object (
      field "command_id" (string command_id) (
        field "ffmpeg_command_run_seconds" (float_json result.ffmpeg_command_run_seconds) (
          field "hardware_acceleration" (string result.hardware_acceleration) (
            field "original_request" (encode_request req) (
              field "output_files" (object (encode_infos (sort_keys result.output_files))) (
                field "status" (string "SUCCESS") (
                  field "total_processing_seconds" (float_json result.total_processing_seconds)
                    no_fields)))))))

  -- WebhookPayload
  unfoldable pub webhook_payload : String → String → CommandResult → CommandRequest → Json
  unfolding webhook_body
  webhook_payload url command_id result req = object (
      field "url" (string url) (
        field "command_id" (string command_id) (
          field "status" (string "SUCCESS")
            (field "body" (webhook_body command_id result req) no_fields))))
