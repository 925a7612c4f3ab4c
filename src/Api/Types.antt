-- ===== src/Api/Types.antt =====
-- The API's types: those of api/oas/oas_schemas_gen.go that the handlers use, and the structs of
-- api/main.go that travel through the queue. An optional field (`OptString`, `OptURI`, …) is an
-- `Option`, a URL its text.
use burrowcode.Base.{ℕ, String, Option, none, some, List, [], if◌then◌else◌}
use burrowcode.Golang.Int.{ℤ}
use burrowcode.Golang.Maps.{Map}
use burrowcode.Json.{
  Json, Fields, null, object, field, no_fields, text_map, text_unless_empty, texts_unless_empty,
  same_name, decode_text, decode_texts, decode_map,
}
use burrowcode.Os.{Values}

-- the elements of a slice, of which a nil one has none
abbrev pub items_of {ℓ} : {A : Type ℓ} → Option (List A) → List A
items_of none = []
items_of (some xs) = xs

-- oas.CommandRequest. A map and a slice are `none` where they are nil or not set.
pub record CommandRequest : Type 0 where
  pub input_files : Option (Map String)
  pub output_files : Option (Map String)
  pub ffmpeg_command : Option String
  pub ffmpeg_commands : Option (List String)
  pub webhook : Option String
  pub reference_id : Option String

-- oas.CommandStatusStatus and oas.CommandResponseStatus, which are texts, and their constants
abbrev pub Status : Type 0
Status = String

abbrev pub pending : Status
pending = "PENDING"

abbrev pub processing : Status
processing = "PROCESSING"

abbrev pub success : Status
success = "SUCCESS"

abbrev pub failed : Status
failed = "FAILED"

abbrev pub retrying : Status
retrying = "RETRYING"

pub record CommandResponse : Type 0 where
  pub command_id : String
  pub status : Status
  pub reference_id : Option String

-- oas.CreateCommandRes
pub data CreateCommandRes : Type 0 where
  created : CommandResponse → CreateCommandRes
  bad_request internal_server_error : String → CreateCommandRes

-- api/main.go: WorkerCommandRequest. A map is `none` where it is nil.
pub record WorkerCommandRequest : Type 0 where
  pub input_files : Option (Map String)
  pub output_files : Option (Map String)
  pub ffmpeg_command : String
  pub ffmpeg_commands : List String
  pub webhook : String
  pub reference_id : String

abbrev pub no_worker_request : WorkerCommandRequest
no_worker_request = record {
  input_files = none;
  output_files = none;
  ffmpeg_command = "";
  ffmpeg_commands = [];
  webhook = "";
  reference_id = "";
}

abbrev pub map_or_null : Option (Map String) → Json
map_or_null none = null
map_or_null (some m) = text_map m

unfoldable pub encode_worker_request : WorkerCommandRequest → Json
encode_worker_request r = object (
    field "input_files" (map_or_null r.input_files) (
      field "output_files" (map_or_null r.output_files) (
        text_unless_empty "ffmpeg_command" r.ffmpeg_command (
          texts_unless_empty "ffmpeg_commands" r.ffmpeg_commands (
            text_unless_empty "webhook" r.webhook
              (text_unless_empty "reference_id" r.reference_id no_fields))))))

unfoldable pub store_key : WorkerCommandRequest → String → Json → WorkerCommandRequest
store_key r k v =
    if same_name k "input_files"
    then record r { input_files = (decode_map v r.input_files).0 }
    else if same_name k "output_files"
    then record r { output_files = (decode_map v r.output_files).0 }
    else if same_name k "ffmpeg_command"
    then record r { ffmpeg_command = (decode_text v r.ffmpeg_command).0 }
    else if same_name k "ffmpeg_commands"
    then record r { ffmpeg_commands = (decode_texts v r.ffmpeg_commands).0 }
    else if same_name k "webhook"
    then record r { webhook = (decode_text v r.webhook).0 }
    else if same_name k "reference_id"
    then record r { reference_id = (decode_text v r.reference_id).0 }
    else r

unfoldable pub decode_fields : Fields → WorkerCommandRequest → WorkerCommandRequest
unfolding store_key
decode_fields no_fields r = r
decode_fields (field k v rest) r = decode_fields rest (store_key r k v)

-- `json.Unmarshal(t.Payload, &req)` with its error ignored
unfoldable pub decode_worker_request : Option Json → WorkerCommandRequest
unfolding decode_fields
decode_worker_request (some (object fs)) = decode_fields fs no_worker_request
decode_worker_request _ = no_worker_request

module _ (v : Values) where
  open v use {Float}

  -- WorkerOutputFileInfo
  pub record WorkerOutputFileInfo : Type 0 where
    pub file_id : String
    pub size_mbytes : Float
    pub file_type : String
    pub file_format : String
    pub storage_url : String
    pub width : ℤ
    pub height : ℤ

  -- WorkerCommandResult; the zero time is 0
  pub record WorkerCommandResult : Type 0 where
    pub output_files : Map WorkerOutputFileInfo
    pub ffmpeg_command_run_seconds : Float
    pub total_processing_seconds : Float
    pub completed_at : ℕ

  -- oas.OutputFileInfo
  pub record OutputFileInfo : Type 0 where
    pub file_id : String
    pub size_mbytes : Float
    pub file_type : String
    pub file_format : String
    pub storage_url : String
    pub width : Option ℤ
    pub height : Option ℤ

  -- oas.CommandStatus
  pub record CommandStatus : Type 0 where
    pub command_id : String
    pub status : Status
    pub output_files : Option (Map OutputFileInfo)
    pub original_request : Option CommandRequest
    pub ffmpeg_command_run_seconds : Option Float
    pub total_processing_seconds : Option Float
    pub error : Option String
    pub created_at : ℕ
    pub completed_at : Option ℕ

  -- oas.GetCommandRes
  pub data GetCommandRes : Type 0 where
    found : CommandStatus → GetCommandRes
    bad_request not_found : String → GetCommandRes

  -- oas.CommandListResponse. The slice is `none` where it is nil.
  pub record CommandListResponse : Type 0 where
    pub commands : Option (List CommandStatus)
    pub total : ℤ
