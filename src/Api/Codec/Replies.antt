-- ===== src/Api/Codec/Replies.antt =====
-- The other schemas in api/oas/oas_json_gen.go: CommandResponse, CommandListResponse,
-- ErrorResponse, HealthResponse and GetOpenAPIOK, with their encoders and decoders.
pub mod RoundTrip
use burrowcode.Base.{String, Option, none, some, List, [], ◌∷◌, ◌==◌, if◌then◌else◌}
use burrowcode.Golang.Int.{ℤ, pos}
use burrowcode.Json.{Json, Fields, field, no_fields, object, array, string}
use burrowcode.Os.{Values}
use burrowcode.Api.Types.{items_of, CommandResponse, CommandStatus, CommandListResponse}
use burrowcode.Api.Codec.{
  Jx, Decoding, decoded, of_option, and_then, wrap_field, wrap_type, walk, decode_object,
  decode_array, encode_items, field_if_set,
}
use burrowcode.Api.Codec.Request.{read_string}
use burrowcode.Api.Codec.Status.{encode_status, decode_status}

abbrev pub required_of_response : List String
required_of_response = "command_id" ∷ "status" ∷ []

abbrev pub required_of_list : List String
required_of_list = "commands" ∷ "total" ∷ []

abbrev pub zero_response : CommandResponse
zero_response = record { command_id = ""; status = ""; reference_id = none }

-- ErrorResponse, and the types that are spelled like it: its one field is the message
unfoldable pub encode_error : String → Json
encode_error message = object (field "error" (string message) no_fields)

-- HealthResponse, by its one field
unfoldable pub encode_health : String → Json
encode_health status = object (field "status" (string status) no_fields)

-- GetOpenAPIOK has no field
unfoldable pub encode_open_api : Json
encode_open_api = object no_fields

unfoldable pub encode_response_fields : CommandResponse → Fields
encode_response_fields r =
    field "command_id" (string r.command_id) (
      field "status" (string r.status)
        (field_if_set "reference_id" string r.reference_id no_fields))

unfoldable pub encode_response : CommandResponse → Json
unfolding encode_response_fields
encode_response r = object (encode_response_fields r)

module _ {v : Values} (jx : Jx v) where
  abbrev pub zero_list : CommandListResponse v
  zero_list = record { commands = none; total = pos 0 }

  -- a struct with one text, under `name`
  abbrev pub store_text : String → String → Json → String → Decoding String
  store_text name k j t =
      if k == name then wrap_field k (and_then (read_string jx j) decoded) else decoded t

  unfoldable pub decode_error : Json → Decoding String
  unfolding decode_object
  decode_error j = decode_object jx "ErrorResponse" ("error" ∷ []) (store_text "error") "" j

  -- the types that are ErrorResponse by another name, as CreateCommandBadRequest
  unfoldable pub decode_error_alias : Json → Decoding String
  unfolding decode_error
  decode_error_alias j = wrap_type "alias" (decode_error j)

  unfoldable pub decode_health : Json → Decoding String
  unfolding decode_object
  decode_health j = decode_object jx "HealthResponse" ("status" ∷ []) (store_text "status") "" j

  abbrev skip_field : String → Json → Unit {0} → Decoding (Unit {0})
  skip_field k j u = decoded u

  unfoldable pub decode_open_api : Json → Decoding (Unit {0})
  unfolding decode_object
  decode_open_api j = decode_object jx "GetOpenAPIOK" [] skip_field tt j

  unfoldable pub store_response : String → Json → CommandResponse → Decoding CommandResponse
  store_response k j r =
      if k == "command_id"
      then wrap_field k (and_then (read_string jx j) λ t. decoded (record r { command_id = t }))
      else if k == "status"
      then wrap_field k (and_then (read_string jx j) λ t. decoded (record r { status = t }))
      else if k == "reference_id"
      then wrap_field k
          (and_then (read_string jx j) λ t. decoded (record r { reference_id = some t }))
      else decoded r

  unfoldable pub decode_response : Json → Decoding CommandResponse
  unfolding decode_object store_response
  decode_response j =
      decode_object jx "CommandResponse" required_of_response store_response zero_response j

  unfoldable pub encode_list_fields : CommandListResponse v → Fields
  unfolding encode_items encode_status
  encode_list_fields l =
      field "commands" (array (encode_items (encode_status jx) (items_of l.commands)))
        (field "total" (jx.write_int l.total) no_fields)

  unfoldable pub encode_list : CommandListResponse v → Json
  unfolding encode_list_fields
  encode_list l = object (encode_list_fields l)

  unfoldable pub store_list :
      String → Json → CommandListResponse v → Decoding (CommandListResponse v)
  unfolding decode_array decode_status
  store_list k j l =
      if k == "commands"
      then wrap_field k (
          and_then (decode_array jx (decode_status jx) j)
            λ xs. decoded (record l { commands = some xs }))
      else if k == "total"
      then wrap_field k (and_then (of_option (jx.read_int j)) λ n. decoded (record l { total = n }))
      else decoded l

  unfoldable pub decode_list : Json → Decoding (CommandListResponse v)
  unfolding decode_object store_list
  decode_list j = decode_object jx "CommandListResponse" required_of_list store_list zero_list j
