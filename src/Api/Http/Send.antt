-- ===== src/Api/Http/Send.antt =====
-- api/oas/oas_client_gen.go and oas_request_encoders_gen.go: how the generated client sends a
-- request. Tracing and metrics are left out; each operation of the client returns what its `send…`
-- does.
use burrowcode.Base.{String, Option, none, some, List, [], ◌∷◌}
use burrowcode.Golang.Errors.{Result, ok, err}
use burrowcode.Json.{Json}
use burrowcode.Os.{Values, Machine}
use burrowcode.Os.Act.{State, Act}
use burrowcode.Api.Types.{CommandRequest, CreateCommandRes, GetCommandRes, CommandListResponse}
use burrowcode.Api.Codec.{Jx}
use burrowcode.Api.Codec.Request.{encode_request}
use burrowcode.Api.Http.{Answer}
use burrowcode.Api.Http.Client.{
  ClientError, Received, received, refused, decode_create_command_response,
  decode_get_command_response, decode_get_open_api_response, decode_health_check_response,
  decode_list_commands_response,
}

-- A request of the client: the body goes with its content type.
pub record Sent : Type 0 where
  pub method : String
  pub url : String
  pub content_type : String
  pub body : Option Json

-- What the client calls: ogen's path encoder for a parameter of the simple style, `uri.AddPathParts`
-- on a copy of the server's URL, the error of `ht.NewRequest` if it has one, mime.ParseMediaType,
-- and the HTTP client.
pub record Remote (m : Machine) : Type 0 where
  pub path_encoder : String → Option String
  pub add_path_parts : List String → String
  pub new_request : String → String → Option String
  pub media_type : String → Option String
  pub do_request : Sent → Act m Answer

pub data SendError : Type 0 where
  path_not_encoded : SendError
  request_not_created request_not_sent : String → SendError
  answer_not_decoded : ClientError → SendError

pub data Reply (A : Type 0) : Type 0 where
  replied : A → Reply A
  unsent : SendError → Reply A

module _ {A : Type 0} where
  abbrev pub of_received : Received A → Reply A
  of_received (received a) = replied a
  of_received (refused e) = unsent (answer_not_decoded e)

  abbrev pub read_answer : (Answer → Received A) → Result Answer → Reply A
  read_answer decode (ok a) = of_received (decode a)
  read_answer decode (err e) = unsent (request_not_sent e)

abbrev pub without_body : String → String → Sent
without_body method url = record { method = method; url = url; content_type = ""; body = none }

-- encodeCreateCommandRequest
unfoldable pub encode_create_command_request : {v : Values} → Jx v → CommandRequest → String → Sent
unfolding encode_request
encode_create_command_request jx req url = record {
  method = "POST";
  url = url;
  content_type = "application/json";
  body = some (encode_request jx req);
}

module _ {m : Machine} (r : Remote m) where
  -- from the request on: it is sent where it is created, and its answer is read
  unfoldable pub send : {A : Type 0} → (Answer → Received A) → Sent → State m → Reply A × State m
  send decode sent st = elim (r.new_request sent.method sent.url) [
    | some e ↦ (unsent (request_not_created e), st)
    | none ↦ (let (answer, st') = r.do_request sent st in (read_answer decode answer, st'))
  ]

  module _ {v : Values} (jx : Jx v) where
    unfoldable pub send_create_command : CommandRequest → State m → Reply CreateCommandRes × State m
    unfolding send encode_create_command_request decode_create_command_response
    send_create_command req =
        send (decode_create_command_response jx r.media_type)
          (encode_create_command_request jx req (r.add_path_parts ("/v1/commands" ∷ [])))

    -- the command's identifier as the path's last part
    unfoldable pub send_get_command : String → State m → Reply (GetCommandRes v) × State m
    unfolding send decode_get_command_response
    send_get_command id st = elim (r.path_encoder id) [
      | none ↦ (unsent path_not_encoded, st)
      | some encoded ↦
          send (decode_get_command_response jx r.media_type)
            (without_body "GET" (r.add_path_parts ("/v1/commands/" ∷ encoded ∷ []))) st
    ]

    unfoldable pub send_get_open_api : State m → Reply (Unit {0}) × State m
    unfolding send decode_get_open_api_response
    send_get_open_api =
        send (decode_get_open_api_response jx r.media_type)
          (without_body "GET" (r.add_path_parts ("/openapi.json" ∷ [])))

    unfoldable pub send_health_check : State m → Reply String × State m
    unfolding send decode_health_check_response
    send_health_check =
        send (decode_health_check_response jx r.media_type)
          (without_body "GET" (r.add_path_parts ("/health" ∷ [])))

    unfoldable pub send_list_commands : State m → Reply (CommandListResponse v) × State m
    unfolding send decode_list_commands_response
    send_list_commands =
        send (decode_list_commands_response jx r.media_type)
          (without_body "GET" (r.add_path_parts ("/v1/commands" ∷ [])))
