-- ===== src/Api/Http.antt =====
-- The generated server around the handlers: api/oas/oas_request_decoders_gen.go,
-- oas_response_encoders_gen.go, oas_parameters_gen.go, oas_handlers_gen.go, and what oas_cfg_gen.go
-- answers to a path or a method that there is not. Tracing and metrics are left out, and so
-- is the branch for an error of a handler, of which those of api/main.go return none.
pub mod Effects
pub mod Client
pub mod Agree
pub mod Send
pub mod Remote
use burrowcode.Base.{
  ℕ, String, Bool, true, false, Option, none, some, [], ◌∷◌, ◌==◌, nat_eq, if◌then◌else◌, ◌⊎◌, inl,
  inr,
}
use burrowcode.Golang.Int.{ℤ, pos, negsuc}
use burrowcode.Golang.Errors.{Result, ok, err}
use burrowcode.Golang.Maps.{Map}
use burrowcode.Json.{Json}
use burrowcode.Os.{Values, Machine}
use burrowcode.Os.Act.{Act, pure, ◌>>=◌}
use burrowcode.Api.Types.{
  CommandRequest, CommandResponse, CreateCommandRes, GetCommandRes, CommandListResponse,
}
use burrowcode.Api.Codec.{Jx, Fault, Decoding, decoded, faulty}
use burrowcode.Api.Codec.Request.{decode_request}
use burrowcode.Api.Codec.Status.{encode_status}
use burrowcode.Api.Codec.Replies.{
  encode_error, encode_health, encode_open_api, encode_response, encode_list,
}
use burrowcode.Api.Handlers.{Settings, create_command, health_check}
use burrowcode.Api.Status.{TaskInfo, UrlParser, Listing, get_command, list_commands}
use burrowcode.Api.Router.{Operation, Served, handled, not_allowed, not_found, serve_http}

-- A request's body as the decoder sees it: the media type, where the header gives one, the declared
-- length, and the body, which may fail to be read, be empty, or spell a JSON value or none.
pub data BodyText : Type 0 where
  unread empty malformed : BodyText
  spells : Json → BodyText

pub record Incoming : Type 0 where
  pub media_type : Option String
  pub content_length : ℤ
  pub body : BodyText

-- What the error handler is given.
pub data RequestError : Type 0 where
  bad_media_type body_required body_unread body_malformed : RequestError
  body_faulty : Fault → RequestError
  invalid_content_type : String → RequestError
  param_required param_invalid : RequestError

-- What is written: the status, the headers that are set, and the body.
pub record Answer : Type 0 where
  pub status : ℕ
  pub headers : Map String
  pub body : Option Json

abbrev pub json_type : String
json_type = "application/json; charset=utf-8"

abbrev pub json_answer : ℕ → Json → Answer
json_answer status j = record {
  status = status;
  headers = ("Content-Type", json_type) ∷ [];
  body = some j;
}

-- `n == 0`
abbrev pub is_zero : ℤ → Bool
is_zero (pos n) = nat_eq n 0
is_zero (negsuc n) = false

-- the generated encoders of the responses
unfoldable pub encode_create_command_response : CreateCommandRes → Answer
unfolding encode_response encode_error
encode_create_command_response (CreateCommandRes.created r) = json_answer 202 (encode_response r)
encode_create_command_response (CreateCommandRes.bad_request e) = json_answer 400 (encode_error e)
encode_create_command_response (CreateCommandRes.internal_server_error e) =
    json_answer 500 (encode_error e)

unfoldable pub encode_health_check_response : String → Answer
unfolding encode_health
encode_health_check_response status = json_answer 200 (encode_health status)

unfoldable pub encode_get_open_api_response : Answer
unfolding encode_open_api
encode_get_open_api_response = json_answer 200 encode_open_api

-- `MethodNotAllowed`, by default
unfoldable pub method_not_allowed : String → String → Answer
method_not_allowed method allowed =
    if method == "OPTIONS"
    then record {
      status = 204;
      headers =
          ("Access-Control-Allow-Methods", allowed)
          ∷ ("Access-Control-Allow-Headers", "Content-Type")
          ∷ [];
      body = none;
    }
    else record { status = 405; headers = ("Allow", allowed) ∷ []; body = none }

abbrev pub request_of : Decoding CommandRequest → RequestError ⊎ CommandRequest
request_of (decoded r) = inr r
request_of (faulty e) = inl (body_faulty e)

module _ {v : Values} (jx : Jx v) where
  unfoldable pub encode_get_command_response : GetCommandRes v → Answer
  unfolding encode_status encode_error
  encode_get_command_response (GetCommandRes.found s) = json_answer 200 (encode_status jx s)
  encode_get_command_response (GetCommandRes.bad_request e) = json_answer 400 (encode_error e)
  encode_get_command_response (GetCommandRes.not_found e) = json_answer 404 (encode_error e)

  unfoldable pub encode_list_commands_response : CommandListResponse v → Answer
  unfolding encode_list
  encode_list_commands_response l = json_answer 200 (encode_list jx l)

  abbrev pub read_body : BodyText → RequestError ⊎ CommandRequest
  read_body unread = inl body_unread
  read_body empty = inl body_required
  read_body malformed = inl body_malformed
  read_body (spells j) = request_of (decode_request jx j)

  unfoldable pub decode_create_command_request : Incoming → RequestError ⊎ CommandRequest
  unfolding decode_request
  decode_create_command_request r = elim r.media_type [
    | none ↦ inl bad_media_type
    | some ct ↦
        if ct == "application/json"
        then (if is_zero r.content_length then inl body_required else read_body r.body)
        else inl (invalid_content_type ct)
  ]

-- `path_value` is the path decoder of ogen's package uri, on the segment that the router cut off
unfoldable pub decode_get_command_params : (String → Option String) → String → RequestError ⊎ String
decode_get_command_params path_value segment =
    if segment == ""
    then inl param_required
    else elim (path_value segment) [ none ↦ inl param_invalid | some id ↦ inr id ]

-- What the service reads of the queue, and the libraries that it calls.
pub record Service (v : Values) : Type 0 where
  pub jx : Jx v
  pub settings : Settings
  pub parse_url : UrlParser
  pub get_task_info : String → Result TaskInfo
  pub listing : Listing
  pub path_value : String → Option String
  -- `ogenerrors.DefaultErrorHandler`, and `http.NotFound`
  pub error_handler : RequestError → Answer
  pub path_not_found : Answer

module _ {v : Values} (s : Service v) where
  abbrev pub get_decoded : RequestError ⊎ String → Answer
  get_decoded (inl e) = s.error_handler e
  get_decoded (inr id) =
      encode_get_command_response s.jx (get_command v s.parse_url s.get_task_info id)

  unfoldable pub handle_get_command_request : String → Answer
  unfolding decode_get_command_params encode_get_command_response get_command
  handle_get_command_request segment = get_decoded (decode_get_command_params s.path_value segment)

  unfoldable pub handle_list_commands_request : Answer
  unfolding encode_list_commands_response list_commands
  handle_list_commands_request =
      encode_list_commands_response s.jx (list_commands v s.parse_url s.listing)

module _ {m : Machine} {v : Values} (s : Service v) where
  abbrev pub create_decoded : RequestError ⊎ CommandRequest → Act m Answer
  create_decoded (inl e) = pure (s.error_handler e)
  create_decoded (inr req) =
      create_command s.settings req >>= λ res. pure (encode_create_command_response res)

  unfoldable pub handle_create_command_request : Incoming → Act m Answer
  unfolding decode_create_command_request encode_create_command_response pure ◌>>=◌ create_command
  handle_create_command_request r = create_decoded (decode_create_command_request s.jx r)

  -- the operation's handler
  unfoldable pub perform_operation : Operation → Incoming → Act m Answer
  unfolding handle_create_command_request handle_get_command_request handle_list_commands_request
      encode_health_check_response encode_get_open_api_response health_check
  perform_operation Operation.health_check r = pure (encode_health_check_response health_check)
  perform_operation Operation.get_open_api r = pure encode_get_open_api_response
  perform_operation Operation.list_commands r = pure (handle_list_commands_request s)
  perform_operation Operation.create_command r = handle_create_command_request r
  perform_operation (Operation.get_command id) r = pure (handle_get_command_request s id)

  abbrev pub answer_served : String → Incoming → Served → Act m Answer
  answer_served method r (handled op) = perform_operation op r
  answer_served method r (not_allowed allowed) = pure (method_not_allowed method allowed)
  answer_served method r not_found = pure s.path_not_found

  -- ServeHTTP with the handlers that it calls
  unfoldable pub serve : String → String → Incoming → Act m Answer
  unfolding perform_operation method_not_allowed serve_http
  serve method path r = answer_served method r (serve_http method path)
