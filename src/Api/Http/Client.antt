-- ===== src/Api/Http/Client.antt =====
-- api/oas/oas_response_decoders_gen.go: how the generated client reads an answer.
use burrowcode.Base.{ℕ, String, Option, none, some, ◌==◌, nat_eq, if◌then◌else◌}
use burrowcode.Golang.Maps.{get_text}
use burrowcode.Json.{Json}
use burrowcode.Os.{Values}
use burrowcode.Api.Types.{CreateCommandRes, GetCommandRes, CommandListResponse}
use burrowcode.Api.Codec.{Jx, Fault, Decoding, decoded, faulty}
use burrowcode.Api.Codec.Status.{decode_status}
use burrowcode.Api.Codec.Replies.{
  decode_error_alias, decode_health, decode_open_api, decode_response, decode_list,
}
use burrowcode.Api.Validate.{Invalid, validate_response, validate_status, validate_list}
use burrowcode.Api.Http.{Answer}

pub data ClientError : Type 0 where
  unexpected_status : ℕ → ClientError
  bad_media_type : ClientError
  invalid_content_type : String → ClientError
  body_malformed : ClientError
  body_faulty : Fault → ClientError
  not_valid : Invalid → ClientError

pub data Received (A : Type 0) : Type 0 where
  received : A → Received A
  refused : ClientError → Received A

-- the check of the decoded value
abbrev pub unless_invalid : {A : Type 0} → Option Invalid → A → Received A
unless_invalid none a = received a
unless_invalid (some e) a = refused (not_valid e)

module _ {A B : Type 0} where
  abbrev read_decoded : (A → Option Invalid) → (A → B) → Decoding A → Received B
  read_decoded validate wrap (decoded a) = unless_invalid (validate a) (wrap a)
  read_decoded validate wrap (faulty e) = refused (body_faulty e)

  abbrev read_value :
      (Json → Decoding A) → (A → Option Invalid) → (A → B) → Option Json → Received B
  read_value decode validate wrap none = refused body_malformed
  read_value decode validate wrap (some j) = read_decoded validate wrap (decode j)

  -- One `case` of a status: the media type, the decoding of the body into an `A`, its check, and the
  -- value of the response's type. `media_type` is mime.ParseMediaType.
  unfoldable pub read_json :
      (String → Option String)
      → (Json → Decoding A)
      → (A → Option Invalid)
      → (A → B)
      → Answer
      → Received B
  unfolding get_text
  read_json media_type decode validate wrap a =
      elim (media_type (get_text "Content-Type" a.headers)) [
        | none ↦ refused bad_media_type
        | some ct ↦
            if ct == "application/json"
            then read_value decode validate wrap a.body
            else refused (invalid_content_type ct)
      ]

-- a schema without checks
abbrev pub no_check : {A : Type 0} → A → Option Invalid
no_check a = none

abbrev pub itself : {A : Type 0} → A → A
itself a = a

module _ {v : Values} (jx : Jx v) (media_type : String → Option String) where
  unfoldable pub decode_create_command_response : Answer → Received CreateCommandRes
  unfolding read_json decode_response validate_response decode_error_alias
  decode_create_command_response a =
      if nat_eq a.status 202
      then read_json media_type (decode_response jx) validate_response CreateCommandRes.created a
      else if nat_eq a.status 400
      then read_json media_type (decode_error_alias jx) no_check CreateCommandRes.bad_request a
      else if nat_eq a.status 500
      then read_json media_type (decode_error_alias jx) no_check
          CreateCommandRes.internal_server_error a
      else refused (unexpected_status a.status)

  unfoldable pub decode_get_command_response : Answer → Received (GetCommandRes v)
  unfolding read_json decode_status validate_status decode_error_alias
  decode_get_command_response a =
      if nat_eq a.status 200
      then read_json media_type (decode_status jx) (validate_status jx) GetCommandRes.found a
      else if nat_eq a.status 400
      then read_json media_type (decode_error_alias jx) no_check GetCommandRes.bad_request a
      else if nat_eq a.status 404
      then read_json media_type (decode_error_alias jx) no_check GetCommandRes.not_found a
      else refused (unexpected_status a.status)

  unfoldable pub decode_get_open_api_response : Answer → Received (Unit {0})
  unfolding read_json decode_open_api
  decode_get_open_api_response a =
      if nat_eq a.status 200
      then read_json media_type (decode_open_api jx) no_check itself a
      else refused (unexpected_status a.status)

  unfoldable pub decode_health_check_response : Answer → Received String
  unfolding read_json decode_health
  decode_health_check_response a =
      if nat_eq a.status 200
      then read_json media_type (decode_health jx) no_check itself a
      else refused (unexpected_status a.status)

  unfoldable pub decode_list_commands_response : Answer → Received (CommandListResponse v)
  unfolding read_json decode_list validate_list
  decode_list_commands_response a =
      if nat_eq a.status 200
      then read_json media_type (decode_list jx) (validate_list jx) itself a
      else refused (unexpected_status a.status)
