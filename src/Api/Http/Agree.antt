-- ===== src/Api/Http/Agree.antt =====
-- The client reads what the server writes.
use burrowcode.Base.{
  ℕ, suc, String, ◌⧺◌, List, map, ◌≡◌, refl, ap, ◌∙◌, Option, none, some, [], ◌∷◌, All,
}
use burrowcode.Golang.Maps.{get_text}
use burrowcode.Json.{Json}
use burrowcode.Os.{Values}
use burrowcode.Api.Types.{
  items_of, CreateCommandRes, GetCommandRes, CommandStatus, CommandListResponse,
}
use burrowcode.Api.Codec.{Jx, JxLaws, IsInt64, Decoding, decoded}
use burrowcode.Api.Codec.Status.{encode_status, decode_status}
use burrowcode.Api.Codec.Status.RoundTrip.{
  IsCodableStatus, normal_status, decode_status-encode_status,
}
use burrowcode.Api.Codec.Replies.{
  encode_error, decode_error_alias, encode_response, decode_response, encode_list, decode_list,
}
use burrowcode.Golang.Numbers.{format_nat}
use burrowcode.Api.Codec.Replies.RoundTrip.{
  normal_list, decode_error_alias-encode_error, decode_response-encode_response,
  decode_list-encode_list,
}
use burrowcode.Api.Validate.{
  Invalid, validate_response, validate_status, validate_list, check_statuses, no_failures, check,
  conclude, no_failures,
}
use burrowcode.Api.Http.{
  json_answer, encode_create_command_response, encode_get_command_response,
  encode_list_commands_response,
}
use burrowcode.Api.Http.Client.{
  itself, received, read_json, no_check, decode_create_command_response,
  decode_get_command_response, decode_list_commands_response,
}

-- a status that is one of those documented
abbrev pub IsSendable : CreateCommandRes → Type 0
IsSendable (CreateCommandRes.created r) = validate_response r ≡ none
IsSendable _ = Unit

module _ {v : Values} where
  -- what the client gets for an outcome of getCommand
  abbrev pub normal_res : GetCommandRes v → GetCommandRes v
  normal_res (GetCommandRes.found s) = GetCommandRes.found (normal_status s)
  normal_res other = other

  abbrev pub IsReadable : (jx : Jx v) → JxLaws v jx → GetCommandRes v → Type 0
  IsReadable jx laws (GetCommandRes.found s) =
      IsCodableStatus jx laws s × (validate_status jx s ≡ none)
  IsReadable jx laws _ = Unit

module _ {v : Values} (jx : Jx v) (laws : JxLaws v jx) (media_type : String → Option String)
    (json_media : media_type "application/json; charset=utf-8" ≡ some "application/json") where
  read_json-json_answer :
      {A B : Type 0} (status : ℕ) (j : Json) (decode : Json → Decoding A)
      (validate : A → Option Invalid) (wrap : A → B) (a : A)
      → decode j ≡ decoded a
      → validate a ≡ none
      → read_json media_type decode validate wrap (json_answer status j) ≡ received (wrap a)
  unfolding read_json get_text
  read_json-json_answer status j decode validate wrap a d c = rw (json_media, d, c, read_json) refl

  -- The client gets the outcome of createCommand that the server sent, where the status in it is
  -- valid.
  pub decode_create_command_response-encode :
      (res : CreateCommandRes)
      → IsSendable res
      → decode_create_command_response jx media_type (encode_create_command_response res)
        ≡ received res
  unfolding decode_create_command_response encode_create_command_response
  decode_create_command_response-encode (CreateCommandRes.created r) h =
      read_json-json_answer 202 (encode_response r) (decode_response jx) validate_response
        CreateCommandRes.created r (decode_response-encode_response jx laws r) h
  decode_create_command_response-encode (CreateCommandRes.bad_request e) h =
      read_json-json_answer 400 (encode_error e) (decode_error_alias jx) no_check
        CreateCommandRes.bad_request e (decode_error_alias-encode_error jx laws e) refl
  decode_create_command_response-encode (CreateCommandRes.internal_server_error e) h =
      read_json-json_answer 500 (encode_error e) (decode_error_alias jx) no_check
        CreateCommandRes.internal_server_error e (decode_error_alias-encode_error jx laws e) refl

  -- The client gets the outcome of getCommand that the server sent, where a status in it can be
  -- spelled and is valid; a nil map of output files in its request comes back as an empty one.
  pub decode_get_command_response-encode :
      (res : GetCommandRes v)
      → IsReadable jx laws res
      → decode_get_command_response jx media_type (encode_get_command_response jx res)
        ≡ received (normal_res res)
  unfolding decode_get_command_response encode_get_command_response validate_status
  decode_get_command_response-encode (GetCommandRes.found s) h =
      read_json-json_answer 200 (encode_status jx s) (decode_status jx) (validate_status jx)
        GetCommandRes.found (normal_status s) (decode_status-encode_status jx laws s h.0) h.1
  decode_get_command_response-encode (GetCommandRes.bad_request e) h =
      read_json-json_answer 400 (encode_error e) (decode_error_alias jx) no_check
        GetCommandRes.bad_request e (decode_error_alias-encode_error jx laws e) refl
  decode_get_command_response-encode (GetCommandRes.not_found e) h =
      read_json-json_answer 404 (encode_error e) (decode_error_alias jx) no_check
        GetCommandRes.not_found e (decode_error_alias-encode_error jx laws e) refl

  check_statuses-normal :
      (i : ℕ) (ss : List (CommandStatus v))
      → check_statuses jx i (map normal_status ss) ≡ check_statuses jx i ss
  unfolding check_statuses validate_status
  check_statuses-normal i [] = refl
  check_statuses-normal i (s ∷ ss) =
      ap (check ("[" ⧺ format_nat i ⧺ "]") (validate_status jx s))
        (check_statuses-normal (suc i) ss)

  -- The client gets the list that the server sent, where each of its statuses can be spelled and is
  -- valid, and the total is of 64 bits; a nil map of output files comes back as an empty one.
  pub decode_list_commands_response-encode :
      (l : CommandListResponse v)
      → All (IsCodableStatus jx laws) (items_of l.commands)
      → IsInt64 l.total
      → check_statuses jx 0 (items_of l.commands) ≡ no_failures
      → decode_list_commands_response jx media_type (encode_list_commands_response jx l)
        ≡ received (normal_list jx laws l)
  unfolding decode_list_commands_response encode_list_commands_response validate_list
  decode_list_commands_response-encode l h n c =
      read_json-json_answer 200 (encode_list jx l) (decode_list jx) (validate_list jx) itself
        (normal_list jx laws l) (decode_list-encode_list jx laws l h n)
        (ap (λ fs. conclude (check "commands" (conclude fs) no_failures))
          (check_statuses-normal 0 (items_of l.commands) ∙ c))
