-- ===== src/Api/Http/Remote/Reads.antt =====
-- What the generated client reads from the generated server is what the handlers report.
use burrowcode.Base.{String, ◌⧺◌, ◌≡◌, refl, ap, ◌∙◌, false, some, List, [], ◌∷◌, ◌==◌, All}
use burrowcode.Golang.Errors.{ok}
use burrowcode.Os.{Values, Machine}
use burrowcode.Os.Act.{State, pure}
use burrowcode.Api.Codec.{JxLaws, IsInt64}
use burrowcode.Api.Codec.Status.RoundTrip.{IsCodableStatus}
use burrowcode.Api.Codec.Replies.RoundTrip.{normal_list}
use burrowcode.Api.Validate.{check_statuses, no_failures}
use burrowcode.Api.Router.{serve_http}
use burrowcode.Api.Router.Agree.{serve_http-command}
use burrowcode.Api.Types.{items_of}
use burrowcode.Api.Status.{get_command, list_commands}
use burrowcode.Api.Http.{
  Service, serve, answer_served, decode_get_command_params, handle_get_command_request,
  handle_list_commands_request, encode_get_command_response, encode_list_commands_response,
}
use burrowcode.Api.Http.Client.{decode_get_command_response, decode_list_commands_response}
use burrowcode.Api.Http.Agree.{
  normal_res, IsReadable, decode_get_command_response-encode, decode_list_commands_response-encode,
}
use burrowcode.Api.Http.Send.{
  Remote, replied, of_received, without_body, send_get_command, send_list_commands,
}
use burrowcode.Api.Http.Remote.{IsConnected, send-served, arrived}

module _ {m : Machine} {v : Values} (s : Service v) (laws : JxLaws v s.jx) (r : Remote m)
    (c : IsConnected s r) where
  -- A client that asks the server for a command gets what the handler reports on it, and nothing
  -- else is done, where the identifier is encoded as a text that is not empty and that the server
  -- decodes to it, and the report is valid and can be spelled; a nil map of output files in the
  -- report's request arrives as an empty one.
  pub send_get_command-get_command :
      (id encoded : String) (st : State m)
      → r.path_encoder id ≡ some encoded
      → s.path_value encoded ≡ some id
      → (encoded == "") ≡ false
      → IsReadable s.jx laws (get_command v s.parse_url s.get_task_info id)
      → send_get_command r s.jx id st
        ≡ (replied (normal_res (get_command v s.parse_url s.get_task_info id)), st)
  unfolding send_get_command serve handle_get_command_request decode_get_command_params pure
  send_get_command-get_command id encoded st e d n h =
      let decode = decode_get_command_response s.jx r.media_type in
      let parts : List String = "/v1/commands/" ∷ encoded ∷ [] in
      let sent = without_body "GET" (r.add_path_parts parts) in
      let res = get_command v s.parse_url s.get_task_info id in
      rw (e, send_get_command)
        (send-served s laws r c decode sent parts ("/v1/commands/" ⧺ encoded) st
            (ok (encode_get_command_response s.jx res), st) refl refl
            (ap (λ x. answer_served s "GET" (arrived s laws r c sent) x st)
                (serve_http-command "GET" encoded)
              ∙ rw (n, d) refl)
          ∙ ap (λ x. (of_received x, st))
              (decode_get_command_response-encode s.jx laws r.media_type c.json_answer res h))

  -- A client that asks the server for the commands gets the handler's list, and nothing else is
  -- done, where the statuses in it are valid and can be spelled and its total is of 64 bits; a nil
  -- list arrives as an empty one, and so does a nil map of output files in a request.
  pub send_list_commands-list_commands :
      (st : State m)
      → All (IsCodableStatus s.jx laws) (items_of (list_commands v s.parse_url s.listing).commands)
      → IsInt64 (list_commands v s.parse_url s.listing).total
      → check_statuses s.jx 0 (items_of (list_commands v s.parse_url s.listing).commands)
        ≡ no_failures
      → send_list_commands r s.jx st
        ≡ (replied (normal_list s.jx laws (list_commands v s.parse_url s.listing)), st)
  unfolding send_list_commands serve handle_list_commands_request serve_http pure
  send_list_commands-list_commands st h n ok_list =
      let decode = decode_list_commands_response s.jx r.media_type in
      let parts : List String = "/v1/commands" ∷ [] in
      let sent = without_body "GET" (r.add_path_parts parts) in
      let l = list_commands v s.parse_url s.listing in
      send-served s laws r c decode sent parts "/v1/commands" st
        (ok (encode_list_commands_response s.jx l), st) refl refl refl
      ∙ ap (λ x. (of_received x, st))
          (decode_list_commands_response-encode s.jx laws r.media_type c.json_answer l h n ok_list)
