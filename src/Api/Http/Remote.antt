-- ===== src/Api/Http/Remote.antt =====
-- A command of the generated client, sent to the generated server, is the handler's own.
pub mod Reads
use burrowcode.Base.{
  String, ◌⧺◌, ◌≡◌, ◌≢◌, refl, sym, ap, ◌∙◌, true, false, Bool, Option, none, some, List, [], ◌∷◌,
  ℕ, nat_eq, ◌==◌, inr, not, ◌&&◌, if_both, if◌then◌else◌,
}
use burrowcode.Golang.Int.{pos}
use burrowcode.Golang.Errors.{Result, ok, err}
use burrowcode.Json.{Json}
use burrowcode.Os.{Values, Machine, Call, enqueue}
use burrowcode.Os.Act.{State, Act, continue, perform, pure, ◌>>=◌}
use burrowcode.Api.Types.{
  CommandRequest, CommandResponse, CreateCommandRes, GetCommandRes, CommandListResponse,
}
use burrowcode.Api.Codec.{Jx, JxLaws, IsInt64, Decoding, decoded, faulty}
use burrowcode.Api.Codec.Request.{decode_request, encode_request}
use burrowcode.Api.Codec.Request.RoundTrip.{
  IsCodable, with_output_files, decode_request-encode_request,
}
use burrowcode.Api.Validate.{validate_response, validate_status_text}
use burrowcode.Api.Handlers.{
  Settings, is_set, is_empty, entries, texts_or_empty, answer_of, create_command, command_task,
}
use burrowcode.Api.Router.{serve_http}
use burrowcode.Api.Status.{get_command}
use burrowcode.Api.Http.{
  handle_create_command_request, Incoming, Answer, BodyText, spells, empty, Service, RequestError,
  request_of, decode_create_command_request, serve, create_decoded, encode_get_command_response,
  handle_get_command_request, get_decoded, decode_get_command_params,
  encode_create_command_response, json_type,
}
use burrowcode.Api.Http.Client.{
  Received, received, decode_get_command_response, decode_create_command_response,
}
use burrowcode.Api.Http.Send.{
  Sent, Remote, Reply, replied, unsent, request_not_sent, read_answer, without_body, send,
  send_create_command, send_get_command, encode_create_command_request,
}
use burrowcode.Api.Http.Agree.{
  IsSendable, IsReadable, normal_res, decode_get_command_response-encode,
  decode_create_command_response-encode,
}

abbrev pub concat_parts : List String → String
concat_parts [] = ""
concat_parts (p ∷ []) = p
concat_parts (p ∷ q ∷ ps) = p ⧺ concat_parts (q ∷ ps)

abbrev pub body_text : Option Json → BodyText
body_text none = empty
body_text (some j) = spells j

-- The client's requests reach the server: its library creates every request, the path of the URL
-- that it builds is the parts, one behind the other, and the HTTP client gives the server's answer.
pub record IsConnected {m : Machine} {v : Values} (s : Service v) (r : Remote m) : Type 0 where
  pub path : String → String
  -- the length of the text of a body
  pub size : Option Json → ℕ
  pub path-add_path_parts :
      (parts : List String) → path (r.add_path_parts parts) ≡ concat_parts parts
  pub created : (method url : String) → r.new_request method url ≡ none
  pub sized : (j : Json) → nat_eq (size (some j)) 0 ≡ false
  pub json_request : r.media_type "application/json" ≡ some "application/json"
  pub json_answer : r.media_type "application/json; charset=utf-8" ≡ some "application/json"
  pub carried :
      (sent : Sent) (st : State m)
      → r.do_request sent st
        ≡ serve s sent.method
            (path sent.url)
            (record {
              media_type = r.media_type sent.content_type;
              content_length = pos (size sent.body);
              body = body_text sent.body;
            })
            st

-- What creating a command ends with: a status that the schema lists.
record IsAnswered (r : Result CreateCommandRes) : Type 0 where
  outcome : CreateCommandRes
  answered : r ≡ ok outcome
  sendable : IsSendable outcome

answer_of-IsAnswered :
    (req : CommandRequest) (r : Result String) → IsAnswered (ok (answer_of req r))
unfolding validate_response validate_status_text
answer_of-IsAnswered req (ok id) = record {
  outcome = answer_of req (ok id);
  answered = refl;
  sendable = refl;
}
answer_of-IsAnswered req (err e) = record {
  outcome = answer_of req (err e);
  answered = refl;
  sendable = tt;
}

module _ {m : Machine} where
  create_command-IsAnswered :
      (cfg : Settings) (req : CommandRequest) (st : State m)
      → IsAnswered (create_command cfg req st).0
  unfolding create_command pure
  create_command-IsAnswered cfg req st =
      let Answered = λ (x : Result CreateCommandRes × State m). IsAnswered x.0 in
      let no_command = CreateCommandRes.bad_request "ffmpeg_command or ffmpeg_commands required" in
      let no_output = CreateCommandRes.bad_request "output_files required" in
      let (id, st') = perform (enqueue (command_task cfg req)) st in
      let no_outputs = is_empty (entries req.output_files) in
      if_both Answered
        (not (is_set req.ffmpeg_command) && is_empty (texts_or_empty req.ffmpeg_commands))
        (ok no_command, st)
        (if no_outputs then (ok no_output, st) else (ok (answer_of req id), st'))
        (record { outcome = no_command; answered = refl; sendable = tt })
        (if_both Answered no_outputs (ok no_output, st) (ok (answer_of req id), st')
          (record { outcome = no_output; answered = refl; sendable = tt })
          (answer_of-IsAnswered req id))

-- a result of a handler, as a reply
abbrev pub reply_of : {A : Type 0} → Result A → Reply A
reply_of (ok a) = replied a
reply_of (err e) = unsent (request_not_sent e)

module _ {m : Machine} where
  -- what a run of a handler is to a caller that has its result
  abbrev pub local_reply : {A : Type 0} → Result A × State m → Reply A × State m
  local_reply (r, st) = (reply_of r, st)

  -- what a run of the server is to the client
  abbrev pub remote_reply :
      {A : Type 0} → (Answer → Received A) → Result Answer × State m → Reply A × State m
  remote_reply decode (r, st) = (read_answer decode r, st)

module _ {m : Machine} {v : Values} (s : Service v) (laws : JxLaws v s.jx) (r : Remote m)
    (c : IsConnected s r) where
  send-carried :
      {A : Type 0} (decode : Answer → Received A) (sent : Sent) (st : State m)
      (x : Result Answer × State m)
      → r.do_request sent st ≡ x
      → send r decode sent st ≡ remote_reply decode x
  unfolding send
  send-carried decode sent st x h = rw (c.created sent.method sent.url, h, send) refl

  abbrev answer_created : CreateCommandRes → Act m Answer
  answer_created res = pure (encode_create_command_response res)

  read_created :
      (x : Result CreateCommandRes) (st : State m)
      → IsAnswered x
      → remote_reply
          (decode_create_command_response s.jx r.media_type)
          (continue x answer_created st)
        ≡ local_reply (x, st)
  unfolding pure
  read_created x st h =
      rw
        (
          h.answered,
          decode_create_command_response-encode s.jx laws r.media_type c.json_answer h.outcome
              h.sendable,
        )
        refl

  -- a request as it arrives
  abbrev pub arrived : Sent → Incoming
  arrived sent = record {
    media_type = r.media_type sent.content_type;
    content_length = pos (c.size sent.body);
    body = body_text sent.body;
  }

  pub send-served :
      {A : Type 0} (decode : Answer → Received A) (sent : Sent) (parts : List String)
      (path : String) (st : State m) (x : Result Answer × State m)
      → sent.url ≡ r.add_path_parts parts
      → concat_parts parts ≡ path
      → serve s sent.method path (arrived sent) st ≡ x
      → send r decode sent st ≡ remote_reply decode x
  send-served decode sent parts path st x u p h = send-carried decode sent st x (
      c.carried sent st
      ∙ ap (λ p. serve s sent.method p (arrived sent) st)
          (ap c.path u ∙ c.path-add_path_parts parts ∙ p)
      ∙ h)

  decode_create_command_request-sent :
      (req : CommandRequest) (url : String)
      → IsCodable s.jx laws req
      → decode_create_command_request s.jx (arrived (encode_create_command_request s.jx req url))
        ≡ inr (with_output_files req)
  unfolding decode_create_command_request encode_create_command_request
  decode_create_command_request-sent req url h =
      rw (c.json_request, c.sized (encode_request s.jx req))
        (ap request_of (decode_request-encode_request s.jx laws req h))

  -- A client that sends a command to the server gets what the handler answers, and the queue gets
  -- what the handler puts there, where no key of the request's maps occurs twice and its webhook is
  -- a URL that its text gives back: a nil map of output files arrives as an empty one.
  pub send_create_command-create_command :
      (req : CommandRequest) (st : State m)
      → IsCodable s.jx laws req
      → send_create_command r s.jx req st
        ≡ local_reply (create_command s.settings (with_output_files req) st)
  unfolding send_create_command serve serve_http handle_create_command_request
      encode_create_command_request ◌>>=◌ pure
  send_create_command-create_command req st h =
      let url = r.add_path_parts ("/v1/commands" ∷ []) in
      let sent = encode_create_command_request s.jx req url in
      let made = create_command s.settings (with_output_files req) st in
      send-served (decode_create_command_response s.jx r.media_type) sent ("/v1/commands" ∷ [])
        "/v1/commands" st (continue made.0 answer_created made.1) refl refl
        (ap (λ d. create_decoded s d st) (decode_create_command_request-sent req url h))
      ∙ read_created made.0 made.1 (create_command-IsAnswered s.settings (with_output_files req) st)
