-- ===== src/Api/Http/Effects.antt =====
-- What a request to the API does to the queue, and what a good one is answered.
use burrowcode.Base.{
  String, ◌≡◌, ◌⊎◌, inl, inr, refl, ap, ◌∙◌, true, Bool, Bool-cases, [], ◌∷◌, ◌++◌, arith,
  if◌then◌else◌,
}
use burrowcode.Golang.Errors.{ok}
use burrowcode.Os.{Values, Machine, enqueue}
use burrowcode.Os.Act.{State, Act, continue, perform, pure, ◌>>=◌}
use burrowcode.Os.Outcome.{bind-cases}
use burrowcode.Api.Types.{CommandRequest, CommandResponse, CreateCommandRes, pending}
use burrowcode.Api.Codec.Replies.{encode_response}
use burrowcode.Api.Handlers.{Settings, command_task, create_command}
use burrowcode.Api.Laws.{is_complete, create_command-calls}
use burrowcode.Api.Router.{Operation, Served, handled, not_allowed, not_found, serve_http}
use burrowcode.Api.Http.{
  Incoming, RequestError, json_answer, Service, decode_create_command_request,
  encode_create_command_response, handle_create_command_request, serve, create_decoded,
  answer_served,
}

-- One more task is on the queue, with the request that the body spells.
pub record IsEnqueued {m : Machine} {v : Values} (s : Service v) (r : Incoming) (st st' : State m)
    : Type 0 where
  pub request : CommandRequest
  pub spelled : decode_create_command_request s.jx r ≡ inr request
  pub complete : is_complete request ≡ true
  pub calls : st'.calls ≡ st.calls ++ enqueue (command_task s.settings request) ∷ []

module _ {m : Machine} where
  pub state-answered :
      {A B : Type 0} (act : Act m A) (g : A → B) (st : State m)
      → ((act >>= λ a. pure (g a)) st).1 ≡ (act st).1
  unfolding pure
  state-answered act g st = elim (bind-cases act (λ a. pure (g a)) st) [
    | inl e ↦ e
    | inr (a, e) ↦ e
  ]

  answer-ok :
      {A B : Type 0} (act : Act m A) (g : A → B) (st : State m) (a : A)
      → (act st).0 ≡ ok a
      → ((act >>= λ x. pure (g x)) st).0 ≡ ok (g a)
  unfolding pure ◌>>=◌
  answer-ok act g st a h = ap (λ x. (continue x (λ y. pure (g y)) (act st).1).0) h

  create_command-created :
      (cfg : Settings) (req : CommandRequest) (st : State m) (id : String)
      → is_complete req ≡ true
      → (perform (enqueue (command_task cfg req)) st).0 ≡ ok id
      → (create_command cfg req st).0
        ≡ ok (
            CreateCommandRes.created
              (record { command_id = id; status = pending; reference_id = req.reference_id }))
  unfolding create_command pure
  create_command-created cfg req st id e q = ground arith

module _ {m : Machine} {v : Values} (s : Service v) (r : Incoming) where
  create_command-once :
      (req : CommandRequest) (st : State m)
      → decode_create_command_request s.jx r ≡ inr req
      → ((create_command s.settings req st).1.calls ≡ st.calls)
        ⊎ IsEnqueued s r st (create_command s.settings req st).1
  create_command-once req st d =
      let more = st.calls ++ enqueue (command_task s.settings req) ∷ [] in
      let either = λ (b : Bool). if b then more else st.calls in
      elim (Bool-cases (is_complete req)) [
        | inl e ↦ inr (record {
          request = req;
          spelled = d;
          complete = e;
          calls = create_command-calls s.settings req st ∙ ap either e;
        })
        | inr e ↦ inl (create_command-calls s.settings req st ∙ ap either e)
      ]

  handle_create-once :
      (d : RequestError ⊎ CommandRequest) (st : State m)
      → decode_create_command_request s.jx r ≡ d
      → ((create_decoded s d st).1.calls ≡ st.calls) ⊎ IsEnqueued s r st (create_decoded s d st).1
  unfolding pure
  handle_create-once (inl e) st d = inl refl
  handle_create-once (inr req) st d =
      rw (state-answered (create_command {m = m} s.settings req) encode_create_command_response st)
        (create_command-once req st d)

  -- Whatever the method, the path and the body, the API either makes no call or enqueues one task,
  -- and then the request is one to create a command, and the task carries what its body spells.
  pub serve-calls :
      (method path : String) (st : State m)
      → ((serve s method path r st).1.calls ≡ st.calls)
        ⊎ ((serve_http method path ≡ handled Operation.create_command)
            × IsEnqueued s r st (serve s method path r st).1)
  unfolding serve handle_create_command_request
  serve-calls method path st = go (serve_http method path)
    where
      go :
          (served : Served)
          → ((answer_served s method r served st).1.calls ≡ st.calls)
            ⊎ ((served ≡ handled Operation.create_command)
                × IsEnqueued s r st (answer_served s method r served st).1)
      go (handled Operation.health_check) = inl refl
      go (handled Operation.get_open_api) = inl refl
      go (handled Operation.list_commands) = inl refl
      go (handled Operation.create_command) =
          elim (handle_create-once (decode_create_command_request s.jx r) st refl) [
            | inl e ↦ inl e
            | inr e ↦ inr (refl, e)
          ]
      go (handled (Operation.get_command id)) = inl refl
      go (not_allowed allowed) = inl refl
      go not_found = inl refl

  -- A body that spells a request with a command and an output file, posted to /v1/commands, is
  -- answered with status 202 and the identifier that the queue gives the task, where it takes it.
  pub serve-created :
      (req : CommandRequest) (st : State m) (id : String)
      → decode_create_command_request s.jx r ≡ inr req
      → is_complete req ≡ true
      → (perform (enqueue (command_task s.settings req)) st).0 ≡ ok id
      → (serve s "POST" "/v1/commands" r st).0
        ≡ ok (
            json_answer 202 (
              encode_response
                (record { command_id = id; status = pending; reference_id = req.reference_id })))
  unfolding serve serve_http handle_create_command_request encode_create_command_response
  serve-created req st id d e q =
      let reply : CommandResponse = record {
        command_id = id;
        status = pending;
        reference_id = req.reference_id;
      } in
      ap (λ x. (create_decoded {m = m} s x st).0) d
      ∙ answer-ok (create_command {m = m} s.settings req) encode_create_command_response st
          (CreateCommandRes.created reply) (create_command-created s.settings req st id e q)

  -- Such a request puts its task on the queue.
  pub serve-enqueues :
      (req : CommandRequest) (st : State m)
      → decode_create_command_request s.jx r ≡ inr req
      → is_complete req ≡ true
      → (serve s "POST" "/v1/commands" r st).1.calls
        ≡ st.calls ++ enqueue (command_task s.settings req) ∷ []
  unfolding serve serve_http handle_create_command_request
  serve-enqueues req st d e =
      let more = st.calls ++ enqueue (command_task s.settings req) ∷ [] in
      let create = create_command {m = m} s.settings req in
      ap (λ x. (create_decoded {m = m} s x st).1.calls) d
      ∙ ap (λ (w : State m). w.calls) (state-answered create encode_create_command_response st)
      ∙ create_command-calls s.settings req st
      ∙ ap (λ (b : Bool). if b then more else st.calls) e
