-- ===== src/Api/Front/Effects.antt =====
-- What a request to the API does, whatever stands before the generated server.
use burrowcode.Base.{
  String, ◌≡◌, ◌⊎◌, inl, inr, refl, ap, ◌∙◌, true, ◌||◌, [], ◌∷◌, ◌++◌, ◌==◌, if_both,
}
use burrowcode.Os.{Values, Machine, Call, enqueue, read_file}
use burrowcode.Os.Act.{State, Act, perform, pure, attempt, ◌>>=◌}
use burrowcode.Os.Emits.{Added, Added-refl, Added-perform, Emits-attempt}
use burrowcode.Api.Types.{CommandRequest}
use burrowcode.Api.Handlers.{command_task}
use burrowcode.Api.Laws.{is_complete}
use burrowcode.Api.Http.{Incoming, decode_create_command_request, serve}
use burrowcode.Api.Http.Effects.{serve-enqueues, state-answered}
use burrowcode.Api.Front.{
  Page, page_of, Front, preflight, with_cors, clean_path, spec_of, serve_open_api_spec,
  cors_middleware, route, serve_mux, serve_front,
}

-- the reading of the OpenAPI file
abbrev pub IsSpecRead : Call → Type 0
IsSpecRead (read_file path) = path ≡ "openapi.yaml"
IsSpecRead _ = ⊥

-- A run that at most reads the OpenAPI file, or does what the generated server does.
pub record IsFronted {m : Machine} {v : Values} {A : Type 0} (f : Front v) (method path : String)
    (r : Incoming) (st : State m) (act : Act m A) : Type 0 where
  pub either : Added IsSpecRead st (act st).1 ⊎ ((act st).1 ≡ (serve f.service method path r st).1)

module _ {m : Machine} {v : Values} (f : Front v) (method path : String) (r : Incoming)
    (st : State m) where
  IsFronted-pure : {A : Type 0} (a : A) → IsFronted f method path r st (pure a)
  unfolding pure
  IsFronted-pure a = record { either = inl (Added-refl st) }

  IsFronted-then :
      {A B : Type 0} (act : Act m A) (g : A → B)
      → IsFronted f method path r st act
      → IsFronted f method path r st (act >>= λ a. pure (g a))
  IsFronted-then act g h = record { either = rw (state-answered act g st) h.either }

  serve_open_api_spec-IsFronted : IsFronted f method path r st (serve_open_api_spec f.yaml_to_json)
  unfolding serve_open_api_spec
  serve_open_api_spec-IsFronted =
      IsFronted-then (attempt (perform (read_file "openapi.yaml"))) (spec_of f.yaml_to_json)
        (record {
          either = inl (
              (Emits-attempt _
                  (record { at = λ s. Added-perform (read_file "openapi.yaml") s refl })).at
                st);
        })

  route-IsFronted : IsFronted f method path r st (route f method path r)
  unfolding route
  route-IsFronted =
      if_both (λ (act : Act m Page). IsFronted f method path r st act) (path == "/openapi.json")
        (serve_open_api_spec f.yaml_to_json)
        (serve f.service method path r >>= λ a. pure (page_of a)) serve_open_api_spec-IsFronted
        (IsFronted-then (serve f.service method path r) page_of (record { either = inr refl }))

  serve_mux-IsFronted : IsFronted f method path r st (serve_mux f method path r)
  unfolding serve_mux
  serve_mux-IsFronted =
      if_both (λ (act : Act m Page). IsFronted f method path r st act)
        (method == "CONNECT" || clean_path path == path) (route f method path r)
        (pure (f.moved (clean_path path))) route-IsFronted
        (IsFronted-pure (f.moved (clean_path path)))

  -- A request to the API does at most what the generated server does with it, or it reads the
  -- OpenAPI file.
  pub serve_front-IsFronted : IsFronted f method path r st (serve_front f method path r)
  unfolding serve_front cors_middleware
  serve_front-IsFronted =
      if_both (λ (act : Act m Page). IsFronted f method path r st act) (method == "OPTIONS")
        (pure preflight) (serve_mux f method path r >>= λ p. pure (with_cors p))
        (IsFronted-pure preflight)
        (IsFronted-then (serve_mux f method path r) with_cors serve_mux-IsFronted)

module _ {m : Machine} {v : Values} (f : Front v) (r : Incoming) where
  post-state :
      (st : State m)
      → (serve_front f "POST" "/v1/commands" r st).1
        ≡ (serve f.service "POST" "/v1/commands" r st).1
  unfolding serve_front cors_middleware serve_mux route clean_path
  post-state st =
      let answered = serve {m = m} f.service "POST" "/v1/commands" r >>= λ a. pure (page_of a) in
      state-answered answered with_cors st
      ∙ state-answered (serve {m = m} f.service "POST" "/v1/commands" r) page_of st

  -- A complete request that is posted puts its task on the queue.
  pub serve_front-enqueues :
      (req : CommandRequest) (st : State m)
      → decode_create_command_request f.service.jx r ≡ inr req
      → is_complete req ≡ true
      → (serve_front f "POST" "/v1/commands" r st).1.calls
        ≡ st.calls ++ enqueue (command_task f.service.settings req) ∷ []
  serve_front-enqueues req st d e =
      ap (λ (w : State m). w.calls) (post-state st) ∙ serve-enqueues f.service r req st d e
