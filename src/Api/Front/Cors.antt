-- ===== src/Api/Front/Cors.antt =====
-- The header of `corsMiddleware` of api/main.go that lets pages of any origin read an answer.
use burrowcode.Base.{
  String, ◌≡◌, refl, none, some, List, [], ◌∷◌, ◌==◌, arith, ◌||◌, if_both, ◌⊎◌, inl, inr, not,
  ◌&&◌,
}
use burrowcode.Golang.Errors.{Result, ok, err}
use burrowcode.Golang.Maps.{Map, lookup, insert, lookup-insert}
use burrowcode.Os.{Values, Machine, read_file}
use burrowcode.Os.Act.{State, perform, pure}
use burrowcode.Os.Gives.{
  Any, Holds, Gives, Gives-pure, Gives-attempted, Gives-then, Gives-bind, Gives-if,
}
use burrowcode.Api.Types.{CommandRequest, CreateCommandRes, GetCommandRes}
use burrowcode.Api.Handlers.{create_command, is_set, is_empty, texts_or_empty, entries}
use burrowcode.Api.Router.{Operation, Served, handled, not_allowed, not_found, serve_http}
use burrowcode.Api.Http.{
  Incoming, RequestError, Answer, encode_create_command_response, encode_get_command_response,
  create_decoded, get_decoded, encode_health_check_response, encode_get_open_api_response,
  encode_list_commands_response, handle_get_command_request, handle_list_commands_request,
  handle_create_command_request, decode_create_command_request, decode_get_command_params,
  answer_served, perform_operation, method_not_allowed, serve,
}
use burrowcode.Api.Front.{
  Page, page_of, Front, preflight, set_all, with_cors, http_error, clean_path, converted, spec_of,
  serve_open_api_spec, cors_middleware, route, serve_mux, serve_front,
}

abbrev pub origin : String
origin = "Access-Control-Allow-Origin"

-- Pages of any origin may read the answer.
abbrev pub IsShared : Page → Type 0
IsShared p = lookup origin p.headers ≡ some "*"

abbrev IsPlain : Page → Type 0
IsPlain p = lookup origin p.headers ≡ none

abbrev IsPlainAnswer : Answer → Type 0
IsPlainAnswer a = IsPlain (page_of a)

-- The answers of the libraries set no such header of their own.
pub record IsNeutral {v : Values} (f : Front v) : Type 0 where
  pub errors : (e : RequestError) → IsPlain (page_of (f.service.error_handler e))
  pub unknown_path : IsPlain (page_of f.service.path_not_found)
  pub moves : (path : String) → IsPlain (f.moved path)

set_all-keeps :
    (new old : Map String)
    → lookup origin new ≡ none
    → lookup origin (set_all new old) ≡ lookup origin old
unfolding set_all lookup
set_all-keeps [] old h = refl
set_all-keeps ((name, v) ∷ more) old h =
    ground (arith, set_all-keeps more (insert name v old), lookup-insert old name v origin)

with_cors-IsShared : (p : Page) → IsPlain p → IsShared (with_cors p)
unfolding with_cors lookup
with_cors-IsShared p h = set_all-keeps p.headers _ h

preflight-IsShared : IsShared preflight
unfolding lookup
preflight-IsShared = refl

encode_create-IsPlain :
    (a : CreateCommandRes) → IsPlain (page_of (encode_create_command_response a))
unfolding encode_create_command_response lookup
encode_create-IsPlain (CreateCommandRes.created r) = refl
encode_create-IsPlain (CreateCommandRes.bad_request e) = refl
encode_create-IsPlain (CreateCommandRes.internal_server_error e) = refl

spec_of-IsPlain : (g : List String → Result _) (r : Result (List String)) → IsPlain (spec_of g r)
unfolding http_error lookup
spec_of-IsPlain g (err e) = refl
spec_of-IsPlain g (ok lines) = go (g lines)
  where
    go : (r : Result _) → IsPlain (converted r)
    go (err e) = refl
    go (ok j) = refl

not_allowed-IsPlain :
    (method allowed : String) → IsPlain (page_of (method_not_allowed method allowed))
unfolding method_not_allowed lookup
not_allowed-IsPlain method allowed = ground arith

module _ {v : Values} (f : Front v) (plain : IsNeutral f) where
  encode_get-IsPlain :
      (a : GetCommandRes v) → IsPlain (page_of (encode_get_command_response f.service.jx a))
  unfolding encode_get_command_response lookup
  encode_get-IsPlain (GetCommandRes.found s) = refl
  encode_get-IsPlain (GetCommandRes.bad_request e) = refl
  encode_get-IsPlain (GetCommandRes.not_found e) = refl

  get_decoded-IsPlain : (d : RequestError ⊎ String) → IsPlain (page_of (get_decoded f.service d))
  get_decoded-IsPlain (inl e) = plain.errors e
  get_decoded-IsPlain (inr id) = encode_get-IsPlain _

  module _ {m : Machine} where
    create_command-Gives :
        (req : CommandRequest) → Gives {m = m} Any (create_command f.service.settings req)
    unfolding create_command pure
    create_command-Gives req = record {
      at = λ s.
          if_both (λ (x : Result CreateCommandRes × State m). Holds Any x.0)
            (not (is_set req.ffmpeg_command) && is_empty (texts_or_empty req.ffmpeg_commands)) _ _
            tt
            (if_both (λ (x : Result CreateCommandRes × State m). Holds Any x.0)
              (is_empty (entries req.output_files)) _ _ tt tt);
    }

    create_decoded-Gives :
        (d : RequestError ⊎ CommandRequest)
        → Gives {m = m} IsPlainAnswer (create_decoded f.service d)
    create_decoded-Gives (inl e) = Gives-pure _ (plain.errors e)
    create_decoded-Gives (inr req) =
        Gives-then (create_command-Gives req)
          (λ a. Gives-pure (encode_create_command_response a) (encode_create-IsPlain a))

    answer_served-Gives :
        (method : String) (r : Incoming) (served : Served)
        → Gives {m = m} IsPlainAnswer (answer_served f.service method r served)
    unfolding perform_operation encode_health_check_response encode_get_open_api_response
        handle_create_command_request handle_get_command_request handle_list_commands_request
        encode_list_commands_response lookup
    answer_served-Gives method r (handled Operation.health_check) = Gives-pure _ refl
    answer_served-Gives method r (handled Operation.get_open_api) = Gives-pure _ refl
    answer_served-Gives method r (handled Operation.list_commands) = Gives-pure _ refl
    answer_served-Gives method r (handled Operation.create_command) =
        create_decoded-Gives (decode_create_command_request f.service.jx r)
    answer_served-Gives method r (handled (Operation.get_command id)) =
        Gives-pure _ (get_decoded-IsPlain (decode_get_command_params f.service.path_value id))
    answer_served-Gives method r (not_allowed allowed) =
        Gives-pure _ (not_allowed-IsPlain method allowed)
    answer_served-Gives method r not_found = Gives-pure _ plain.unknown_path

    route-Gives :
        (method path : String) (r : Incoming) → Gives {m = m} IsPlain (route f method path r)
    unfolding route serve_open_api_spec serve
    route-Gives method path r =
        Gives-if (path == "/openapi.json") _ _
          (Gives-then (Gives-attempted (perform (read_file "openapi.yaml"))) (λ file.
            Gives-pure (spec_of f.yaml_to_json file) (spec_of-IsPlain f.yaml_to_json file)))
          (Gives-bind _ _ (answer_served-Gives method r (serve_http method path))
            (λ a h. Gives-pure (page_of a) h))

    -- Every request to the API, also to a path or with a method that there is not, is answered without
    -- an error, and the answer lets pages of any origin read it, where the answers of the libraries
    -- set no such header of their own.
    pub serve_front-IsShared :
        (method path : String) (r : Incoming) → Gives {m = m} IsShared (serve_front f method path r)
    unfolding serve_front cors_middleware serve_mux
    serve_front-IsShared method path r =
        Gives-if (method == "OPTIONS") _ _ (Gives-pure preflight preflight-IsShared) (
          Gives-bind (serve_mux f method path r) _
            (Gives-if (method == "CONNECT" || clean_path path == path) _ _
              (route-Gives method path r) (Gives-pure _ (plain.moves (clean_path path))))
            (λ p h. Gives-pure (with_cors p) (with_cors-IsShared p h)))
