-- ===== src/Api/Front.antt =====
-- What `main` of api/main.go puts before the generated server: the CORS middleware, the mux, and the
-- handler of the OpenAPI file. A request for the target `*` is left out.
pub mod Effects
pub mod Cors
use burrowcode.Base.{
  ℕ, String, Bool, false, code, nat_eq, ◌⧺◌, ◌||◌, Option, none, some, List, [], ◌∷◌, ◌==◌,
  if◌then◌else◌,
}
use burrowcode.Config.{Env, get_env}
use burrowcode.Golang.Errors.{Result, ok, err}
use burrowcode.Golang.Filepath.{clean}
use burrowcode.Golang.Maps.{Map, insert}
use burrowcode.Golang.Strings.{has_prefix}
use burrowcode.Json.{Json}
use burrowcode.Os.{Values, Machine, read_file}
use burrowcode.Os.Act.{Act, perform, pure, attempt, ◌>>=◌}
use burrowcode.Api.Handlers.{Settings, load_settings}
use burrowcode.Api.Http.{Incoming, Answer, Service, serve}

-- what `main` sets up from the environment
pub record Setup : Type 0 where
  pub redis_addr : String
  pub port : String
  pub settings : Settings

unfoldable pub start_api : Env → Setup
unfolding get_env load_settings
start_api env = record {
  redis_addr = get_env env "REDIS_ADDR" "localhost:6379";
  port = get_env env "PORT" "8080";
  settings = load_settings env;
}

pub data Content : Type 0 where
  nothing : Content
  value : Json → Content
  text : String → Content

-- what a client gets: the status, the headers and the body
pub record Page : Type 0 where
  pub status : ℕ
  pub headers : Map String
  pub content : Content

abbrev content_of : Option Json → Content
content_of none = Content.nothing
content_of (some j) = Content.value j

abbrev pub page_of : Answer → Page
page_of a = record { status = a.status; headers = a.headers; content = content_of a.body }

-- `http.Error`
unfoldable pub http_error : String → ℕ → Page
http_error message status = record {
  status = status;
  headers =
      ("Content-Type", "text/plain; charset=utf-8") ∷ ("X-Content-Type-Options", "nosniff") ∷ [];
  content = Content.text (message ⧺ "\n");
}

-- whether the last character is a slash, and `last` for the empty text
ends_from : Bool → String → Bool
ends_from last String.[] = last
ends_from last (String.◌∷◌ c s) = ends_from (nat_eq (code c) b'/') s

-- `cleanPath` of net/http
unfoldable pub clean_path : String → String
unfolding clean has_prefix ends_from
clean_path path =
    let rooted = if has_prefix path "/" then path else "/" ⧺ path in
    let cleaned = clean rooted in
    if cleaned == "/" then cleaned else if ends_from false rooted then cleaned ⧺ "/" else cleaned

-- `w.Header().Set`, for each header of an answer
unfoldable pub set_all : Map String → Map String → Map String
unfolding insert
set_all [] headers = headers
set_all ((name, v) ∷ more) headers = set_all more (insert name v headers)

abbrev pub cors_headers : Map String
cors_headers =
    ("Access-Control-Allow-Origin", "*")
    ∷ ("Access-Control-Allow-Methods", "GET, POST, OPTIONS")
    ∷ ("Access-Control-Allow-Headers", "Content-Type, X-API-Key")
    ∷ []

-- an answer that is written where the middleware has set its headers
unfoldable pub with_cors : Page → Page
unfolding set_all
with_cors p = record p { headers = set_all p.headers cors_headers }

abbrev pub preflight : Page
preflight = record { status = 200; headers = cors_headers; content = Content.nothing }

pub record Front (v : Values) : Type 0 where
  pub service : Service v
  -- `yaml.YAMLToJSON`, on the lines of a file
  pub yaml_to_json : List String → Result Json
  -- the mux's answer that sends a client to another path
  pub moved : String → Page

abbrev pub converted : Result Json → Page
converted (err e) = http_error "Failed to convert OpenAPI spec" 500
converted (ok j) = record {
  status = 200;
  headers = ("Content-Type", "application/json") ∷ [];
  content = Content.value j;
}

abbrev pub spec_of : (List String → Result Json) → Result (List String) → Page
spec_of yaml_to_json (err e) = http_error "Failed to read OpenAPI spec" 500
spec_of yaml_to_json (ok lines) = converted (yaml_to_json lines)

module _ {m : Machine} where
  unfoldable pub serve_open_api_spec : (List String → Result Json) → Act m Page
  unfolding http_error
  serve_open_api_spec yaml_to_json = do
    file ← attempt (perform (read_file "openapi.yaml"))
    pure (spec_of yaml_to_json file)

  unfoldable pub cors_middleware : Act m Page → String → Act m Page
  unfolding with_cors
  cors_middleware next method =
      if method == "OPTIONS" then pure preflight else next >>= λ p. pure (with_cors p)

module _ {m : Machine} {v : Values} (f : Front v) where
  -- the handler whose pattern fits the path
  unfoldable pub route : String → String → Incoming → Act m Page
  route method path r =
      if path == "/openapi.json"
      then serve_open_api_spec f.yaml_to_json
      else serve f.service method path r >>= λ a. pure (page_of a)

  -- the mux, which sends a path that is not clean elsewhere
  unfoldable pub serve_mux : String → String → Incoming → Act m Page
  unfolding clean_path
  serve_mux method path r =
      if method == "CONNECT" || clean_path path == path
      then route method path r
      else pure (f.moved (clean_path path))

  unfoldable pub serve_front : String → String → Incoming → Act m Page
  serve_front method path r = cors_middleware (serve_mux method path r) method
