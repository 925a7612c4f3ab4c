-- ===== src/Api/Router/Agree.antt =====
-- The two walks of the router agree, and what each path leads to.
use burrowcode.Base.{
  String, ◌⧺◌, ◌≡◌, refl, ap, ◌∙◌, eq-false_of_ne, Option, none, some, [], ◌∷◌, arith, Option-cases,
  if◌then◌else◌, ◌==◌, inl, inr,
}
use text.Mathlib.TextLemmas.{nil-append, cons-append, cons≢nil, append_assoc}
use burrowcode.Golang.Strings.{trim_prefix}
use burrowcode.Golang.Strings.Laws.{has_prefix-append}
use burrowcode.Api.Router.{
  Operation, Served, handled, not_allowed, Route, route, health_check, get_open_api, list_commands,
  create_command, get_command, cut_prefix, serve_commands, serve_elem, serve_http, find_commands,
  find_elem, find_path,
}

-- the route that FindPath describes an operation by
abbrev pub route_of : Operation → Route
route_of health_check = route "HealthCheck" "healthCheck" "/health" []
route_of get_open_api = route "GetOpenAPI" "getOpenAPI" "/openapi.json" []
route_of list_commands = route "ListCommands" "listCommands" "/v1/commands" []
route_of create_command = route "CreateCommand" "createCommand" "/v1/commands" []
route_of (get_command id) = route "GetCommand" "getCommand" "/v1/commands/{id}" (id ∷ [])

abbrev pub described : Served → Option Route
described (handled op) = some (route_of op)
described _ = none

find_commands_lem :
    (method : String) (rest : Option String)
    → find_commands method rest ≡ described (serve_commands method rest)
unfolding find_commands serve_commands
find_commands_lem method none = refl
find_commands_lem method (some rest) = ground arith

find_elem_lem : (method elem : String) → find_elem method elem ≡ described (serve_elem method elem)
unfolding find_elem serve_elem
find_elem_lem method elem = ground (arith, find_commands_lem method (cut_prefix elem "v1/commands"))

-- FindPath finds a route exactly where ServeHTTP calls a handler, and it is that handler's.
pub find_path-eq-described :
    (method path : String) → find_path method path ≡ described (serve_http method path)
unfolding find_path serve_http
find_path-eq-described method path = elim (Option-cases (cut_prefix path "/")) [
  | inl e ↦ rw (e, find_path, serve_http)
  | inr (elem, e) ↦ rw (e, find_path, serve_http) (find_elem_lem method elem)
]

trim_prefix-append : (p s : String) → trim_prefix (p ⧺ s) p ≡ s
unfolding trim_prefix
trim_prefix-append String.[] s = nil-append s
trim_prefix-append (String.◌∷◌ c p) s =
    rw (cons-append, rw cons-append at (has_prefix-append (String.◌∷◌ c p) s))
      (trim_prefix-append p s)

cut_prefix-append : (p s : String) → cut_prefix (p ⧺ s) p ≡ some s
unfolding cut_prefix
cut_prefix-append p s = rw (has_prefix-append p s, trim_prefix-append p s)

serve_http-slash : (method elem : String) → serve_http method ("/" ⧺ elem) ≡ serve_elem method elem
unfolding serve_http
serve_http-slash method elem = rw (cut_prefix-append "/" elem, serve_http)

-- "v1/commands" and a rest, as a text whose first character is at hand
v1_cons : (rest : String) → "v1/commands" ⧺ rest ≡ String.◌∷◌ "v" ("1/commands" ⧺ rest)
v1_cons rest = cons-append "v" "1/commands" rest

serve_elem-commands :
    (method rest : String)
    → serve_elem method ("v1/commands" ⧺ rest) ≡ serve_commands method (some rest)
unfolding serve_elem
serve_elem-commands method rest =
    rw v1_cons (rw (rw v1_cons at (cut_prefix-append "v1/commands" rest)))

serve_commands-id :
    (method id : String)
    → serve_commands method (some ("/" ⧺ id))
      ≡ (if method == "GET" then handled (get_command id) else not_allowed "GET")
unfolding serve_commands
serve_commands-id method id =
    rw (cut_prefix-append "/" id, eq-false_of_ne ("/" ⧺ id) "" (rw cons-append (cons≢nil)))

-- A path below "/v1/commands/" leads to the command that is named by all of the rest, slashes
-- included: GET reaches its handler, and any other method is not allowed.
pub serve_http-command :
    (method id : String)
    → serve_http method ("/v1/commands/" ⧺ id)
      ≡ (if method == "GET" then handled (get_command id) else not_allowed "GET")
serve_http-command method id =
    ap (serve_http method)
      (append_assoc "/v1/commands" "/" id ∙ append_assoc "/" "v1/commands" ("/" ⧺ id))
    ∙ serve_http-slash method ("v1/commands" ⧺ ("/" ⧺ id))
    ∙ serve_elem-commands method ("/" ⧺ id)
    ∙ serve_commands-id method id
