-- ===== src/Api/Router.antt =====
-- The generated router, api/oas/oas_router_gen.go: ServeHTTP and FindPath. The server's prefix is
-- empty, its default, which `main` does not change.
pub mod Agree
use burrowcode.Base.{
  ℕ, Char, code, String, Bool, true, false, Option, none, some, List, [], ◌∷◌, ◌==◌, nat_eq,
  if◌then◌else◌,
}
use burrowcode.Golang.Strings.{has_prefix, trim_prefix}

-- The operations that a request can reach, with the argument of the last.
pub data Operation : Type 0 where
  health_check get_open_api list_commands create_command : Operation
  get_command : String → Operation

-- What ServeHTTP does with a request.
pub data Served : Type 0 where
  handled : Operation → Served
  not_allowed : String → Served
  not_found : Served

abbrev first_is : String → ℕ → Bool
first_is String.[] b = false
first_is (String.◌∷◌ c s) b = nat_eq (code c) b

-- the text behind a prefix, if it has that prefix
unfoldable pub cut_prefix : String → String → Option String
unfolding has_prefix trim_prefix
cut_prefix s p = if has_prefix s p then some (trim_prefix s p) else none

-- a leaf that answers to GET alone
abbrev pub get_only : Operation → String → Served
get_only op method = if method == "GET" then handled op else not_allowed "GET"

-- a leaf is reached where nothing of the path is left
abbrev pub at_end : Served → Option String → Served
at_end leaf none = not_found
at_end leaf (some rest) = if rest == "" then leaf else not_found

-- `rest` is the path behind "/v1/commands"
unfoldable pub serve_commands : String → Option String → Served
unfolding cut_prefix
serve_commands method none = not_found
serve_commands method (some rest) =
    if rest == ""
    then (if method == "GET"
        then handled list_commands
        else if method == "POST"
        then handled create_command
        else not_allowed "GET,POST")
    else elim (cut_prefix rest "/") [
      | none ↦ not_found
      | some id ↦ get_only (get_command id) method
    ]

-- `elem` is the path behind the first slash
unfoldable pub serve_elem : String → String → Served
unfolding serve_commands
serve_elem method elem =
    if first_is elem b'h'
    then at_end (get_only health_check method) (cut_prefix elem "health")
    else if first_is elem b'o'
    then at_end (get_only get_open_api method) (cut_prefix elem "openapi.json")
    else if first_is elem b'v'
    then serve_commands method (cut_prefix elem "v1/commands")
    else not_found

-- ServeHTTP, for a method and a path
unfoldable pub serve_http : String → String → Served
unfolding serve_elem
serve_http method path = elim (cut_prefix path "/") [
  | none ↦ not_found
  | some elem ↦ serve_elem method elem
]

pub record Route : Type 0 where
  pub name : String
  pub operation_id : String
  pub path_pattern : String
  pub args : List String

abbrev pub route : String → String → String → List String → Route
route name operation_id path_pattern args = record {
  name = name;
  operation_id = operation_id;
  path_pattern = path_pattern;
  args = args;
}

abbrev found_for_get : Route → String → Option Route
found_for_get r method = if method == "GET" then some r else none

abbrev found_at_end : Option Route → Option String → Option Route
found_at_end leaf none = none
found_at_end leaf (some rest) = if rest == "" then leaf else none

unfoldable pub find_commands : String → Option String → Option Route
unfolding cut_prefix
find_commands method none = none
find_commands method (some rest) =
    if rest == ""
    then (if method == "GET"
        then some (route "ListCommands" "listCommands" "/v1/commands" [])
        else if method == "POST"
        then some (route "CreateCommand" "createCommand" "/v1/commands" [])
        else none)
    else elim (cut_prefix rest "/") [
      | none ↦ none
      | some id ↦
          found_for_get (route "GetCommand" "getCommand" "/v1/commands/{id}" (id ∷ [])) method
    ]

unfoldable pub find_elem : String → String → Option Route
unfolding find_commands
find_elem method elem =
    if first_is elem b'h'
    then found_at_end (found_for_get (route "HealthCheck" "healthCheck" "/health" []) method)
        (cut_prefix elem "health")
    else if first_is elem b'o'
    then found_at_end (found_for_get (route "GetOpenAPI" "getOpenAPI" "/openapi.json" []) method)
        (cut_prefix elem "openapi.json")
    else if first_is elem b'v'
    then find_commands method (cut_prefix elem "v1/commands")
    else none

-- FindPath, for a URL whose path has no escaped form of its own
unfoldable pub find_path : String → String → Option Route
unfolding find_elem
find_path method path = elim (cut_prefix path "/") [
  | none ↦ none
  | some elem ↦ find_elem method elem
]
