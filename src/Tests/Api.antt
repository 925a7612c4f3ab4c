-- ===== src/Tests/Api.antt =====
-- The API's handlers and its router.
use burrowcode.Base.{
  String, ◌≡◌, ◌≢◌, refl, none, some, false, [], ◌∷◌, ◌++◌, map, length, if◌then◌else◌, ◌==◌, ◌⧺◌,
  true,
}
use burrowcode.Golang.Errors.{Result, ok, err}
use burrowcode.Golang.Int.{pos}
use burrowcode.Os.{enqueue}
use burrowcode.Os.Act.{perform, pure}
use burrowcode.Api.Types.{
  items_of, CommandRequest, CommandResponse, CreateCommandRes, GetCommandRes, failed, pending,
  CommandStatus,
}
use burrowcode.Api.Handlers.{Settings, command_task, create_command}
use burrowcode.Api.Status.{
  TaskInfo, UrlParser, active, task_to_status, state_to_status, get_command, looked_up, Listing,
  list_commands,
}
use burrowcode.Api.Laws.{
  is_complete, create_command-calls, create_command-eq-created, list_commands-ids,
  get_command-status,
}
use burrowcode.Api.Router.{find_path, serve_http, handled, not_allowed}
use burrowcode.Api.Router.{get_command as get_command_operation}
use burrowcode.Api.Router.Agree.{described, find_path-eq-described, serve_http-command}
use burrowcode.Tests.Fixture.{whole, host, initial, payload}

abbrev settings : Settings
settings = record { task_max_retry = pos 2; task_timeout_min = pos 30; task_retention_h = pos 24 }

abbrev wanted : CommandRequest
wanted = record {
  input_files = some (("a", "http://h/a.mov") ∷ []);
  output_files = some (("o", "o.mp4") ∷ []);
  ffmpeg_command = some "-i {{a}} {{o}}";
  ffmpeg_commands = none;
  webhook = none;
  reference_id = some "r1";
}

abbrev answer : CommandResponse
answer = record { command_id = "7f3a"; status = pending; reference_id = some "r1" }

answered :
    (create_command {m = host} settings wanted initial).0 ≡ ok (CreateCommandRes.created answer)
unfolding create_command perform pure
answered = refl

create_command-calls_example : (create_command {m = host} settings wanted initial).1.calls ≡ (
    if is_complete wanted
    then initial.calls ++ enqueue (command_task settings wanted) ∷ []
    else initial.calls)
create_command-calls_example = create_command-calls settings wanted initial

create_command-eq-created_example :
    (is_complete wanted ≡ true)
    × ((perform {m = host} (enqueue (command_task settings wanted)) initial).0 ≡ ok "7f3a")
    × (answer.reference_id ≡ wanted.reference_id)
create_command-eq-created_example =
    create_command-eq-created settings wanted initial answer answered

abbrev no_url : UrlParser
no_url text = none

abbrev broken : TaskInfo
broken = record {
  id = "7f3a";
  payload = some payload;
  state = active;
  last_err = "command cancelled";
  next_process_at = 8;
  has_result = false;
  result = none;
}

abbrev listing : Listing
listing = record { active = broken ∷ []; pending = []; completed = []; archived = broken ∷ [] }

list_commands-ids_example :
    (map (λ c. c.command_id) (items_of (list_commands whole no_url listing).commands)
      ≡ map (λ t. t.id) listing.active
        ++ map (λ t. t.id) listing.pending
        ++ map (λ t. t.id) listing.completed
        ++ map (λ t. t.id) listing.archived)
    × ((list_commands whole no_url listing).total
        ≡ pos (length (items_of (list_commands whole no_url listing).commands)))
list_commands-ids_example = list_commands-ids whole no_url listing

abbrev inspect : String → Result TaskInfo
inspect id = if id == "7f3a" then ok broken else err "asynq: task not found"

abbrev shown : CommandStatus whole
shown = task_to_status whole no_url broken (state_to_status active)

looked : get_command whole no_url inspect "7f3a" ≡ GetCommandRes.found shown
unfolding get_command looked_up
looked = refl

get_command-status_example :
    (info : TaskInfo) × (inspect "7f3a" ≡ ok info)
    × (◌≢◌ {A = String} "7f3a" "")
    × (shown.status ≡ (if info.last_err == "" then state_to_status info.state else failed))
get_command-status_example = get_command-status whole no_url inspect "7f3a" shown looked

find_path_example :
    find_path "GET" "/v1/commands/7f3a" ≡ described (serve_http "GET" "/v1/commands/7f3a")
find_path_example = find_path-eq-described "GET" "/v1/commands/7f3a"

abbrev post : String
post = "POST"

serve_http-command_example :
    serve_http "POST" ("/v1/commands/" ⧺ "7f3a")
    ≡ (if post == "GET" then handled (get_command_operation "7f3a") else not_allowed "GET")
serve_http-command_example = serve_http-command "POST" "7f3a"
