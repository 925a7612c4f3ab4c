-- ===== src/Api/Handlers.antt =====
-- The handlers of api/main.go that create a command and answer at fixed paths.
use burrowcode.Base.{
  String, Bool, true, false, not, ◌&&◌, Option, none, some, List, [], ◌∷◌, if◌then◌else◌,
}
use burrowcode.Config.{Env, get_env_int}
use burrowcode.Golang.Errors.{Result, ok, err}
use burrowcode.Golang.Int.{ℤ, pos}
use burrowcode.Golang.Maps.{Map}
use burrowcode.Os.{Machine, Task, enqueue}
use burrowcode.Os.Act.{Act, perform, pure}
use burrowcode.Api.Types.{
  CommandRequest, WorkerCommandRequest, encode_worker_request, pending, CreateCommandRes,
}

abbrev pub type_ffmpeg_command : String
type_ffmpeg_command = "ffmpeg:command"

-- The package's variables, as `main` sets them from the environment.
pub record Settings : Type 0 where
  pub task_max_retry : ℤ
  pub task_timeout_min : ℤ
  pub task_retention_h : ℤ

unfoldable pub load_settings : Env → Settings
unfolding get_env_int
load_settings env = record {
  task_max_retry = get_env_int env "TASK_MAX_RETRY" (pos 2);
  task_timeout_min = get_env_int env "TASK_TIMEOUT_MINUTES" (pos 30);
  task_retention_h = get_env_int env "TASK_RETENTION_HOURS" (pos 24);
}

abbrev pub is_set {ℓ} : {A : Type ℓ} → Option A → Bool
is_set none = false
is_set (some a) = true

abbrev pub is_empty {ℓ} : {A : Type ℓ} → List A → Bool
is_empty [] = true
is_empty (x ∷ xs) = false

abbrev pub entries : Option (Map String) → Map String
entries none = []
entries (some m) = m

abbrev pub texts_or_empty : Option (List String) → List String
texts_or_empty none = []
texts_or_empty (some ts) = ts

abbrev pub text_or_empty : Option String → String
text_or_empty none = ""
text_or_empty (some t) = t

-- `map[string]string(…)` of an optional map: the nil map where it is not set
unfoldable pub to_worker : CommandRequest → WorkerCommandRequest
to_worker req = record {
  input_files = req.input_files;
  output_files = req.output_files;
  ffmpeg_command = text_or_empty req.ffmpeg_command;
  ffmpeg_commands = texts_or_empty req.ffmpeg_commands;
  webhook = text_or_empty req.webhook;
  reference_id = text_or_empty req.reference_id;
}

unfoldable pub command_task : Settings → CommandRequest → Task
unfolding to_worker encode_worker_request
command_task cfg req = record {
  type_name = type_ffmpeg_command;
  payload = encode_worker_request (to_worker req);
  max_retry = cfg.task_max_retry;
  queue = "ffmpeg";
  retention_hours = cfg.task_retention_h;
  timeout_minutes = some cfg.task_timeout_min;
}

abbrev pub answer_of : CommandRequest → Result String → CreateCommandRes
answer_of req (err e) = CreateCommandRes.internal_server_error e
answer_of req (ok id) =
    CreateCommandRes.created
      (record { command_id = id; status = pending; reference_id = req.reference_id })

unfoldable pub create_command : {m : Machine} → Settings → CommandRequest → Act m CreateCommandRes
unfolding perform pure command_task
create_command cfg req s =
    if not (is_set req.ffmpeg_command) && is_empty (texts_or_empty req.ffmpeg_commands)
    then pure (CreateCommandRes.bad_request "ffmpeg_command or ffmpeg_commands required") s
    else if is_empty (entries req.output_files)
    then pure (CreateCommandRes.bad_request "output_files required") s
    else (let (r, s') = perform (enqueue (command_task cfg req)) s in pure (answer_of req r) s')

unfoldable pub health_check : String
health_check = "ok"
