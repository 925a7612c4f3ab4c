-- ===== src/Api/Status.antt =====
-- The handlers of api/main.go that report on commands.
use burrowcode.Base.{
  ℕ, String, Bool, Option, none, some, List, [], ◌∷◌, ◌++◌, map, ◌==◌, if◌then◌else◌, nat_eq,
  length,
}
use burrowcode.Golang.Errors.{Result, ok, err}
use burrowcode.Golang.Int.{ℤ, pos, is_positive}
use burrowcode.Golang.Maps.{Map, insert}
use burrowcode.Json.{Json}
use burrowcode.Os.{Values}
use burrowcode.Api.Result.{decode_result}
use burrowcode.Api.Types.{
  CommandRequest, WorkerCommandRequest, decode_worker_request, Status, pending, processing, success,
  failed, retrying, WorkerOutputFileInfo, WorkerCommandResult, OutputFileInfo, CommandStatus,
  GetCommandRes, CommandListResponse,
}

-- asynq.TaskState
pub data TaskState : Type 0 where
  active pending_task scheduled retry archived completed aggregating : TaskState

-- What asynq's inspector tells of a task. Its payload and its result are `none` where they are no
-- JSON text.
pub record TaskInfo : Type 0 where
  pub id : String
  pub payload : Option Json
  pub state : TaskState
  pub last_err : String
  pub next_process_at : ℕ
  pub has_result : Bool
  pub result : Option Json

unfoldable pub state_to_status : TaskState → Status
state_to_status active = processing
state_to_status pending_task = pending
state_to_status completed = success
state_to_status archived = failed
state_to_status retry = retrying
state_to_status _ = pending

abbrev pub unless_empty : String → Option String
unless_empty t = if t == "" then none else some t

-- what is not empty, of a slice
abbrev pub unless_no_texts : List String → Option (List String)
unless_no_texts [] = none
unless_no_texts (t ∷ ts) = some (t ∷ ts)

-- what appending the elements to a nil slice gives, which stays nil where there are none
abbrev pub appended {ℓ} : {A : Type ℓ} → List A → Option (List A)
appended [] = none
appended (x ∷ xs) = some (x ∷ xs)

-- `url.Parse` of a webhook, and the text of what it returns
abbrev pub UrlParser : Type 0
UrlParser = String → Option String

unfoldable pub original_request : UrlParser → WorkerCommandRequest → CommandRequest
original_request parse_url req = record {
  input_files = req.input_files;
  output_files = req.output_files;
  ffmpeg_command = unless_empty req.ffmpeg_command;
  ffmpeg_commands = unless_no_texts req.ffmpeg_commands;
  webhook = if req.webhook == "" then none else parse_url req.webhook;
  reference_id = unless_empty req.reference_id;
}

-- What the inspector lists, a page of at most 100 tasks of each state; an error leaves none.
pub record Listing : Type 0 where
  pub active : List TaskInfo
  pub pending : List TaskInfo
  pub completed : List TaskInfo
  pub archived : List TaskInfo

abbrev pub unless_zero : ℕ → Option ℕ
unless_zero t = if nat_eq t 0 then none else some t

abbrev pub if_positive : ℤ → Option ℤ
if_positive n = if is_positive n then some n else none

module _ (v : Values) where
  unfoldable pub to_info : WorkerOutputFileInfo v → OutputFileInfo v
  to_info i = record {
    file_id = i.file_id;
    size_mbytes = i.size_mbytes;
    file_type = i.file_type;
    file_format = i.file_format;
    storage_url = i.storage_url;
    width = if_positive i.width;
    height = if_positive i.height;
  }

  -- the loop over the result's output files
  unfoldable pub to_infos :
      Map (WorkerOutputFileInfo v) → Map (OutputFileInfo v) → Map (OutputFileInfo v)
  unfolding to_info insert
  to_infos [] infos = infos
  to_infos ((k, i) ∷ m) infos = to_infos m (insert k (to_info i) infos)

  module _ (parse_url : UrlParser) where
    -- the result, where the task has one that decodes
    abbrev pub result_of : TaskInfo → Option (WorkerCommandResult v)
    result_of t = if t.has_result then decode_result v t.result else none

    abbrev pub with_result : CommandStatus v → Option (WorkerCommandResult v) → CommandStatus v
    with_result cs none = cs
    with_result cs (some r) = record cs {
      output_files = some (to_infos r.output_files []);
      ffmpeg_command_run_seconds = some r.ffmpeg_command_run_seconds;
      total_processing_seconds = some r.total_processing_seconds;
      completed_at = unless_zero r.completed_at;
    }

    unfoldable pub with_error : CommandStatus v → String → CommandStatus v
    with_error cs last_err =
        if last_err == "" then cs else record cs { error = some last_err; status = failed }

    -- what is reported of a task without its result and its error
    abbrev pub reported : TaskInfo → Status → CommandStatus v
    reported t status = record {
      command_id = t.id;
      status = status;
      output_files = none;
      original_request = some (original_request parse_url (decode_worker_request t.payload));
      ffmpeg_command_run_seconds = none;
      total_processing_seconds = none;
      error = none;
      created_at = t.next_process_at;
      completed_at = none;
    }

    -- `taskToStatus`
    unfoldable pub task_to_status : TaskInfo → Status → CommandStatus v
    unfolding with_error to_infos original_request decode_worker_request decode_result
    task_to_status t status = with_error (with_result (reported t status) (result_of t)) t.last_err

    unfoldable pub looked_up : Result TaskInfo → GetCommandRes v
    unfolding task_to_status state_to_status
    looked_up (err e) = GetCommandRes.not_found "command not found"
    looked_up (ok info) = GetCommandRes.found (task_to_status info (state_to_status info.state))

    -- `get_task_info` is the inspector's, on the queue "ffmpeg"
    unfoldable pub get_command : (String → Result TaskInfo) → String → GetCommandRes v
    unfolding looked_up
    get_command get_task_info id =
        if id == ""
        then GetCommandRes.bad_request "command_id required"
        else looked_up (get_task_info id)

    abbrev with_status : Status → List TaskInfo → List (CommandStatus v)
    with_status status tasks = map (λ t. task_to_status t status) tasks

    unfoldable pub list_commands : Listing → CommandListResponse v
    unfolding task_to_status
    list_commands l =
        let commands =
          with_status processing l.active
          ++ with_status pending l.pending
          ++ with_status success l.completed
          ++ with_status failed l.archived in
        record { commands = appended commands; total = pos (length commands) }
