-- ===== src/Worker/Handle.antt =====
-- `handleFFmpegCommand` and `enqueueWebhook` of worker/main.go. Log lines are left out.
pub mod Quiet
pub mod Outcomes
pub mod Published
pub mod Limits
pub mod Reported
use burrowcode.Base.{String, ◌⧺◌, Bool, true, false, Option, none, ◌==◌, if◌then◌else◌}
use burrowcode.Adapters.{OutputAdapter}
use burrowcode.Config.{Config, get_resource_limits}
use burrowcode.Golang.Filepath.{join}
use burrowcode.Golang.Strings.{contains}
use burrowcode.Json.{Json}
use burrowcode.Os.{Values, Machine, Task, mkdir_all, remove_all, enqueue, write_result}
use burrowcode.Os.Act.{Act, perform, pure, fail, ask, attempt, deferred, ◌>>=◌, ◌>>◌}
use burrowcode.System.Resources.{Runtime, check_resources_available}
use burrowcode.Worker.Job.{produce}
use burrowcode.Worker.Request.{
  CommandRequest, CommandResult, decode_request, encode_result, webhook_payload,
  type_webhook_deliver,
}

-- the queue's `IsFailure`, on the error's message
unfoldable pub is_failure : String → Bool
unfolding contains
is_failure message = if contains message "resource limit" then false else true

module _ (v : Values) where
  unfoldable pub webhook_task : Config v → String → String → CommandResult v → CommandRequest → Task
  unfolding webhook_payload
  webhook_task cfg url command_id result req = record {
    type_name = type_webhook_deliver;
    payload = webhook_payload v url command_id result req;
    max_retry = cfg.webhook.max_retry;
    queue = "webhooks";
    retention_hours = cfg.webhook.retention_hours;
    timeout_minutes = none;
  }

  unfoldable pub job_dir_of : Config v → String → String
  job_dir_of cfg command_id = join cfg.worker.work_dir command_id

module _ {m : Machine} (v : Values) where
  -- An error of the queue is logged and dropped.
  unfoldable pub enqueue_webhook :
      Config v → String → String → CommandResult v → CommandRequest → Act m Unit
  enqueue_webhook cfg url command_id result req = do
    attempt (perform (enqueue (webhook_task v cfg url command_id result req)))
    pure tt

  unfoldable pub notify : Config v → String → CommandRequest → CommandResult v → Act m Unit
  notify cfg command_id req result =
      if req.webhook == "" then pure tt else enqueue_webhook cfg req.webhook command_id result req

  -- the webhook, where one is asked for, and the result
  unfoldable pub publish : Config v → String → CommandRequest → CommandResult v → Act m Unit
  publish cfg command_id req result =
      notify cfg command_id req result >> ask (write_result (encode_result v result))

  unfoldable pub within_limits : Bool × String → Act m Unit
  within_limits (fits, reason) = if fits then pure tt else fail ("resource limit: " ⧺ reason)

  unfoldable pub check_limits : Config v → Runtime → Act m Unit
  check_limits cfg rt =
      if cfg.resources.enabled
      then check_resources_available v rt (get_resource_limits v cfg) >>= within_limits
      else pure tt

  -- the message of encoding/json is not reproduced
  unfoldable pub unmarshal_request : Option Json → Act m CommandRequest
  unmarshal_request payload =
      if (decode_request payload).1
      then pure (decode_request payload).0
      else fail "unmarshal: json: cannot unmarshal"

  -- what the handler does once the job's directory is there
  unfoldable pub run_job :
      Config v → OutputAdapter → String → String → String → CommandRequest → Act m Unit
  run_job cfg adapter accel command_id job_dir req =
      produce v adapter accel command_id job_dir req >>= publish cfg command_id req

  -- the directory, and the job with its removal deferred
  unfoldable pub in_job_dir :
      Config v → OutputAdapter → String → String → CommandRequest → Act m Unit
  in_job_dir cfg adapter accel command_id req =
      let job_dir = job_dir_of v cfg command_id in
      ask (mkdir_all job_dir)
      >> deferred (run_job cfg adapter accel command_id job_dir req) (perform (remove_all job_dir))

  -- `accel` is the text of the acceleration that was detected
  unfoldable pub handle_ffmpeg_command :
      Config v → OutputAdapter → Runtime → String → String → Option Json → Act m Unit
  handle_ffmpeg_command cfg adapter rt accel command_id payload =
      check_limits cfg rt >> (unmarshal_request payload >>= in_job_dir cfg adapter accel command_id)
