-- ===== src/Worker/Handle/Outcomes.antt =====
-- The errors of `handleFFmpegCommand` of worker/main.go: what was called before one is returned.
use burrowcode.Base.{◌≡◌, inl, inr, String, Option, Bool, Bool-cases, ◌==◌}
use burrowcode.Golang.Errors.{ok}
use burrowcode.Json.{Json}
use burrowcode.Config.{Config}
use burrowcode.Adapters.{OutputAdapter}
use burrowcode.System.Resources.{
  Runtime, get_linux_memory, get_darwin_memory, get_system_memory, get_resource_status,
  check_resources_available,
}
use burrowcode.Os.{Values, Machine, Call, read_file, mkdir_all, write_result}
use burrowcode.Os.Act.{State, ◌>>=◌}
use burrowcode.Os.Emits.{
  Emits-attempt, Added-perform, Emits, Emits-bind, Emits-if, Emits-pure, Emits-ask, Emits-map,
  Emits-fail,
}
use burrowcode.Os.Calls.{Emits-remove_all, Emits-enqueue}
use burrowcode.Os.Outcome.{IsQuiet, IsQuiet-bind, IsQuiet-total, IsQuiet-deferred}
use burrowcode.Worker.Request.{CommandRequest, CommandResult}
use burrowcode.Worker.Handle.{
  notify, publish, enqueue_webhook, within_limits, check_limits, unmarshal_request, run_job,
  job_dir_of, in_job_dir, handle_ffmpeg_command,
}
use burrowcode.Worker.Handle.Quiet.{IsSilent, produce-Emits}

-- a look at the host's memory
abbrev pub IsLook : Call → Type 0
IsLook (read_file p) = Unit
IsLook _ = ⊥

-- no result for the queue
abbrev pub IsNoResult : Call → Type 0
IsNoResult (write_result j) = ⊥
IsNoResult _ = Unit

pub IsSilent-IsLook : (c : Call) → IsLook c → IsSilent c
IsSilent-IsLook (read_file p) h = tt
IsSilent-IsLook _ h = absurd h

pub IsNoResult-IsSilent : (c : Call) → IsSilent c → IsNoResult c
IsNoResult-IsSilent (write_result j) h = absurd h
IsNoResult-IsSilent _ h = tt

module _ {m : Machine} where
  get_linux_memory-Emits : Emits IsLook (get_linux_memory {m = m})
  unfolding get_linux_memory
  get_linux_memory-Emits = record { at = λ s. Added-perform (read_file "/proc/meminfo") s tt }

  get_darwin_memory-Emits : Emits IsLook (get_darwin_memory {m = m})
  unfolding get_darwin_memory
  get_darwin_memory-Emits = Emits-pure _

  get_system_memory-Emits : (goos : String) → Emits IsLook (get_system_memory {m = m} goos)
  unfolding get_system_memory
  get_system_memory-Emits goos =
      Emits-if (goos == "linux") _ _ get_linux_memory-Emits
        (Emits-if (goos == "darwin") _ _ get_darwin_memory-Emits (Emits-pure _))

module _ {m : Machine} (v : Values) where
  get_resource_status-Emits : (rt : Runtime) → Emits IsLook (get_resource_status v {m = m} rt)
  unfolding get_resource_status
  get_resource_status-Emits rt =
      Emits-bind _ _ (get_system_memory-Emits rt.goos) (λ t. Emits-pure _)

  within_limits-Emits : (r : Bool × String) → Emits IsLook (within_limits {m = m} v r)
  unfolding within_limits
  within_limits-Emits (fits, reason) = Emits-if fits _ _ (Emits-pure _) (Emits-fail _)

  pub check_limits-Emits :
      (cfg : Config v) (rt : Runtime) → Emits IsLook (check_limits {m = m} v cfg rt)
  unfolding check_limits check_resources_available
  check_limits-Emits cfg rt =
      Emits-if cfg.resources.enabled _ _
        (Emits-bind _ _ (Emits-bind _ _ (get_resource_status-Emits rt) (λ status. Emits-pure _))
          within_limits-Emits)
        (Emits-pure _)

  pub unmarshal_request-Emits :
      {P : Call → Type 0} (payload : Option Json) → Emits P (unmarshal_request {m = m} v payload)
  unfolding unmarshal_request
  unmarshal_request-Emits payload = Emits-if _ _ _ (Emits-pure _) (Emits-fail _)

  module _ (cfg : Config v) (id : String) (req : CommandRequest) where
    -- The webhook adds no result, and `publish` returns no error.
    pub notify-Emits : (r : CommandResult v) → Emits IsNoResult (notify {m = m} v cfg id req r)
    unfolding notify enqueue_webhook
    notify-Emits r =
        Emits-if (req.webhook == "") _ _ (Emits-pure _)
          (Emits-bind _ _ (Emits-attempt _ (Emits-enqueue _ tt)) (λ _. Emits-pure _))

    publish-total : (r : CommandResult v) (s : State m) → (publish v cfg id req r s).0 ≡ ok tt
    unfolding publish notify enqueue_webhook ◌>>=◌
    publish-total r s = elim (Bool-cases (req.webhook == "")) [ inl e ↦ rw e | inr e ↦ rw e ]

    run_job-IsQuiet :
        (a : OutputAdapter) (accel dir : String)
        → IsQuiet IsSilent (run_job {m = m} v cfg a accel id dir req)
    unfolding run_job
    run_job-IsQuiet a accel dir =
        IsQuiet-bind _ _ (produce-Emits v a accel id dir req)
          λ r. IsQuiet-total _ (λ s. tt) (publish-total r)

    in_job_dir-IsQuiet :
        (a : OutputAdapter) (accel : String)
        → IsQuiet IsSilent (in_job_dir {m = m} v cfg a accel id req)
    unfolding in_job_dir
    in_job_dir-IsQuiet a accel =
        IsQuiet-bind _ _ (Emits-ask (mkdir_all (job_dir_of v cfg id)) tt)
          λ _. IsQuiet-deferred _ _ (run_job-IsQuiet a accel _) (Emits-remove_all _ tt)

  module _ (cfg : Config v) (a : OutputAdapter) (rt : Runtime) (accel id : String)
      (payload : Option Json) where
    -- A run that returns an error has stored no result and enqueued no webhook.
    pub handle_ffmpeg_command-IsQuiet :
        IsQuiet IsSilent (handle_ffmpeg_command {m = m} v cfg a rt accel id payload)
    unfolding handle_ffmpeg_command
    handle_ffmpeg_command-IsQuiet =
        IsQuiet-bind _ _ (Emits-map IsLook IsSilent _ IsSilent-IsLook (check_limits-Emits cfg rt))
          λ _.
            IsQuiet-bind _ _ (unmarshal_request-Emits payload)
              λ req. in_job_dir-IsQuiet cfg id req a accel
