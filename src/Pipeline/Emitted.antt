-- ===== src/Pipeline/Emitted.antt =====
-- The tasks that a run of a handler puts on the queue.
use burrowcode.Base.{String, ◌≡◌, refl, false, Option, ◌==◌, if_cases, if_both}
use burrowcode.Adapters.{OutputAdapter}
use burrowcode.Config.{Config}
use burrowcode.Json.{Json}
use burrowcode.Os.{Values, Machine, Call, Task, enqueue, write_result, mkdir_all, Response}
use burrowcode.Os.Act.{Act, pure, fail, ◌>>=◌}
use burrowcode.Os.Emits.{
  Emits, Added-refl, Emits-ask, Emits-pure, Emits-fail, Emits-bind, Emits-attempt, Emits-map,
  Emits-deferred, Emits-if,
}
use burrowcode.Os.Calls.{Emits-enqueue, Emits-remove_all, calls_rules}
use burrowcode.System.Resources.{Runtime}
use burrowcode.Worker.Request.{CommandRequest, CommandResult, decode_request, encode_result}
use burrowcode.Worker.Handle.{
  webhook_task, job_dir_of, enqueue_webhook, notify, publish, unmarshal_request, run_job,
  in_job_dir, handle_ffmpeg_command,
}
use burrowcode.Worker.Handle.Quiet.{IsSilent, produce-Emits}
use burrowcode.Worker.Handle.Outcomes.{IsLook, IsSilent-IsLook, check_limits-Emits}
use burrowcode.Webhooks.{
  WebhookPayload, decode_payload, check_status, deliver, unmarshal_payload, handle_webhook_deliver,
}

-- every task that is enqueued meets `P`
abbrev pub EnqueuesOnly : (Task → Type 0) → Call → Type 0
EnqueuesOnly P (enqueue t) = P t
EnqueuesOnly P _ = Unit

EnqueuesOnly-IsSilent : (P : Task → Type 0) (c : Call) → IsSilent c → EnqueuesOnly P c
EnqueuesOnly-IsSilent P (enqueue t) h = absurd h
EnqueuesOnly-IsSilent P _ h = tt

-- the notice of a job, for a request that asks for one
pub record IsNotice {v : Values} (cfg : Config v) (id : String) (req : CommandRequest) (t : Task)
    : Type 0 where
  pub result : CommandResult v
  pub task : t ≡ webhook_task v cfg req.webhook id result req
  pub asked : (req.webhook == "") ≡ false

module _ {m : Machine} (v : Values) (cfg : Config v) (id : String) where
  module _ (req : CommandRequest) where
    notify-Emits :
        (r : CommandResult v)
        → Emits (EnqueuesOnly (IsNotice cfg id req)) (notify {m = m} v cfg id req r)
    unfolding notify enqueue_webhook
    notify-Emits r =
        if_cases (λ act. Emits (EnqueuesOnly (IsNotice cfg id req)) act) (req.webhook == "")
          (pure tt) (enqueue_webhook v cfg req.webhook id r req) (λ e. Emits-pure tt)
          λ e.
            Emits-bind _ _
              (Emits-attempt _ (Emits-enqueue _ (record { result = r; task = refl; asked = e })))
              λ _. Emits-pure tt

    in_job_dir-Emits :
        (a : OutputAdapter) (accel : String)
        → Emits (EnqueuesOnly (IsNotice cfg id req)) (in_job_dir {m = m} v cfg a accel id req)
    unfolding in_job_dir run_job publish
    in_job_dir-Emits a accel =
        let dir = job_dir_of v cfg id in
        Emits-bind _ _ (Emits-ask (mkdir_all dir) tt) λ _.
          Emits-deferred _ _
            (Emits-bind _ _
              (Emits-map IsSilent _ _ (EnqueuesOnly-IsSilent (IsNotice cfg id req))
                (produce-Emits v a accel id dir req))
              λ r.
                Emits-bind _ _ (notify-Emits r)
                  λ _. Emits-ask (write_result (encode_result v r)) tt)
            (Emits-remove_all dir tt)

  read_first :
      (Q : Call → Type 0) (payload : Option Json) (f : CommandRequest → Act m Unit)
      → Emits Q (f (decode_request payload).0)
      → Emits Q (unmarshal_request v payload >>= f)
  unfolding unmarshal_request ◌>>=◌ pure fail
  read_first Q payload f h =
      if_both (λ (act : Act m CommandRequest). Emits Q (act >>= f)) (decode_request payload).1
        (pure (decode_request payload).0) (fail "unmarshal: json: cannot unmarshal")
        (record { at = λ s. h.at s }) (record { at = λ s. Added-refl s })

  -- A job enqueues no task but the notice that its request asks for.
  pub handle_ffmpeg_command-Emits :
      (a : OutputAdapter) (rt : Runtime) (accel : String) (payload : Option Json)
      → Emits
          (EnqueuesOnly (IsNotice cfg id (decode_request payload).0))
          (handle_ffmpeg_command {m = m} v cfg a rt accel id payload)
  unfolding handle_ffmpeg_command
  handle_ffmpeg_command-Emits a rt accel payload =
      let Only = EnqueuesOnly (IsNotice cfg id (decode_request payload).0) in
      Emits-bind _ _
        (Emits-map IsLook Only _ (λ c h. EnqueuesOnly-IsSilent _ c (IsSilent-IsLook c h))
          (check_limits-Emits v cfg rt))
        λ _.
          read_first Only payload (in_job_dir v cfg a accel id)
            (in_job_dir-Emits (decode_request payload).0 a accel)

-- no task
abbrev pub Nothing : Task → Type 0
Nothing t = ⊥

module _ {m : Machine} where
  check_status-Emits : (r : Response) → Emits (EnqueuesOnly Nothing) (check_status {m = m} r)
  unfolding check_status
  check_status-Emits r = Emits-if _ _ _ (Emits-fail _) (Emits-pure tt)

  deliver-Emits :
      (remarshal : Json → Json) (p : WebhookPayload)
      → Emits (EnqueuesOnly Nothing) (deliver {m = m} remarshal p)
  unfolding deliver
  deliver-Emits remarshal p = search (calls_rules, check_status-Emits)

  unmarshal_payload-Emits :
      (payload : Option Json) → Emits (EnqueuesOnly Nothing) (unmarshal_payload {m = m} payload)
  unfolding unmarshal_payload
  unmarshal_payload-Emits payload =
      Emits-if (decode_payload payload).1 _ _ (Emits-pure _) (Emits-fail _)

  -- A delivery enqueues no task.
  pub handle_webhook_deliver-Emits :
      (remarshal : Json → Json) (payload : Option Json)
      → Emits (EnqueuesOnly Nothing) (handle_webhook_deliver {m = m} remarshal payload)
  unfolding handle_webhook_deliver
  handle_webhook_deliver-Emits remarshal payload =
      Emits-bind _ _ (unmarshal_payload-Emits payload) (deliver-Emits remarshal)
