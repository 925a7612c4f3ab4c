-- ===== src/Pipeline/Fine.antt =====
-- A job and a delivery where nothing fails.
use burrowcode.Base.{String, ◌≡◌, refl, ap, true, false, some, [], ◌∷◌, ◌==◌}
use burrowcode.Golang.Errors.{ok}
use burrowcode.Os.{Values, Machine, Body, Task, enqueue, send, write_result}
use burrowcode.Os.Act.{State}
use burrowcode.Os.Calls.{IsCalled}
use burrowcode.Os.Gives.{Any, Gives}
use burrowcode.Os.Helpful.{IsHelpful}
use burrowcode.Adapters.{upload}
use burrowcode.System.Hardware.{accel_name}
use burrowcode.Worker.Request.{
  CommandRequest, CommandResult, decode_request, webhook_body, encode_result,
}
use burrowcode.Worker.Handle.{check_limits, webhook_task}
use burrowcode.Worker.Handle.Reported.{
  notices, IsReported, handle_ffmpeg_command-IsReported, handle_ffmpeg_command-ends,
}
use burrowcode.Contract.Webhook.{delivery-webhook_payload}
use burrowcode.Webhooks.{decode_payload}
use burrowcode.Webhooks.Start.{start_webhooks}
use burrowcode.Webhooks.Delivery.{IsDelivered, handle_webhook_deliver-IsDelivered}
use burrowcode.Webhooks.Success.{handle_webhook_deliver-ends}
use burrowcode.Pipeline.{Deployment, run_job, run_delivery}
use burrowcode.Pipeline.Membership.{IsCalled-append, IsCalled-last, IsCalled-end}

-- Nothing fails: the calls go well, the worker's adapter stores what it is given, and its host has the
-- memory.
pub record IsFine {v : Values} (d : Deployment v) (m : Machine) : Type 0 where
  pub helpful : IsHelpful m
  pub stores :
      (source dest : String) → Gives {m = m} Any (upload d.worker.storage_adapter source dest)
  pub fits : (s : State m) → (check_limits v d.worker.cfg d.runtime s).0 ≡ ok tt

module _ {v : Values} {m : Machine} (d : Deployment v) (fine : IsFine d m) where
  pub job-IsReported :
      (id : String) (t : Task) (st : State m)
      → (decode_request (some t.payload)).1 ≡ true
      → IsReported v d.worker.cfg id (decode_request (some t.payload)).0 st (run_job d id t st)
  unfolding run_job
  job-IsReported id t st reads =
      let accel = accel_name d.worker.hw_capabilities.accel_type in
      let adapter = d.worker.storage_adapter in
      handle_ffmpeg_command-IsReported v d.worker.cfg adapter d.runtime accel id (some t.payload) st
        (handle_ffmpeg_command-ends v d.worker.cfg adapter d.runtime accel id (some t.payload) st
          fine.helpful fine.stores (fine.fits st) reads)

  delivery-IsDelivered :
      (t : Task) (st : State m)
      → (decode_payload (some t.payload)).1 ≡ true
      → IsDelivered d.remarshal (some t.payload) st (run_delivery d t st)
  unfolding run_delivery
  delivery-IsDelivered t st reads =
      handle_webhook_deliver-IsDelivered d.remarshal (some t.payload) st
        (handle_webhook_deliver-ends fine.helpful d.remarshal (some t.payload) st reads)

  -- the notice of a result
  abbrev pub notice_of : CommandRequest → String → CommandResult v → Task
  notice_of read id result = webhook_task v d.worker.cfg read.webhook id result read

  notices-one :
      (id : String) (read : CommandRequest) (result : CommandResult v)
      → (read.webhook == "") ≡ false
      → notices v d.worker.cfg id read result ≡ enqueue (notice_of read id result) ∷ []
  notices-one id read result e = rw e refl

  pub IsReported-notice :
      (id : String) (read : CommandRequest) (st st' : State m)
      (p : IsReported v d.worker.cfg id read st st')
      → (read.webhook == "") ≡ false
      → IsCalled (enqueue (notice_of read id p.result)) st'.calls
  IsReported-notice id read st st' p e = rw p.calls (
      rw (notices-one id read p.result e)
        (IsCalled-append _ _ _ (IsCalled-append _ _ _ (IsCalled-last _ p.middle.calls))))

  pub IsReported-result :
      (id : String) (read : CommandRequest) (st st' : State m)
      (p : IsReported v d.worker.cfg id read st st')
      → IsCalled (write_result (encode_result v p.result)) st'.calls
  IsReported-result id read st st' p = rw p.calls (IsCalled-append _ _ _ (IsCalled-last _ _))

  pub notice_served :
      (read : CommandRequest) (id : String) (result : CommandResult v)
      → d.asynq.serves (start_webhooks d.webhook_env).server (notice_of read id result) ≡ true
  unfolding start_webhooks webhook_task
  notice_served read id result =
      d.asynq.of_type (start_webhooks d.webhook_env).server (notice_of read id result) refl refl

  -- the delivery of a notice
  pub notice-IsDelivered :
      (read : CommandRequest) (id : String) (result : CommandResult v) (st : State m)
      → IsCalled
          (send (record {
            method = "POST";
            url = read.webhook;
            headers = ("Content-Type", "application/json") ∷ [];
            body = Body.json (d.remarshal (webhook_body v id result read));
          }))
          (run_delivery d (notice_of read id result) st).calls
  unfolding webhook_task
  notice-IsDelivered read id result st =
      let (reads, asked) = delivery-webhook_payload v d.remarshal read.webhook id result read in
      let t = notice_of read id result in
      IsCalled-end _ _ _ _ (delivery-IsDelivered t st reads).sent.calls (ap send asked)
