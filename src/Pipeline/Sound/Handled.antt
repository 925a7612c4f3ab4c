-- ===== src/Pipeline/Sound/Handled.antt =====
-- Every task of the queue has a service that takes it, reads it and knows who asked for it.
use burrowcode.Base.{String, ◌≡◌, ◌⊎◌, inl, inr, refl, sym, ◌∙◌, true, false, some, List, [], ◌==◌}
use burrowcode.Os.{Values, Machine, Call, Task, enqueue}
use burrowcode.Os.Act.{State}
use burrowcode.Os.Calls.{IsCalled}
use burrowcode.Os.Queue.{has_queue}
use burrowcode.Api.Types.{CommandRequest}
use burrowcode.Api.Handlers.{text_or_empty, to_worker, command_task}
use burrowcode.Api.Laws.{is_complete}
use burrowcode.Contract.{IsReceived, decode_request-encode_worker_request}
use burrowcode.Contract.Webhook.{decode_payload-webhook_payload}
use burrowcode.Worker.Request.{decode_request}
use burrowcode.Worker.Start.{worker_server}
use burrowcode.Worker.Handle.{webhook_task}
use burrowcode.Webhooks.{decode_payload}
use burrowcode.Webhooks.Start.{start_webhooks}
use burrowcode.Pipeline.{Deployment, Reach}
use burrowcode.Pipeline.Requests.{HasKeysOnce-IfSet}
use burrowcode.Pipeline.Sound.{IsCommandTask, IsWebhookTask, Reach-IsSound}

-- a task that the worker is given and decodes, or one that the webhook service is and does
abbrev pub IsHandled : {v : Values} → Deployment v → Task → Type 0
IsHandled d t =
    ((d.asynq.serves (worker_server d.worker.cfg) t ≡ true)
      × ((decode_request (some t.payload)).1 ≡ true))
    ⊎ ((d.asynq.serves (start_webhooks d.webhook_env).server t ≡ true)
        × ((decode_payload (some t.payload)).1 ≡ true))

-- A client posted a complete request for a webhook at `url`, whose task is on the queue.
pub record IsWanted {v : Values} (d : Deployment v) (calls : List Call) (url : String)
    : Type 0 where
  pub request : CommandRequest
  pub complete : is_complete request ≡ true
  pub enqueued : IsCalled (enqueue (command_task d.api.service.settings request)) calls
  pub webhook : url ≡ text_or_empty request.webhook
  pub asked : (url == "") ≡ false

module _ {v : Values} (d : Deployment v) where
  -- what the worker reads of the task of a command
  pub command-IsReceived :
      (t : Task) (c : IsCommandTask d t)
      → ((decode_request (some t.payload)).1 ≡ true)
        × IsReceived (to_worker c.request) (decode_request (some t.payload)).0
  unfolding command_task to_worker
  command-IsReceived t c = rw c.task (
      decode_request-encode_worker_request (to_worker c.request)
        (HasKeysOnce-IfSet c.request.input_files c.keys.input_files)
        (HasKeysOnce-IfSet c.request.output_files c.keys.output_files))

  pub command_served :
      (t : Task) → IsCommandTask d t → d.asynq.serves (worker_server d.worker.cfg) t ≡ true
  unfolding worker_server command_task
  command_served t c = rw c.task (
      d.asynq.of_type (worker_server d.worker.cfg) (command_task d.api.service.settings c.request)
        refl refl)

  pub webhook_served :
      (calls : List Call) (t : Task)
      → IsWebhookTask d calls t
      → d.asynq.serves (start_webhooks d.webhook_env).server t ≡ true
  unfolding start_webhooks webhook_task
  webhook_served calls t w =
      rw w.notice.task (d.asynq.of_type (start_webhooks d.webhook_env).server _ refl refl)

  command_unserved :
      (t : Task)
      → IsCommandTask d t
      → has_queue (start_webhooks d.webhook_env).server.queues t.queue ≡ false
  unfolding start_webhooks command_task
  command_unserved t c = rw c.task refl

  -- what the webhook service reads of a notice
  pub notice_received :
      (calls : List Call) (t : Task) (w : IsWebhookTask d calls t)
      → ((decode_payload (some t.payload)).1 ≡ true)
        × ((decode_payload (some t.payload)).0.url
            ≡ (decode_request (some w.origin.payload)).0.webhook)
  unfolding webhook_task
  notice_received calls t w =
      let req = (decode_request (some w.origin.payload)).0 in
      rw w.notice.task (decode_payload-webhook_payload v req.webhook w.id w.notice.result req)

  -- In every state that the services can reach, in whatever order they work: a task on the queue is
  -- served by the worker or by the webhook service, and the one that serves it decodes its payload
  -- without an error.
  pub Reach-IsHandled :
      {m : Machine} {st st' : State m}
      → st.calls ≡ []
      → Reach d st st'
      → (t : Task) → IsCalled (enqueue t) st'.calls
      → IsHandled d t
  Reach-IsHandled {st'} e r t i = elim ((Reach-IsSound d e r).each t i) [
    | inl c ↦ inl (command_served t c, (command-IsReceived t c).0)
    | inr w ↦ inr (webhook_served st'.calls t w, (notice_received st'.calls t w).0)
  ]

  -- In every state that the services can reach: a task that the webhook service is given goes to a
  -- URL for which a client has posted a complete request, and the task of that request is on the
  -- queue.
  pub Reach-IsWanted :
      {m : Machine} {st st' : State m}
      → st.calls ≡ []
      → Reach d st st'
      → (t : Task) → IsCalled (enqueue t) st'.calls
      → d.asynq.serves (start_webhooks d.webhook_env).server t ≡ true
      → IsWanted d st'.calls (decode_payload (some t.payload)).0.url
  unfolding to_worker
  Reach-IsWanted {st'} e r t i served = elim ((Reach-IsSound d e r).each t i) [
    | inl c ↦
        absurd (
          cc
            (d.asynq.of_queue (start_webhooks d.webhook_env).server t served, command_unserved t c))
    | inr w ↦
        let got = (notice_received st'.calls t w).1 in
        record {
          request = w.command.request;
          complete = w.command.complete;
          enqueued = rw (sym w.command.task) w.enqueued;
          webhook = got ∙ (command-IsReceived w.origin w.command).1.webhook;
          asked = rw got w.notice.asked;
        }
  ]
