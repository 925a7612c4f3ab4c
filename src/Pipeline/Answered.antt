-- ===== src/Pipeline/Answered.antt =====
-- What becomes of a command where nothing fails.
use mathlib.Core.Path.{subst}
use burrowcode.Base.{String, ◌≡◌, refl, inr, true, false, some, [], ◌∷◌, ◌==◌}
use burrowcode.Os.{Values, Machine, Body, Request, Task, enqueue, send, write_result}
use burrowcode.Os.Act.{State}
use burrowcode.Os.Calls.{IsCalled}
use burrowcode.Api.Types.{CommandRequest}
use burrowcode.Api.Handlers.{text_or_empty, to_worker, command_task}
use burrowcode.Api.Laws.{is_complete}
use burrowcode.Api.Http.{Incoming, decode_create_command_request}
use burrowcode.Api.Front.{serve_front}
use burrowcode.Api.Front.Effects.{serve_front-enqueues}
use burrowcode.Worker.Request.{CommandResult, decode_request, webhook_body, encode_result}
use burrowcode.Pipeline.Fine.{
  IsFine, job-IsReported, IsReported-notice, IsReported-result, notice_of, notice_served,
  notice-IsDelivered,
}
use burrowcode.Worker.Start.{worker_server}
use burrowcode.Webhooks.Start.{start_webhooks}
use burrowcode.Pipeline.{Deployment, run_job, run_delivery}
use burrowcode.Pipeline.Membership.{IsCalled-last}
use burrowcode.Pipeline.Requests.{decode_create_command_request-HasKeys}
use burrowcode.Pipeline.Sound.{IsCommandTask}
use burrowcode.Pipeline.Sound.Handled.{command-IsReceived, command_served}

-- the request that carries the result of a job to the webhook
abbrev pub answer_to :
    {v : Values} → Deployment v → CommandRequest → String → CommandResult v → Request
answer_to {v} d req id result =
    let read = (decode_request (some (command_task d.api.service.settings req).payload)).0 in
    record {
      method = "POST";
      url = text_or_empty req.webhook;
      headers = ("Content-Type", "application/json") ∷ [];
      body = Body.json (d.remarshal (webhook_body v id result read));
    }

-- the state that the request leaves when it is posted
abbrev pub posted : {v : Values} {m : Machine} → Deployment v → Incoming → State m → State m
posted d r st = (serve_front d.api "POST" "/v1/commands" r st).1

-- What follows when a request is posted that the API decodes to `req`. The post puts the task of
-- `req` on the queue, and the worker is given it; its job, as the task `id`, writes a result and puts
-- a notice on the queue, which the webhook service is given; the delivery of that notice sends the
-- result to the webhook of `req`.
pub record IsAnswered {v : Values} {m : Machine} (d : Deployment v) (r : Incoming)
    (req : CommandRequest) (id : String) (st : State m) : Type 0 where
  pub queued : IsCalled (enqueue (command_task d.api.service.settings req)) (posted d r st).calls
  pub given :
      d.asynq.serves (worker_server d.worker.cfg) (command_task d.api.service.settings req) ≡ true
  pub result : CommandResult v
  pub notice : Task
  pub written :
      IsCalled
        (write_result (encode_result v result))
        (run_job d id (command_task d.api.service.settings req) (posted d r st)).calls
  pub noticed :
      IsCalled
        (enqueue notice)
        (run_job d id (command_task d.api.service.settings req) (posted d r st)).calls
  pub taken : d.asynq.serves (start_webhooks d.webhook_env).server notice ≡ true
  pub sent :
      IsCalled
        (send (answer_to d req id result))
        (run_delivery d notice
          (run_job d id (command_task d.api.service.settings req) (posted d r st))).calls

module _ {v : Values} {m : Machine} (d : Deployment v) (fine : IsFine d m) where
  -- Where nothing fails, a complete request with a webhook that is posted to /v1/commands is
  -- answered: the post puts its task on the queue, of which the worker is given it; the job for that
  -- task writes a result and puts a notice on the queue, of which the webhook service is given it; and
  -- the delivery of that notice sends the result to the request's webhook.
  pub posted-IsAnswered :
      (r : Incoming) (req : CommandRequest) (st : State m) (id : String)
      → decode_create_command_request d.api.service.jx r ≡ inr req
      → is_complete req ≡ true
      → (text_or_empty req.webhook == "") ≡ false
      → IsAnswered d r req id st
  unfolding to_worker
  posted-IsAnswered r req st id reads complete asked =
      let t = command_task d.api.service.settings req in
      let command : IsCommandTask d t = record {
        request = req;
        task = refl;
        complete = complete;
        keys = decode_create_command_request-HasKeys d.api.service.jx r req reads;
      } in
      let read = (decode_request (some t.payload)).0 in
      let (decodes, same) = command-IsReceived d t command in
      let st1 = (serve_front d.api "POST" "/v1/commands" r st).1 in
      let st2 = run_job d id t st1 in
      let p = job-IsReported d fine id t st1 decodes in
      let n = notice_of d fine read id p.result in
      let hooked : (read.webhook == "") ≡ false = rw same.webhook asked in
      let queued : IsCalled (enqueue t) st1.calls =
        rw (serve_front-enqueues d.api r req st reads complete) (IsCalled-last _ st.calls) in
      record {
        queued = queued;
        given = command_served d t command;
        result = p.result;
        notice = n;
        written = IsReported-result d fine id read st1 st2 p;
        noticed = IsReported-notice d fine id read st1 st2 p hooked;
        taken = notice_served d fine read id p.result;
        sent =
            subst
              (λ url.
                IsCalled
                  (send (record {
                    method = "POST";
                    url = url;
                    headers = ("Content-Type", "application/json") ∷ [];
                    body = Body.json (d.remarshal (webhook_body v id p.result read));
                  }))
                  (run_delivery d n st2).calls)
              same.webhook (notice-IsDelivered d fine read id p.result st2);
      }
