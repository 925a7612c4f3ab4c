-- ===== src/Pipeline/Sound.antt =====
-- What holds of the queue, whatever the services have done.
pub mod Handled
use burrowcode.Base.{
  String, ◌≡◌, ◌⊎◌, inl, inr, refl, sym, ap, ◌∙◌, true, false, some, List, [], ◌∷◌, ◌++◌, All, ◌==◌,
}
use mathlib.Core.Path.{subst}
use mathlib.Core.List.{append-nil}
use burrowcode.Golang.Strings.{has_prefix}
use burrowcode.Os.{Values, Machine, Call, Task, enqueue}
use burrowcode.Os.Act.{State}
use burrowcode.Os.Calls.{IsCalled, first, later}
use burrowcode.Os.Emits.{Added, Added-map, Emits-map}
use burrowcode.Os.Queue.{has_queue}
use burrowcode.Api.Types.{CommandRequest}
use burrowcode.Api.Codec.Request.Keys.{HasKeys}
use burrowcode.Api.Handlers.{command_task}
use burrowcode.Api.Laws.{is_complete}
use burrowcode.Api.Http.{Incoming, serve}
use burrowcode.Api.Front.{serve_front}
use burrowcode.Api.Front.Effects.{IsSpecRead, serve_front-IsFronted}
use burrowcode.Api.Http.Effects.{IsEnqueued, serve-calls}
use burrowcode.System.Hardware.{accel_name}
use burrowcode.Worker.Request.{decode_request}
use burrowcode.Worker.Start.{worker_server}
use burrowcode.Worker.Handle.{webhook_task}
use burrowcode.Pipeline.{
  Deployment, run_job, run_delivery, Step, request, job, delivery, elapse, Reach, here, next,
}
use burrowcode.Pipeline.Membership.{IsCalled-append, IsCalled-cases, All-IsCalled}
use burrowcode.Pipeline.Requests.{decode_create_command_request-HasKeys}
use burrowcode.Pipeline.Emitted.{
  EnqueuesOnly, IsNotice, Nothing, handle_ffmpeg_command-Emits, handle_webhook_deliver-Emits,
}

IsSpecRead-EnqueuesOnly : (P : Task → Type 0) (c : Call) → IsSpecRead c → EnqueuesOnly P c
IsSpecRead-EnqueuesOnly P (enqueue t) h = absurd h
IsSpecRead-EnqueuesOnly P _ h = tt

module _ {v : Values} (d : Deployment v) where
  -- the task of a complete request that was posted to the API
  pub record IsCommandTask (t : Task) : Type 0 where
    pub request : CommandRequest
    pub task : t ≡ command_task d.api.service.settings request
    pub complete : is_complete request ≡ true
    pub keys : HasKeys request

  -- the notice of a job, whose task was enqueued
  pub record IsWebhookTask (calls : List Call) (t : Task) : Type 0 where
    pub origin : Task
    pub enqueued : IsCalled (enqueue origin) calls
    pub command : IsCommandTask origin
    pub id : String
    pub notice : IsNotice d.worker.cfg id (decode_request (some origin.payload)).0 t

  abbrev pub IsSoundTask : List Call → Task → Type 0
  IsSoundTask calls t = IsCommandTask t ⊎ IsWebhookTask calls t

  -- every task on the queue is of one of the two kinds
  pub record IsSound (calls : List Call) : Type 0 where
    pub each : (t : Task) → IsCalled (enqueue t) calls → IsSoundTask calls t

  IsSoundTask-append :
      (calls new : List Call) (t : Task) → IsSoundTask calls t → IsSoundTask (calls ++ new) t
  IsSoundTask-append calls new t (inl c) = inl c
  IsSoundTask-append calls new t (inr w) = inr (record {
    origin = w.origin;
    enqueued = IsCalled-append (enqueue w.origin) calls new w.enqueued;
    command = w.command;
    id = w.id;
    notice = w.notice;
  })

  -- A run that adds calls keeps the queue sound where each task that it adds is sound.
  IsSound-append :
      (calls new : List Call)
      → IsSound calls
      → All (EnqueuesOnly (IsSoundTask calls)) new
      → IsSound (calls ++ new)
  IsSound-append calls new h n = record {
    each = λ t i. elim (IsCalled-cases (enqueue t) calls new i) [
      | inl old ↦ IsSoundTask-append calls new t (h.each t old)
      | inr added ↦
          IsSoundTask-append calls new t
            (All-IsCalled (EnqueuesOnly (IsSoundTask calls)) (enqueue t) new n added)
    ];
  }

  module _ {m : Machine} where
    IsSound-Added :
        (st st' : State m)
        → IsSound st.calls
        → Added (EnqueuesOnly (IsSoundTask st.calls)) st st'
        → IsSound st'.calls
    IsSound-Added st st' h a = rw a.extends (IsSound-append st.calls a.new h a.each)

    -- what the generated server does
    serve-IsSound :
        (method path : String) (r : Incoming) (st : State m)
        → IsSound st.calls
        → IsSound (serve d.api.service method path r st).1.calls
    serve-IsSound method path r st h = elim (serve-calls d.api.service r method path st) [
      | inl same ↦ rw same h
      | inr (reached, e) ↦ rw e.calls (
          IsSound-append st.calls (enqueue (command_task d.api.service.settings e.request) ∷ []) h (
            inl (record {
              request = e.request;
              task = refl;
              complete = e.complete;
              keys = decode_create_command_request-HasKeys d.api.service.jx r e.request e.spelled;
            }),
            tt,
          ))
    ]

    serve_front-IsSound :
        (method path : String) (r : Incoming) (st : State m)
        → IsSound st.calls
        → IsSound (serve_front d.api method path r st).1.calls
    serve_front-IsSound method path r st h =
        let st' = (serve_front {m = m} d.api method path r st).1 in
        let Sound = IsSoundTask st.calls in
        elim (serve_front-IsFronted d.api method path r st).either [
          | inl read ↦ IsSound-Added st st' h (
              Added-map IsSpecRead (EnqueuesOnly Sound) (IsSpecRead-EnqueuesOnly Sound) st st' read)
          | inr same ↦ rw same (serve-IsSound method path r st h)
        ]

  webhook_task_unserved :
      (calls : List Call) (t : Task)
      → IsWebhookTask calls t
      → has_queue (worker_server d.worker.cfg).queues t.queue ≡ false
  unfolding worker_server webhook_task
  webhook_task_unserved calls t w = rw w.notice.task refl

  -- A task of the queue that the worker serves is a command.
  pub served-IsCommandTask :
      (calls : List Call) (t : Task)
      → IsSound calls
      → IsCalled (enqueue t) calls
      → d.asynq.serves (worker_server d.worker.cfg) t ≡ true
      → IsCommandTask t
  served-IsCommandTask calls t h i served = elim (h.each t i) [
    | inl c ↦ c
    | inr w ↦ absurd (
        cc
          (d.asynq.of_queue (worker_server d.worker.cfg) t served, webhook_task_unserved calls t w))
  ]

  EnqueuesOnly-map :
      (P Q : Task → Type 0)
      → ((t : Task) → P t → Q t)
      → (c : Call) → EnqueuesOnly P c
      → EnqueuesOnly Q c
  EnqueuesOnly-map P Q f (enqueue t) h = f t h
  EnqueuesOnly-map P Q f _ h = tt

  module _ {m : Machine} where
    run_job-IsSound :
        (t : Task) (id : String) (st : State m)
        → IsSound st.calls
        → IsCalled (enqueue t) st.calls
        → d.asynq.serves (worker_server d.worker.cfg) t ≡ true
        → IsSound (run_job d id t st).calls
    unfolding run_job
    run_job-IsSound t id st h i served =
        let Sound = IsSoundTask st.calls in
        let notice = IsNotice d.worker.cfg id (decode_request (some t.payload)).0 in
        let accel = accel_name d.worker.hw_capabilities.accel_type in
        let emits =
          handle_ffmpeg_command-Emits {m = m} v d.worker.cfg id d.worker.storage_adapter d.runtime
            accel (some t.payload) in
        let to_sound = λ (t' : Task) (n : notice t'). inr (record {
          origin = t;
          enqueued = i;
          command = served-IsCommandTask st.calls t h i served;
          id = id;
          notice = n;
        }) in
        IsSound-Added st (run_job d id t st) h (
          (Emits-map (EnqueuesOnly notice) (EnqueuesOnly Sound) _
              (EnqueuesOnly-map notice Sound to_sound) emits).at
            st)

    run_delivery-IsSound :
        (t : Task) (st : State m) → IsSound st.calls → IsSound (run_delivery d t st).calls
    unfolding run_delivery
    run_delivery-IsSound t st h =
        let Sound = IsSoundTask st.calls in
        let emits = handle_webhook_deliver-Emits {m = m} d.remarshal (some t.payload) in
        IsSound-Added st (run_delivery d t st) h (
          (Emits-map (EnqueuesOnly Nothing) (EnqueuesOnly Sound) _
              (EnqueuesOnly-map Nothing Sound λ t' none. absurd none) emits).at
            st)

    Step-IsSound : {st st' : State m} → Step d st st' → IsSound st.calls → IsSound st'.calls
    Step-IsSound (request method path r st) h = serve_front-IsSound method path r st h
    Step-IsSound (job t id st i served) h = run_job-IsSound t id st h i served
    Step-IsSound (delivery t st i served) h = run_delivery-IsSound t st h
    Step-IsSound (elapse w st) h = h

    nothing-IsSound : (st : State m) → st.calls ≡ [] → IsSound st.calls
    nothing-IsSound st e = rw e (record { each = λ t i. elim i [ ] })

    -- Whatever the services do, in any order: every task on the queue is that of a complete request
    -- that was posted to the API, or the notice of a job whose task is one of these.
    pub Reach-IsSound : {st st' : State m} → st.calls ≡ [] → Reach d st st' → IsSound st'.calls
    Reach-IsSound {st} e here = nothing-IsSound st e
    Reach-IsSound e (next r s) = Step-IsSound s (Reach-IsSound e r)
