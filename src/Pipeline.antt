-- ===== src/Pipeline.antt =====
-- The three services at work on one queue: requests to the API (api/main.go), jobs of the worker
-- (worker/main.go) and deliveries of the webhook service (webhooks/main.go), in any order and number.
-- A run of a handler is one step, and asynq gives a service the tasks that were enqueued and that it
-- serves, each as often as it likes: again after a failure, or not at all.
pub mod Membership
pub mod Requests
pub mod Emitted
pub mod Sound
pub mod Fine
pub mod Answered
use burrowcode.Base.{String, Bool, true, some, ◌≡◌}
use burrowcode.Config.{Env}
use burrowcode.Json.{Json}
use burrowcode.Os.{Values, Machine, Task, enqueue}
use burrowcode.Os.Act.{State}
use burrowcode.Os.Queue.{Asynq}
use burrowcode.Os.Calls.{IsCalled}
use burrowcode.System.Hardware.{accel_name}
use burrowcode.System.Resources.{Runtime}
use burrowcode.Api.Http.{Incoming}
use burrowcode.Api.Front.{Front, serve_front}
use burrowcode.Worker.Start.{Worker, worker_server}
use burrowcode.Worker.Handle.{handle_ffmpeg_command}
use burrowcode.Webhooks.Start.{start_webhooks}
use burrowcode.Webhooks.{handle_webhook_deliver}

-- what runs: the API, a worker on its host, and the webhook service
pub record Deployment (v : Values) : Type 0 where
  pub api : Front v
  pub worker : Worker v
  pub runtime : Runtime
  pub asynq : Asynq
  -- the environment of the webhook service
  pub webhook_env : Env
  pub remarshal : Json → Json

module _ {m : Machine} {v : Values} where
  unfoldable pub run_job : Deployment v → String → Task → State m → State m
  run_job d id t st =
      (handle_ffmpeg_command v d.worker.cfg d.worker.storage_adapter d.runtime
        (accel_name d.worker.hw_capabilities.accel_type) id (some t.payload) st).1

  unfoldable pub run_delivery : Deployment v → Task → State m → State m
  run_delivery d t st = (handle_webhook_deliver d.remarshal (some t.payload) st).1

  -- What can happen next; `elapse` is what others do to the world.
  pub data Step (d : Deployment v) : State m → State m → Type 0 where
    request :
        (method path : String) (r : Incoming) (st : State m)
        → Step d st (serve_front d.api method path r st).1
    job :
        (t : Task) (id : String) (st : State m)
        → IsCalled (enqueue t) st.calls
        → d.asynq.serves (worker_server d.worker.cfg) t ≡ true
        → Step d st (run_job d id t st)
    delivery :
        (t : Task) (st : State m)
        → IsCalled (enqueue t) st.calls
        → d.asynq.serves (start_webhooks d.webhook_env).server t ≡ true
        → Step d st (run_delivery d t st)
    elapse : (w : m.World) (st : State m) → Step d st (record st { world = w })

  pub data Reach (d : Deployment v) (st : State m) : State m → Type 0 where
    here : Reach d st st
    next : {t u : State m} → Reach d st t → Step d t u → Reach d st u
