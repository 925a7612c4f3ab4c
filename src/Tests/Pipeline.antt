-- ===== src/Tests/Pipeline.antt =====
-- A request, the job for it and the delivery of its notice.
use burrowcode.Base.{
  Bool, ◌≡◌, refl, true, Option, none, some, List, [], ◌∷◌, ◌==◌, if◌then◌else◌, ◌&&◌, arith,
  if_both, ap,
}
use burrowcode.Json.{text_map}
use burrowcode.Os.{Call, Task, enqueue}
use burrowcode.Os.Act.{State, perform, pure, ◌>>=◌}
use burrowcode.Os.Calls.{IsCalled, first, later}
use burrowcode.Os.Queue.{Asynq, has_queue, has_handler}
use burrowcode.System.Hardware.{capabilities, hw_none}
use burrowcode.Api.Codec.Request.RoundTrip.{with_output_files}
use burrowcode.Api.Handlers.{command_task}
use burrowcode.Api.Http.{serve}
use burrowcode.Api.Front.{Content, cors_middleware, serve_mux, route, serve_front}
use burrowcode.Golang.Errors.{ok}
use burrowcode.Json.{string}
use burrowcode.Worker.Start.{worker_server}
use burrowcode.Webhooks.{decode_payload}
use burrowcode.Webhooks.Start.{start_webhooks}
use burrowcode.Pipeline.{Deployment, Reach, here, next, request, job, run_job}
use burrowcode.Pipeline.Sound.Handled.{IsHandled, IsWanted, Reach-IsHandled, Reach-IsWanted}
use burrowcode.Tests.Fixture.{whole, host, initial, defaults, store, linux, unset}
use burrowcode.Tests.Http.{wanted, settings, service, posted}
use burrowcode.Tests.Worker.{worker}

pub both-left : (a b : Bool) → a && b ≡ true → a ≡ true
both-left a b h = grind arith

pub both_true : (a b : Bool) → a ≡ true → b ≡ true → a && b ≡ true
both_true a b h k = grind arith

abbrev pub asynq : Asynq
asynq = record {
  serves = λ server task.
      has_queue server.queues task.queue && has_handler server.patterns task.type_name;
  of_queue = λ server task h. both-left _ _ h;
  of_type = λ server task h k. both_true _ _ h k;
}

abbrev pub deployment : Deployment whole
deployment = record {
  api = record {
    service = service;
    yaml_to_json = λ lines. ok (string "");
    moved = λ path. record { status = 301; headers = []; content = Content.nothing };
  };
  worker = record {
    cfg = defaults;
    hw_capabilities = capabilities hw_none;
    storage_adapter = store;
    server = worker_server defaults;
  };
  runtime = linux;
  asynq = asynq;
  webhook_env = unset;
  remarshal = λ j. j;
}

abbrev command : Task
command = command_task settings (with_output_files wanted)

abbrev asked : State host
asked = (serve_front {m = host} deployment.api "POST" "/v1/commands" posted initial).1

command-IsCalled : IsCalled (enqueue command) asked.calls
unfolding serve_front cors_middleware serve_mux route serve pure ◌>>=◌ perform
command-IsCalled = first refl

abbrev asked_reached : Reach deployment initial asked
asked_reached = next here (request "POST" "/v1/commands" posted initial)

Reach-IsHandled_example : IsHandled deployment command
Reach-IsHandled_example = Reach-IsHandled deployment refl asked_reached command command-IsCalled

abbrev job_done : State host
job_done = run_job deployment "7f3a" command asked

command_is_served : asynq.serves (worker_server defaults) command ≡ true
unfolding worker_server command_task
command_is_served = refl

abbrev job_reached : Reach deployment initial job_done
job_reached = next asked_reached (job command "7f3a" asked command-IsCalled command_is_served)

-- the task of the first notice
abbrev find_notice : List Call → Option Task
find_notice [] = none
find_notice (enqueue t ∷ calls) = if t.queue == "webhooks" then some t else find_notice calls
find_notice (c ∷ calls) = find_notice calls

abbrev got : Option Task
got = find_notice job_done.calls

abbrev notice_or : Option Task → Task
notice_or none = command
notice_or (some t) = t

abbrev notice : Task
notice = notice_or got

notice_found : got ≡ some notice
unfolding worker serve_front cors_middleware serve_mux route serve perform pure ◌>>=◌ run_job
    command_task text_map
notice_found = refl

find_notice-IsCalled :
    (calls : List Call) (t : Task) → find_notice calls ≡ some t → IsCalled (enqueue t) calls
find_notice-IsCalled [] t e = absurd (cc e)
find_notice-IsCalled (enqueue u ∷ calls) t e =
    if_both (λ found. found ≡ some t → IsCalled (enqueue t) (enqueue u ∷ calls))
      (u.queue == "webhooks") (some u) (find_notice calls)
      (λ e. first (ap enqueue (ap notice_or e))) (λ e. later (find_notice-IsCalled calls t e)) e
find_notice-IsCalled (c ∷ calls) t e = later (find_notice-IsCalled calls t e)

notice_served : asynq.serves (start_webhooks unset).server notice ≡ true
unfolding worker serve_front cors_middleware serve_mux route serve perform pure ◌>>=◌ run_job
    command_task text_map start_webhooks
notice_served = refl

Reach-IsWanted_example :
    IsWanted deployment job_done.calls (decode_payload (some notice.payload)).0.url
Reach-IsWanted_example =
    Reach-IsWanted deployment refl job_reached notice
      (find_notice-IsCalled job_done.calls notice notice_found) notice_served
