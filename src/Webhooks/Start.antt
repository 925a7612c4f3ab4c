-- ===== src/Webhooks/Start.antt =====
-- `main` of webhooks/main.go, up to the run of asynq's server. Log lines and the health server are
-- left out.
use burrowcode.Base.{String, [], ◌∷◌}
use burrowcode.Config.{Env, get_env, get_env_int}
use burrowcode.Golang.Int.{ℤ, pos, times_wrapped}
use burrowcode.Os.Queue.{QueueServer}

abbrev pub type_webhook_deliver : String
type_webhook_deliver = "webhook:deliver"

pub record WebhookService : Type 0 where
  -- the timeout of the HTTP client, in nanoseconds
  pub timeout : ℤ
  pub health_port : String
  pub server : QueueServer

unfoldable pub webhook_server : String → ℤ → QueueServer
webhook_server redis_addr concurrency = record {
  redis_addr = redis_addr;
  concurrency = concurrency;
  queues = ("webhooks", 1) ∷ [];
  patterns = type_webhook_deliver ∷ [];
}

unfoldable pub start_webhooks : Env → WebhookService
unfolding get_env get_env_int webhook_server times_wrapped
start_webhooks env = record {
  timeout = times_wrapped (get_env_int env "HTTP_TIMEOUT" (pos 10)) 1_000_000_000;
  health_port = get_env env "HEALTH_PORT" "8081";
  server =
      webhook_server (get_env env "REDIS_ADDR" "localhost:6379")
        (get_env_int env "CONCURRENCY" (pos 10));
}
