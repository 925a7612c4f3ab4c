-- ===== src/Worker/Start.antt =====
-- `main` of worker/main.go, up to the run of asynq's server. Log lines are left out.
use burrowcode.Base.{none, [], ◌∷◌, if◌then◌else◌}
use burrowcode.Adapters.{OutputAdapter, new_adapter}
use burrowcode.Config.{Env, Config, load}
use burrowcode.Os.{Values, Machine, mkdir_all}
use burrowcode.Os.Act.{Act, ask, annotate, pure, ◌>>=◌, ◌>>◌}
use burrowcode.Os.Queue.{QueueServer}
use burrowcode.System.Hardware.{HardwareCapabilities, detect_hardware_acceleration}
use burrowcode.System.Resources.{Runtime, get_resource_status}
use burrowcode.Worker.Request.{type_ffmpeg_command}

-- the variables of the package, and the server
pub record Worker (v : Values) : Type 0 where
  pub cfg : Config v
  pub hw_capabilities : HardwareCapabilities
  pub storage_adapter : OutputAdapter
  pub server : QueueServer

unfoldable pub worker_server : {v : Values} → Config v → QueueServer
worker_server cfg = record {
  redis_addr = cfg.redis.addr;
  concurrency = cfg.worker.concurrency;
  queues = ("ffmpeg", 1) ∷ [];
  patterns = type_ffmpeg_command ∷ [];
}

module _ {m : Machine} (v : Values) where
  -- the status is only logged
  unfoldable pub log_status : Config v → Runtime → Act m Unit
  log_status cfg rt =
      if cfg.resources.enabled then (do status ← get_resource_status v rt; pure tt) else pure tt

  unfoldable pub start_worker : Env → Runtime → Act m (Worker v)
  unfolding worker_server load
  start_worker env rt = do
    ask (mkdir_all (load v env).worker.work_dir)
    (hw, cached) ← detect_hardware_acceleration rt.goos none
    log_status (load v env) rt
    adapter ← annotate "Failed to initialize storage adapter: " (new_adapter env)
    pure (record {
      cfg = load v env;
      hw_capabilities = hw;
      storage_adapter = adapter;
      server = worker_server (load v env);
    })
