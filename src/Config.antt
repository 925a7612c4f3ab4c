-- ===== src/Config.antt =====
-- worker/config/config.go, and the `getEnv` helpers that the three services repeat.
use burrowcode.Base.{String, Bool, true, Option, none, some, ◌==◌, if◌then◌else◌}
use burrowcode.Golang.Int.{ℤ, pos, times_wrapped}
use burrowcode.Golang.Numbers.{parse_int, parse_bool, value?}
use burrowcode.Os.{Values}

-- `os.Getenv`: the empty text where the variable is not set
abbrev pub Env : Type 0
Env = String → String

unfoldable pub get_env : Env → String → String → String
get_env env key default = if env key == "" then default else env key

abbrev pub or_default {ℓ} : {A : Type ℓ} → Option A → A → A
or_default none default = default
or_default (some a) default = a

unfoldable pub get_env_int : Env → String → ℤ → ℤ
unfolding parse_int
get_env_int env key default =
    if env key == "" then default else or_default (value? (parse_int (env key))) default

unfoldable pub get_env_bool : Env → String → Bool → Bool
unfolding parse_bool
get_env_bool env key default =
    if env key == "" then default else or_default (parse_bool (env key)) default

pub record RedisConfig : Type 0 where
  pub addr : String
  pub password : String
  pub db : ℤ

pub record WorkerConfig : Type 0 where
  pub concurrency : ℤ
  pub work_dir : String
  pub task_max_retry : ℤ
  pub task_timeout_minutes : ℤ
  pub task_retention_hours : ℤ

pub record WebhookConfig : Type 0 where
  pub max_retry : ℤ
  pub retention_hours : ℤ
  pub timeout_seconds : ℤ

module _ (fl : Values) where
  open fl use {Float, of_nat, parse_float}

  unfoldable pub get_env_float : Env → String → Float → Float
  get_env_float env key default =
      if env key == "" then default else or_default (value? (parse_float (env key))) default

  -- system.ResourceLimits
  pub record ResourceLimits : Type 0 where
    pub max_memory_percent : Float

  pub record ResourceConfig : Type 0 where
    pub enabled : Bool
    pub max_memory_percent : Float
    -- in nanoseconds
    pub check_interval : ℤ

  pub record Config : Type 0 where
    pub redis : RedisConfig
    pub worker : WorkerConfig
    pub resources : ResourceConfig
    pub webhook : WebhookConfig
    pub storage_adapter : String

  unfoldable pub load : Env → Config
  unfolding get_env get_env_int get_env_bool get_env_float
  load env = record {
    redis = record {
      addr = get_env env "REDIS_ADDR" "localhost:6379";
      password = get_env env "REDIS_PASSWORD" "";
      db = get_env_int env "REDIS_DB" (pos 0);
    };
    worker = record {
      concurrency = get_env_int env "CONCURRENCY" (pos 2);
      work_dir = get_env env "WORK_DIR" "/tmp/ffmpeg-jobs";
      task_max_retry = get_env_int env "TASK_MAX_RETRY" (pos 2);
      task_timeout_minutes = get_env_int env "TASK_TIMEOUT_MINUTES" (pos 30);
      task_retention_hours = get_env_int env "TASK_RETENTION_HOURS" (pos 24);
    };
    resources = record {
      enabled = get_env_bool env "RESOURCE_CHECK_ENABLED" true;
      max_memory_percent = get_env_float env "MAX_MEMORY_PERCENT" (of_nat 85);
      check_interval =
          times_wrapped (get_env_int env "RESOURCE_CHECK_INTERVAL_SEC" (pos 5)) 1_000_000_000;
    };
    webhook = record {
      max_retry = get_env_int env "WEBHOOK_MAX_RETRY" (pos 5);
      retention_hours = get_env_int env "WEBHOOK_RETENTION_HOURS" (pos 72);
      timeout_seconds = get_env_int env "WEBHOOK_TIMEOUT_SECONDS" (pos 10);
    };
    storage_adapter = get_env env "STORAGE_ADAPTER" "file";
  }

  unfoldable pub get_resource_limits : Config → ResourceLimits
  get_resource_limits c = record { max_memory_percent = c.resources.max_memory_percent }

  -- Validate: the error, if there is one
  unfoldable pub validate : Config → Option String
  validate c = none
