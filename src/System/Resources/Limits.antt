-- ===== src/System/Resources/Limits.antt =====
-- The limits of a configuration, and those of resources.go.
use burrowcode.Base.{◌≡◌, refl, true, ◌==◌}
use burrowcode.Os.{Values}
use burrowcode.Config.{Env, load, get_resource_limits, get_env_float}
use burrowcode.System.Resources.{default_resource_limits}

-- The limits of the configuration that is loaded are DefaultResourceLimits's where the environment
-- does not set MAX_MEMORY_PERCENT.
pub load-default_resource_limits :
    (v : Values) (env : Env)
    → (env "MAX_MEMORY_PERCENT" == "") ≡ true
    → get_resource_limits v (load v env) ≡ default_resource_limits v
unfolding get_resource_limits load get_env_float default_resource_limits
load-default_resource_limits v env h = rw h refl
