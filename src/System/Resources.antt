-- ===== src/System/Resources.antt =====
-- worker/system/resources.go: the host's memory.
pub mod Limits
pub mod Lines
pub mod Meminfo
use burrowcode.Base.{
  ℕ, ◌+◌, ◌-◌, ◌*◌, ◌/◌, ◌%◌, ◌^◌, String, ◌⧺◌, Bool, true, false, List, [], ◌∷◌, ltb, ◌==◌,
  if◌then◌else◌,
}
use burrowcode.Golang.Errors.{Result, ok, err}
use burrowcode.Golang.Numbers.{Parsed, parsed, out_of_range, bad_syntax, parse_uint}
use burrowcode.Golang.Strings.{fields}
use burrowcode.Config.{ResourceLimits}
use burrowcode.Os.{Values, Machine, read_file}
use burrowcode.Os.Act.{Act, perform, pure, ◌>>=◌}

-- DefaultResourceLimits
unfoldable pub default_resource_limits : (v : Values) → ResourceLimits v
default_resource_limits v = record { max_memory_percent = Values.of_nat v 85 }

-- The variables of the loop over /proc/meminfo, in bytes.
pub record MemInfo : Type 0 where
  pub mem_total : ℕ
  pub mem_available : ℕ
  pub mem_free : ℕ
  pub buffers : ℕ
  pub cached : ℕ

-- the `switch` on a line's first field
unfoldable pub store_field : MemInfo → String → ℕ → MemInfo
store_field i name val =
    if name == "MemTotal:"
    then record i { mem_total = val }
    else if name == "MemAvailable:"
    then record i { mem_available = val }
    else if name == "MemFree:"
    then record i { mem_free = val }
    else if name == "Buffers:"
    then record i { buffers = val }
    else if name == "Cached:"
    then record i { cached = val }
    else i

abbrev pub store_parsed : MemInfo → String → Parsed ℕ → MemInfo
store_parsed i name (parsed kb) = store_field i name (kb * 1024 % 2 ^ 64)
store_parsed i name (out_of_range kb) = i
store_parsed i name bad_syntax = i

-- a line of fewer than two fields is skipped
abbrev pub store_fields : MemInfo → List String → MemInfo
store_fields i (name ∷ amount ∷ more) = store_parsed i name (parse_uint amount)
store_fields i _ = i

unfoldable pub read_line : MemInfo → String → MemInfo
unfolding store_field
read_line i line = store_fields i (fields line)

unfoldable pub read_lines : MemInfo → List String → MemInfo
unfolding read_line
read_lines i [] = i
read_lines i (line ∷ lines) = read_lines (read_line i line) lines

abbrev pub no_info : MemInfo
no_info = record { mem_total = 0; mem_available = 0; mem_free = 0; buffers = 0; cached = 0 }

-- the bytes in all, and those available
unfoldable pub available_memory : MemInfo → ℕ × ℕ
available_memory i =
    if ltb 0 i.mem_available
    then (i.mem_total, i.mem_available)
    else (i.mem_total, (i.mem_free + i.buffers + i.cached) % 2 ^ 64)

abbrev pub memory_of : Result (List String) → ℕ × ℕ
memory_of (err e) = (0, 0)
memory_of (ok lines) = available_memory (read_lines no_info lines)

unfoldable pub get_linux_memory : {m : Machine} → Act m (ℕ × ℕ)
unfolding perform pure read_lines available_memory
get_linux_memory s = let (r, s') = perform (read_file "/proc/meminfo") s in pure (memory_of r) s'

unfoldable pub get_darwin_memory : {m : Machine} → Act m (ℕ × ℕ)
unfolding pure
get_darwin_memory = pure (0, 0)

-- `goos` is `runtime.GOOS`
unfoldable pub get_system_memory : {m : Machine} → String → Act m (ℕ × ℕ)
unfolding get_linux_memory get_darwin_memory
get_system_memory goos =
    if goos == "linux"
    then get_linux_memory
    else if goos == "darwin"
    then get_darwin_memory
    else pure (0, 0)

-- What the Go runtime reports: the platform, `Alloc` and `Sys` of its memory statistics, and the
-- numbers of processors and goroutines.
pub record Runtime : Type 0 where
  pub goos : String
  pub alloc : ℕ
  pub sys : ℕ
  pub num_cpu : ℕ
  pub num_goroutine : ℕ

module _ (fl : Values) where
  open fl use {Float, of_nat, times, divided, less, format_fixed}

  pub record ResourceStatus : Type 0 where
    pub memory_usage_percent : Float
    pub memory_used_mb : ℕ
    pub memory_total_mb : ℕ
    pub num_cpu : ℕ
    pub num_goroutine : ℕ

  unfoldable pub percent_of : ℕ → ℕ → Float
  percent_of part whole = times (divided (of_nat part) (of_nat whole)) (of_nat 100)

  -- the body of `GetResourceStatus` for the memory that the system reports
  unfoldable pub status_of : Runtime → ℕ → ℕ → ResourceStatus
  unfolding percent_of
  status_of rt total_mem avail_mem =
      let used_mem = (total_mem + 2 ^ 64 - avail_mem) % 2 ^ 64 in
      if ltb 0 total_mem
      then record {
        memory_usage_percent = percent_of used_mem total_mem;
        memory_used_mb = used_mem / (1024 * 1024);
        memory_total_mb = total_mem / (1024 * 1024);
        num_cpu = rt.num_cpu;
        num_goroutine = rt.num_goroutine;
      }
      else record {
        memory_usage_percent = if ltb 0 rt.sys then percent_of rt.alloc rt.sys else of_nat 0;
        memory_used_mb = rt.alloc / (1024 * 1024);
        memory_total_mb = rt.sys / (1024 * 1024);
        num_cpu = rt.num_cpu;
        num_goroutine = rt.num_goroutine;
      }

  unfoldable pub get_resource_status : {m : Machine} → Runtime → Act m ResourceStatus
  get_resource_status rt = do
    (total_mem, avail_mem) ← get_system_memory rt.goos
    pure (status_of rt total_mem avail_mem)

  unfoldable pub too_high : ResourceStatus → String
  too_high status = "memory usage too high: " ⧺ format_fixed status.memory_usage_percent ⧺ "%"

  unfoldable pub check_resources_available :
      {m : Machine} → Runtime → ResourceLimits fl → Act m (Bool × String)
  unfolding get_resource_status too_high
  check_resources_available rt limits = do
    status ← get_resource_status rt
    pure (
        if less limits.max_memory_percent status.memory_usage_percent
        then (false, too_high status)
        else (true, ""))
