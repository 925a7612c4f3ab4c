-- ===== src/Tests/Fixture.antt =====
-- A machine on which every call succeeds, and numbers that stand for `float64`.
use burrowcode.Base.{List, String, ℕ, ◌+◌, ◌*◌, ◌/◌, none, [], ◌∷◌, ltb}
use burrowcode.Golang.Int.{ℤ, pos, negsuc}
use burrowcode.Golang.Numbers.{parsed, format_nat}
use burrowcode.Golang.Errors.{ok}
use burrowcode.Json.{Json, object, field, no_fields, string}
use burrowcode.Config.{Env, Config, load}
use burrowcode.Adapters.{OutputAdapter, file}
use burrowcode.System.Resources.{Runtime}
use burrowcode.Os.{
  Values, Machine, Call, Reply, mkdir_all, remove_all, open_file, create_file, stat_file, read_file,
  copy_file, save_body, run_output, run_combined, run_piped, new_request, send, load_aws_config,
  put_object, context_error, time_now, enqueue, write_result,
}
use burrowcode.Os.Act.{State}

abbrev nat_of : ℤ → ℕ
nat_of (pos n) = n
nat_of (negsuc n) = 0

-- Numbers without a fraction.
abbrev pub whole : Values
whole = record {
  Float = ℕ;
  of_nat = λ n. n;
  of_int = nat_of;
  plus = λ a b. a + b;
  times = λ a b. a * b;
  divided = λ a b. a / b;
  less = ltb;
  parse_float = λ s. parsed 0;
  format_float = format_nat;
  format_fixed = format_nat;
  truncate = λ a. pos a;
  format_time = format_nat;
  parse_time = λ s. none;
}

-- `lines` are those of /proc/meminfo
abbrev answers : List String → (c : Call) → Reply c
answers lines (mkdir_all path) = ok tt
answers lines (remove_all path) = ok tt
answers lines (open_file path) = ok tt
answers lines (create_file path) = ok tt
answers lines (stat_file path) = ok 2_097_152
answers lines (read_file path) = ok lines
answers lines (copy_file source dest) = ok tt
answers lines (save_body path) = ok tt
answers lines (run_output name args) = record { text = "640x480"; failure = none }
answers lines (run_combined name args) = record { text = ""; failure = none }
answers lines (run_piped name args) = ok (record { lines = []; stderr = ""; failure = none })
answers lines (new_request method url) = ok tt
answers lines (send request) = ok (record { status = 200; text = ""; value = none })
answers lines (load_aws_config region) = ok tt
answers lines (put_object bucket key body content_type) = ok tt
answers lines context_error = none
answers lines time_now = 5
answers lines (enqueue task) = ok "7f3a"
answers lines (write_result value) = tt

abbrev host_with : List String → Machine
host_with lines = record { World = Unit; answer = λ c w. (answers lines c, w) }

abbrev pub host : Machine
host = host_with ("MemTotal: 1000 kB" ∷ "MemAvailable: 600 kB" ∷ [])

abbrev pub initial : State host
initial = record { world = tt; calls = [] }

-- a machine without any memory left
abbrev pub full_host : Machine
full_host = host_with ("MemTotal: 1000 kB" ∷ [])

abbrev pub full : State full_host
full = record { world = tt; calls = [] }

abbrev pub unset : Env
unset key = ""

abbrev pub defaults : Config whole
defaults = load whole unset

abbrev pub store : OutputAdapter
store = file (record { output_dir = "/out"; storage_base_url = "" })

abbrev pub linux : Runtime
linux = record { goos = "linux"; alloc = 1; sys = 2; num_cpu = 4; num_goroutine = 9 }

abbrev pub payload : Json
payload = object (
    field "input_files" (object (field "a" (string "http://h/a.mov") no_fields)) (
      field "output_files" (object (field "o" (string "o.mp4") no_fields)) (
        field "ffmpeg_command" (string "-i {{a}} {{o}}")
          (field "webhook" (string "http://h/hook") no_fields))))
