-- ===== src/Worker/Job.antt =====
-- The job of `handleFFmpegCommand` in worker/main.go, from the downloads to the result. Log lines
-- are left out, and an iteration over a map meets the entries in the order in which the map has
-- them, the same at each iteration.
pub mod Success
use burrowcode.Base.{
  ℕ, suc, ◌-◌, ◌*◌, ◌/◌, ◌%◌, String, ◌⧺◌, Bool, true, ◌||◌, Option, none, some, List, [], ◌∷◌,
  ◌==◌, if◌then◌else◌,
}
use burrowcode.Adapters.{OutputAdapter, upload}
use burrowcode.Golang.Errors.{Result, ok, err}
use burrowcode.Golang.Filepath.{ext, join}
use burrowcode.Golang.Int.{ℤ, pos, is_positive}
use burrowcode.Golang.Maps.{Map, insert, get_text}
use burrowcode.Golang.Numbers.{format_nat}
use burrowcode.Golang.Strings.{trim_prefix}
use burrowcode.Os.{Values, Machine, Output, stat_file, run_combined, context_error, time_now}
use burrowcode.Os.Act.{Act, perform, pure, fail, ask, annotate, attempt, ◌>>=◌, ◌>>◌}
use burrowcode.System.Progress.{run_ffmpeg, get_media_duration}
use burrowcode.Worker.Args.{parse_command_args}
use burrowcode.Worker.FileType.{get_file_type}
use burrowcode.Worker.Media.{get_media_dimensions, download_file, input_ext}
use burrowcode.Worker.Placeholders.{expand_placeholders}
use burrowcode.Worker.Request.{CommandRequest, OutputFileInfo, CommandResult}

abbrev pub entries : Option (Map String) → Map String
entries none = []
entries (some m) = m

-- `outputPaths`
unfoldable pub output_paths : String → Map String → Map String
unfolding join
output_paths job_dir [] = []
output_paths job_dir ((key, filename) ∷ m) = (key, join job_dir filename) ∷ output_paths job_dir m

unfoldable pub commands_of : CommandRequest → List String
commands_of req = elim req.ffmpeg_commands [
  | [] ↦ if req.ffmpeg_command == "" then [] else req.ffmpeg_command ∷ []
  | c ∷ cs ↦ c ∷ cs
]

-- the arguments of a run of ffmpeg for a command
unfoldable pub command_args : String → Map String → Map String → List String
unfolding expand_placeholders parse_command_args
command_args cmd inputs outputs = "-y" ∷ parse_command_args (expand_placeholders cmd inputs outputs)

-- a command that could not be started leaves no output
abbrev pub output_of {ℓ} : {A : Type ℓ} → Result (Output × A) → Output
output_of (ok (out, more)) = out
output_of (err e) = record { text = ""; failure = some e }

module _ {m : Machine} where
  unfoldable pub stop_if : String → Option String → Act m Unit
  stop_if message none = pure tt
  stop_if message (some e) = fail message

  -- `if ctx.Err() != nil { return … }`
  unfoldable pub check_context : String → Act m Unit
  check_context message = ask context_error >>= stop_if message

  -- the loop that downloads the input files
  unfoldable pub download_inputs : String → Map String → Map String → Act m (Map String)
  download_inputs job_dir [] paths = pure paths
  download_inputs job_dir ((key, url) ∷ files) paths =
      let local_path = join job_dir (key ⧺ input_ext url) in
      annotate ("download " ⧺ key ⧺ ": ") (download_file url local_path)
      >> download_inputs job_dir files (insert key local_path paths)

abbrev pub known_duration : Result ℤ → Option ℤ
known_duration (err e) = none
known_duration (ok n) = if is_positive n then some n else none

abbrev pub failed_run : ℕ → String → String → String
failed_run i e text = "ffmpeg failed (command " ⧺ format_nat i ⧺ "): " ⧺ e ⧺ "\n" ⧺ text

abbrev pub has_dimensions : String → Bool
has_dimensions file_type = file_type == "video" || file_type == "image"

module _ (v : Values) where
  open v use {Float, of_nat, plus, divided}

  -- a duration in seconds
  unfoldable pub seconds : ℕ → Float
  seconds ns =
      plus (of_nat (ns / 1_000_000_000))
        (divided (of_nat (ns % 1_000_000_000)) (of_nat 1_000_000_000))

module _ {m : Machine} (v : Values) where
  open v use {Float, of_nat, plus, divided}

  unfoldable pub or_else : Option ℤ → Act m ℤ → Act m ℤ
  or_else (some n) next = pure n
  or_else none next = next

  -- the duration of the first input that has one, else 0
  unfoldable pub find_duration : Map String → Act m ℤ
  find_duration [] = pure (pos 0)
  find_duration ((key, path) ∷ paths) = attempt (get_media_duration v path) >>= λ found.
      or_else (known_duration found) (find_duration paths)

  unfoldable pub run_followed : ℤ → List String → Act m Output
  run_followed duration args = do
    r ← attempt (run_ffmpeg v (record { duration_ms = duration; on_progress = true }) args)
    pure (output_of r)

  unfoldable pub execute : ℤ → List String → Act m Output
  execute duration args =
      if is_positive duration then run_followed duration args else ask (run_combined "ffmpeg" args)

  unfoldable pub report : ℕ → String → Option String → Act m Unit
  report i text none = pure tt
  report i text (some e) =
      check_context "command cancelled during encoding" >> fail (failed_run i e text)

  unfoldable pub check_output : ℕ → Output → Act m Unit
  check_output i out = report i out.text out.failure

  -- the loop that runs the commands; `i` counts from 1
  unfoldable pub run_commands : ℤ → Map String → Map String → ℕ → List String → Act m Unit
  run_commands duration inputs outputs i [] = pure tt
  run_commands duration inputs outputs i (cmd ∷ cmds) =
      execute duration (command_args cmd inputs outputs) >>= λ out.
      check_output i out >> run_commands duration inputs outputs (suc i) cmds

  -- one output file: stored, and described
  unfoldable pub store_output :
      OutputAdapter → String → String → String → String → Act m (OutputFileInfo v)
  store_output adapter command_id filename key local_path = do
    size ← annotate ("output " ⧺ key ⧺ " not created: ") (perform (stat_file local_path))
    storage_url ←
        annotate ("upload output " ⧺ key ⧺ ": ")
          (upload adapter local_path (command_id ⧺ "_" ⧺ filename))
    let extension = trim_prefix (ext filename) "."
    let file_type = get_file_type extension
    (width, height) ←
        if has_dimensions file_type then get_media_dimensions local_path else pure (pos 0, pos 0)
    pure (record {
      file_id = command_id ⧺ "_" ⧺ key;
      size_mbytes = divided (of_nat size) (of_nat (1024 * 1024));
      file_type = file_type;
      file_format = extension;
      storage_url = storage_url;
      width = width;
      height = height;
    })

  -- the loop over the output files
  unfoldable pub store_outputs :
      OutputAdapter
      → String
      → Map String
      → Map String
      → Map (OutputFileInfo v)
      → Act m (Map (OutputFileInfo v))
  store_outputs adapter command_id filenames [] infos = pure infos
  store_outputs adapter command_id filenames ((key, local_path) ∷ paths) infos =
      store_output adapter command_id (get_text key filenames) key local_path >>= λ info.
      store_outputs adapter command_id filenames paths (insert key info infos)

  -- what the handler does between the creation of the job's directory and the webhook
  unfoldable pub produce :
      OutputAdapter → String → String → String → CommandRequest → Act m (CommandResult v)
  produce adapter accel command_id job_dir req = do
    start_time ← ask time_now
    inputs ← download_inputs job_dir (entries req.input_files) []
    check_context "command cancelled"
    let outputs = output_paths job_dir (entries req.output_files)
    duration ← find_duration inputs
    ffmpeg_start ← ask time_now
    run_commands duration inputs outputs 1 (commands_of req)
    ffmpeg_end ← ask time_now
    check_context "command cancelled"
    infos ← store_outputs adapter command_id (entries req.output_files) outputs []
    end_time ← ask time_now
    completed_at ← ask time_now
    pure (record {
      output_files = infos;
      ffmpeg_command_run_seconds = seconds v (ffmpeg_end - ffmpeg_start);
      total_processing_seconds = seconds v (end_time - start_time);
      completed_at = completed_at;
      hardware_acceleration = accel;
    })
