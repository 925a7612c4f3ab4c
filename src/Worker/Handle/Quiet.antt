-- ===== src/Worker/Handle/Quiet.antt =====
-- A job that fails leaves no trace with a client: no result and no webhook.
use burrowcode.Base.{true, String, ℕ, suc, Option, none, some, List, [], ◌∷◌}
use burrowcode.Os.{Values, Machine, Output, Call, write_result, enqueue, run_combined}
use burrowcode.Os.Act.{Act}
use burrowcode.Os.Emits.{
  Emits, Emits-bind, Emits-attempt, Emits-if, Emits-pure, Emits-ask, Added-perform,
}
use burrowcode.Os.Calls.{calls_rules}
use burrowcode.Golang.Maps.{Map}
use burrowcode.Golang.Int.{ℤ, is_positive}
use burrowcode.Json.{Json}
use burrowcode.Adapters.{OutputAdapter, file, bunny_storage, bunny_stream, s3, upload}
use burrowcode.Adapters.File
use burrowcode.Adapters.BunnyStorage
use burrowcode.Adapters.BunnyStream
use burrowcode.Adapters.S3
use burrowcode.System.Progress.{FFmpegRunner, run_ffmpeg, get_media_duration}
use burrowcode.Worker.Request.{CommandRequest, OutputFileInfo}
use burrowcode.Worker.Media.{download_file, get_media_dimensions}
use burrowcode.Worker.Job.{
  stop_if, check_context, download_inputs, or_else, find_duration, run_followed, output_of, execute,
  report, check_output, run_commands, store_output, store_outputs, produce,
}

-- no result for the queue and no task for it
abbrev pub IsSilent : Call → Type 0
IsSilent (enqueue t) = ⊥
IsSilent (write_result j) = ⊥
IsSilent _ = Unit

module _ {m : Machine} where
  stop_if-Emits : (e : String) (o : Option String) → Emits IsSilent (stop_if {m = m} e o)
  unfolding stop_if
  stop_if-Emits e none = search calls_rules
  stop_if-Emits e (some x) = search calls_rules

  check_context-Emits : (message : String) → Emits IsSilent (check_context {m = m} message)
  unfolding check_context
  check_context-Emits message = search (calls_rules, stop_if-Emits)

  download_file-Emits : (url dest : String) → Emits IsSilent (download_file {m = m} url dest)
  unfolding download_file
  download_file-Emits url dest = search calls_rules

  download_inputs-Emits :
      (dir : String) (files paths : Map String)
      → Emits IsSilent (download_inputs {m = m} dir files paths)
  unfolding download_inputs
  download_inputs-Emits dir [] paths = search calls_rules
  download_inputs-Emits dir ((key, url) ∷ files) paths =
      search (calls_rules, download_file-Emits, download_inputs-Emits dir files)

  get_media_dimensions-Emits : (p : String) → Emits IsSilent (get_media_dimensions {m = m} p)
  unfolding get_media_dimensions
  get_media_dimensions-Emits p = search calls_rules

module _ {m : Machine} (dest : String) (path : String) where
  file-Emits : (a : File.FileAdapter) → Emits IsSilent (File.upload {m = m} a path dest)
  unfolding File.upload
  file-Emits a = search calls_rules depth 9

  bunny_storage-Emits :
      (a : BunnyStorage.BunnyStorageAdapter)
      → Emits IsSilent (BunnyStorage.upload {m = m} a path dest)
  unfolding BunnyStorage.upload
  bunny_storage-Emits a = search calls_rules depth 9

  s3-Emits : (a : S3.S3Adapter) → Emits IsSilent (S3.upload {m = m} a path dest)
  unfolding S3.upload
  s3-Emits a = search calls_rules depth 9

module _ {m : Machine} (a : BunnyStream.BunnyStreamAdapter) where
  take_guid-Emits : (value : Option Json) → Emits IsSilent (BunnyStream.take_guid {m = m} value)
  unfolding BunnyStream.take_guid
  take_guid-Emits value = search calls_rules

  create_video-Emits : (dest : String) → Emits IsSilent (BunnyStream.create_video {m = m} a dest)
  unfolding BunnyStream.create_video
  create_video-Emits dest = search (calls_rules, take_guid-Emits) depth 9

  upload_video-Emits :
      (path guid : String) → Emits IsSilent (BunnyStream.upload_video {m = m} a path guid)
  unfolding BunnyStream.upload_video
  upload_video-Emits path guid = search calls_rules depth 9

  bunny_stream-Emits :
      (path dest : String) → Emits IsSilent (BunnyStream.upload {m = m} a path dest)
  unfolding BunnyStream.upload
  bunny_stream-Emits path dest = search (calls_rules, create_video-Emits, upload_video-Emits)

upload-Emits :
    {m : Machine} (a : OutputAdapter) (path dest : String)
    → Emits IsSilent (upload {m = m} a path dest)
unfolding upload
upload-Emits (file a) path dest = file-Emits dest path a
upload-Emits (bunny_storage a) path dest = bunny_storage-Emits dest path a
upload-Emits (bunny_stream a) path dest = bunny_stream-Emits a path dest
upload-Emits (s3 a) path dest = s3-Emits dest path a

module _ {m : Machine} (v : Values) where
  get_media_duration-Emits : (p : String) → Emits IsSilent (get_media_duration v {m = m} p)
  unfolding get_media_duration
  get_media_duration-Emits p = record { at = λ s. Added-perform _ s tt }

  run_ffmpeg-Emits :
      (r : FFmpegRunner v) (args : List String) → Emits IsSilent (run_ffmpeg v {m = m} r args)
  unfolding run_ffmpeg
  run_ffmpeg-Emits r args = record { at = λ s. Added-perform _ s tt }

  or_else-Emits :
      (o : Option ℤ) (next : Act m ℤ) → Emits IsSilent next → Emits IsSilent (or_else v o next)
  unfolding or_else
  or_else-Emits (some n) next h = search calls_rules
  or_else-Emits none next h = h

  find_duration-Emits : (paths : Map String) → Emits IsSilent (find_duration {m = m} v paths)
  unfolding find_duration
  find_duration-Emits [] = search calls_rules
  find_duration-Emits ((key, path) ∷ paths) =
      Emits-bind _ _ (Emits-attempt _ (get_media_duration-Emits path))
        λ found. or_else-Emits _ _ (find_duration-Emits paths)

  run_followed-Emits :
      (duration : ℤ) (args : List String) → Emits IsSilent (run_followed {m = m} v duration args)
  unfolding run_followed
  run_followed-Emits duration args =
      Emits-bind _ _
        (Emits-attempt _
          (run_ffmpeg-Emits (record { duration_ms = duration; on_progress = true }) args))
        λ r. Emits-pure (output_of r)

  execute-Emits :
      (duration : ℤ) (args : List String) → Emits IsSilent (execute {m = m} v duration args)
  unfolding execute
  execute-Emits duration args =
      Emits-if (is_positive duration) _ _ (run_followed-Emits duration args)
        (Emits-ask (run_combined "ffmpeg" args) tt)

  report-Emits :
      (i : ℕ) (text : String) (o : Option String) → Emits IsSilent (report {m = m} v i text o)
  unfolding report
  report-Emits i text none = search calls_rules
  report-Emits i text (some e) = search (calls_rules, check_context-Emits)

  check_output-Emits : (i : ℕ) (out : Output) → Emits IsSilent (check_output {m = m} v i out)
  unfolding check_output
  check_output-Emits i out = report-Emits i out.text out.failure

  run_commands-Emits :
      (duration : ℤ) (inputs outputs : Map String) (i : ℕ) (cmds : List String)
      → Emits IsSilent (run_commands {m = m} v duration inputs outputs i cmds)
  unfolding run_commands
  run_commands-Emits duration inputs outputs i [] = search calls_rules
  run_commands-Emits duration inputs outputs i (cmd ∷ cmds) =
      Emits-bind _ _ (execute-Emits duration _) λ out.
        Emits-bind _ _ (check_output-Emits i out)
          λ _. run_commands-Emits duration inputs outputs (suc i) cmds

  store_output-Emits :
      (a : OutputAdapter) (id filename key path : String)
      → Emits IsSilent (store_output {m = m} v a id filename key path)
  unfolding store_output
  store_output-Emits a id filename key path =
      search (calls_rules, upload-Emits, get_media_dimensions-Emits) depth 9

  store_outputs-Emits :
      (a : OutputAdapter) (id : String) (names paths : Map String) (infos : Map (OutputFileInfo v))
      → Emits IsSilent (store_outputs {m = m} v a id names paths infos)
  unfolding store_outputs
  store_outputs-Emits a id names [] infos = search calls_rules
  store_outputs-Emits a id names ((key, path) ∷ paths) infos =
      search (calls_rules, store_output-Emits, store_outputs-Emits a id names paths)

  pub produce-Emits :
      (a : OutputAdapter) (accel id dir : String) (req : CommandRequest)
      → Emits IsSilent (produce {m = m} v a accel id dir req)
  unfolding produce
  produce-Emits a accel id dir req =
      search
        (
          calls_rules, download_inputs-Emits, check_context-Emits, find_duration-Emits,
          run_commands-Emits, store_outputs-Emits,
        )
        depth 20
