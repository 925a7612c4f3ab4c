-- ===== src/System/Progress.antt =====
-- worker/system/progress.go: a run of ffmpeg whose progress is followed.
pub mod Percent
use burrowcode.Base.{String, Bool, ◌&&◌, none, some, List, [], ◌∷◌, ◌++◌, ◌==◌, if◌then◌else◌}
use burrowcode.Golang.Int.{ℤ, pos, is_positive, times_wrapped, quot}
use burrowcode.Golang.Errors.{Result, ok, err}
use burrowcode.Golang.Numbers.{Parsed, parsed, out_of_range, bad_syntax, parse_int, value_or_bound}
use burrowcode.Golang.Strings.{cut, trim_space}
use burrowcode.Os.{Values, Machine, run_piped, run_output, Piped, Output}
use burrowcode.Os.Act.{Act, perform}

module _ (fl : Values) where
  open fl use {Float, of_nat, of_int, times, divided, less, parse_float, truncate}

  pub record FFmpegProgress : Type 0 where
    pub frame : ℤ
    pub fps : Float
    pub bitrate : String
    pub total_size : ℤ
    pub out_time_us : ℤ
    -- in nanoseconds
    pub out_time : ℤ
    pub dup_frames : ℤ
    pub drop_frames : ℤ
    pub speed : String
    pub progress : String
    pub percent_done : Float

  -- The zero value of the struct.
  abbrev pub no_progress : FFmpegProgress
  no_progress = record {
    frame = pos 0;
    fps = of_nat 0;
    bitrate = "";
    total_size = pos 0;
    out_time_us = pos 0;
    out_time = pos 0;
    dup_frames = pos 0;
    drop_frames = pos 0;
    speed = "";
    progress = "";
    percent_done = of_nat 0;
  }

  pub record FFmpegRunner : Type 0 where
    pub duration_ms : ℤ
    -- whether `OnProgress` is set
    pub on_progress : Bool

  abbrev pub float_or_bound : Parsed Float → Float
  float_or_bound (parsed x) = x
  float_or_bound (out_of_range x) = x
  float_or_bound bad_syntax = of_nat 0

  -- the percentage, which is left as it was where the duration or the time is not known
  unfoldable pub update_percent : FFmpegRunner → FFmpegProgress → FFmpegProgress
  update_percent r current =
      let percent =
        times (divided (of_int (quot current.out_time_us 1000)) (of_int r.duration_ms))
          (of_nat 100) in
      if is_positive r.duration_ms && is_positive current.out_time_us
      then record current {
        percent_done = if less (of_nat 100) percent then of_nat 100 else percent;
      }
      else current

  -- a `progress` line: the state behind it, and the state that the callback is given
  unfoldable pub end_block :
      FFmpegRunner → FFmpegProgress → String → FFmpegProgress × List FFmpegProgress
  unfolding update_percent
  end_block r current value =
      let shown = update_percent r (record current { progress = value }) in
      (
        if value == "end" then record shown { percent_done = of_nat 100 } else shown,
        if r.on_progress then shown ∷ [] else [],
      )

  -- the `switch` on the key
  unfoldable pub store_entry :
      FFmpegRunner → FFmpegProgress → String → String → FFmpegProgress × List FFmpegProgress
  unfolding end_block
  store_entry r current key value =
      let int = value_or_bound (parse_int value) in
      if key == "frame"
      then (record current { frame = int }, [])
      else if key == "fps"
      then (record current { fps = float_or_bound (parse_float value) }, [])
      else if key == "bitrate"
      then (record current { bitrate = value }, [])
      else if key == "total_size"
      then (record current { total_size = int }, [])
      else if key == "out_time_us"
      then (record current { out_time_us = int; out_time = times_wrapped int 1000 }, [])
      else if key == "dup_frames"
      then (record current { dup_frames = int }, [])
      else if key == "drop_frames"
      then (record current { drop_frames = int }, [])
      else if key == "speed"
      then (record current { speed = value }, [])
      else if key == "progress"
      then end_block r current value
      else (current, [])

  unfoldable pub parse_line :
      FFmpegRunner → FFmpegProgress → String → FFmpegProgress × List FFmpegProgress
  unfolding store_entry
  parse_line r current line = elim (cut line b'=') [
    | none ↦ (current, [])
    | some (key, value) ↦ store_entry r current (trim_space key) (trim_space value)
  ]

  -- `parseProgress`: what the callback is given, in order
  unfoldable pub parse_progress : FFmpegRunner → FFmpegProgress → List String → List FFmpegProgress
  unfolding parse_line
  parse_progress r current [] = []
  parse_progress r current (line ∷ lines) =
      let (next, shown) = parse_line r current line in shown ++ parse_progress r next lines

  abbrev pub piped_result : Result Piped → FFmpegRunner → Result (Output × List FFmpegProgress)
  piped_result (err e) r = err e
  piped_result (ok p) r =
      ok (record { text = p.stderr; failure = p.failure }, parse_progress r no_progress p.lines)

  -- `Run`: standard error with how the command ended, and the progress that was reported. The
  -- error stands for a command that could not be started.
  unfoldable pub run_ffmpeg :
      {m : Machine} → FFmpegRunner → List String → Act m (Output × List FFmpegProgress)
  unfolding perform parse_progress
  run_ffmpeg r args s =
      let (p, s') = perform (run_piped "ffmpeg" ("-y" ∷ "-progress" ∷ "pipe:1" ∷ args)) s in
      (piped_result p r, s')

  abbrev duration_of : Output → Result ℤ
  duration_of out = elim out.failure [
    | some e ↦ err e
    | none ↦ elim (parse_float (trim_space out.text)) [
      | parsed x ↦ ok (truncate (times x (of_nat 1000)))
      | out_of_range x ↦ err "value out of range"
      | bad_syntax ↦ err "invalid syntax"
    ]
  ]

  unfoldable pub get_media_duration : {m : Machine} → String → Act m ℤ
  unfolding perform
  get_media_duration path s =
      let args =
        "-v" ∷ "error" ∷ "-show_entries" ∷ "format=duration" ∷ "-of"
        ∷ "default=noprint_wrappers=1:nokey=1" ∷ path ∷ [] in
      let (out, s') = perform (run_output "ffprobe" args) s in (duration_of out, s')
