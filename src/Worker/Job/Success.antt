-- ===== src/Worker/Job/Success.antt =====
-- The job of `handleFFmpegCommand` of worker/main.go where nothing that it calls fails.
use burrowcode.Base.{ℕ, suc, String, ◌⧺◌, ◌≡◌, true, Option, none, some, List, [], ◌∷◌, nat_eq}
use burrowcode.Adapters.{OutputAdapter, upload}
use burrowcode.Golang.Errors.{Result, ok, err}
use burrowcode.Golang.Filepath.{ext, join}
use burrowcode.Golang.Strings.{trim_prefix}
use burrowcode.Golang.Int.{ℤ, pos, is_positive}
use burrowcode.Golang.Maps.{Map, insert, get_text}
use burrowcode.Os.{
  Values, Machine, Output, Piped, create_file, stat_file, save_body, run_combined, run_output,
  run_piped, new_request, send, context_error, time_now,
}
use burrowcode.Os.Act.{Act, perform, ask}
use burrowcode.Os.Helpful.{IsHelpful}
use burrowcode.Os.Gives.{
  Holds, Any, Gives, Gives-pure, Gives-annotate, Gives-attempt, Gives-attempted, Gives-ask,
  Gives-if, Gives-bind, Gives-then,
}
use burrowcode.System.Progress.{
  FFmpegRunner, FFmpegProgress, piped_result, run_ffmpeg, get_media_duration,
}
use burrowcode.Worker.FileType.{get_file_type}
use burrowcode.Worker.Media.{get_request, download_file, get_media_dimensions, input_ext}
use burrowcode.Worker.Request.{CommandRequest}
use burrowcode.Worker.Job.{
  output_of, command_args, stop_if, check_context, download_inputs, known_duration, or_else,
  find_duration, run_followed, execute, report, check_output, run_commands, has_dimensions,
  store_output, store_outputs, produce,
}

module _ {m : Machine} (good : IsHelpful m) where
  stat_file-Gives : (path : String) → Gives {m = m} Any (perform (stat_file path))
  unfolding perform
  stat_file-Gives path = record { at = λ s. good.goes (stat_file path) s.world }

  download_file-Gives : (url dest : String) → Gives {m = m} Any (download_file url dest)
  unfolding download_file perform
  download_file-Gives url dest =
      Gives-then (record { at = λ s. good.goes (new_request "GET" url) s.world })
        (λ x.
          Gives-bind {P = λ a. nat_eq a.status 200 ≡ true} (perform (send (get_request url))) _
            (record { at = λ s. good.goes (send (get_request url)) s.world })
            (λ a status. rw status (
              Gives-then (record { at = λ s. good.goes (create_file dest) s.world })
                (λ y. record { at = λ s. good.goes (save_body dest) s.world }))))

  check_context-Gives : (message : String) → Gives {m = m} Any (check_context message)
  unfolding check_context stop_if
  check_context-Gives message =
      Gives-bind (ask context_error) (stop_if message)
        (Gives-ask context_error (λ e. e ≡ none) (good.goes context_error))
        (λ e h. rw h (Gives-pure tt tt))

  download_inputs-Gives :
      (dir : String) (files paths : Map String)
      → Gives {m = m} Any (download_inputs dir files paths)
  unfolding download_inputs
  download_inputs-Gives dir [] paths = Gives-pure paths tt
  download_inputs-Gives dir ((key, url) ∷ files) paths =
      let path = join dir (key ⧺ input_ext url) in
      Gives-then (Gives-annotate ("download " ⧺ key ⧺ ": ") _ (download_file-Gives url path))
        (λ x. download_inputs-Gives dir files (insert key path paths))

module _ {m : Machine} (v : Values) where
  or_else-Gives : (n : Option ℤ) (next : Act m ℤ) → Gives Any next → Gives Any (or_else v n next)
  unfolding or_else
  or_else-Gives (some n) next h = Gives-pure n tt
  or_else-Gives none next h = h

  -- The durations of the inputs are looked for, but an input may have none.
  find_duration-Gives : (paths : Map String) → Gives {m = m} Any (find_duration v paths)
  unfolding find_duration
  find_duration-Gives [] = Gives-pure _ tt
  find_duration-Gives ((key, path) ∷ paths) =
      Gives-then (Gives-attempted (get_media_duration v path)) (λ found.
        or_else-Gives (known_duration found) (find_duration v paths) (find_duration-Gives paths))

  get_media_dimensions-Gives : (path : String) → Gives {m = m} Any (get_media_dimensions path)
  unfolding get_media_dimensions
  get_media_dimensions-Gives path =
      Gives-then (Gives-ask (run_output "ffprobe" _) Any (λ w. tt)) (λ out. Gives-pure _ tt)

abbrev HasEnded : Output → Type 0
HasEnded out = out.failure ≡ none

module _ {m : Machine} (good : IsHelpful m) (v : Values) where
  piped_result-Holds :
      (p : Result Piped) (r : FFmpegRunner v)
      → Holds (λ q. q.failure ≡ none) p
      → Holds (λ q. HasEnded q.0) (piped_result v p r)
  piped_result-Holds (ok p) r h = h
  piped_result-Holds (err e) r h = absurd h

  run_ffmpeg-Gives :
      (r : FFmpegRunner v) (args : List String)
      → Gives {m = m} (λ q. HasEnded q.0) (run_ffmpeg v r args)
  unfolding run_ffmpeg perform
  run_ffmpeg-Gives r args = record {
    at = λ s. piped_result-Holds _ r (good.goes (run_piped "ffmpeg" _) s.world);
  }

  output_of-HasEnded :
      (r : Result (Output × List (FFmpegProgress v)))
      → Holds (λ q. HasEnded q.0) r
      → HasEnded (output_of r)
  output_of-HasEnded (ok (out, more)) h = h
  output_of-HasEnded (err e) h = absurd h

  execute-Gives :
      (duration : ℤ) (args : List String) → Gives {m = m} HasEnded (execute v duration args)
  unfolding execute run_followed
  execute-Gives duration args =
      Gives-if (is_positive duration) _ _
        (Gives-bind _ _ (Gives-attempt _ (run_ffmpeg-Gives _ args))
          (λ r h. Gives-pure _ (output_of-HasEnded r h)))
        (Gives-ask (run_combined "ffmpeg" args) HasEnded (good.goes (run_combined "ffmpeg" args)))

  run_commands-Gives :
      (duration : ℤ) (inputs outputs : Map String) (i : ℕ) (cmds : List String)
      → Gives {m = m} Any (run_commands v duration inputs outputs i cmds)
  unfolding run_commands check_output report
  run_commands-Gives duration inputs outputs i [] = Gives-pure tt tt
  run_commands-Gives duration inputs outputs i (cmd ∷ cmds) =
      Gives-bind _ _ (execute-Gives duration (command_args cmd inputs outputs)) (λ out h.
        Gives-then (rw h (Gives-pure tt tt))
          (λ x. run_commands-Gives duration inputs outputs (suc i) cmds))

  module _ (a : OutputAdapter)
      (stores : (source dest : String) → Gives {m = m} Any (upload a source dest)) where
    store_output-Gives :
        (id filename key path : String) → Gives {m = m} Any (store_output v a id filename key path)
    unfolding store_output
    store_output-Gives id filename key path =
        Gives-then (Gives-annotate _ _ (stat_file-Gives good path)) (λ size.
          Gives-then (Gives-annotate _ _ (stores path _)) (λ url.
            Gives-then
              (Gives-if (has_dimensions (get_file_type (trim_prefix (ext filename) "."))) _ _
                (get_media_dimensions-Gives v path) (Gives-pure (pos 0, pos 0) tt))
              (λ sides. Gives-pure _ tt)))

    store_outputs-Gives :
        (id : String) (filenames paths : Map String) (infos : _)
        → Gives {m = m} Any (store_outputs v a id filenames paths infos)
    unfolding store_outputs
    store_outputs-Gives id filenames [] infos = Gives-pure infos tt
    store_outputs-Gives id filenames ((key, path) ∷ paths) infos =
        Gives-then (store_output-Gives id (get_text key filenames) key path)
          (λ info. store_outputs-Gives id filenames paths (insert key info infos))

    time_now-Gives : Gives {m = m} Any (ask time_now)
    time_now-Gives = Gives-ask time_now Any (λ w. tt)

    -- A job that nothing fails produces a result.
    pub produce-Gives :
        (accel id dir : String) (req : CommandRequest)
        → Gives {m = m} Any (produce v a accel id dir req)
    unfolding produce
    produce-Gives accel id dir req = Gives-then time_now-Gives (λ t1.
        Gives-then (download_inputs-Gives good dir _ []) (λ inputs.
          Gives-then (check_context-Gives good _) (λ x.
            Gives-then (find_duration-Gives v inputs) (λ duration. Gives-then time_now-Gives (λ t2.
              Gives-then (run_commands-Gives duration inputs _ 1 _) (λ y.
                Gives-then time_now-Gives (λ t3. Gives-then (check_context-Gives good _) (λ z.
                  Gives-then (store_outputs-Gives id _ _ []) (λ infos.
                    Gives-then time_now-Gives
                      (λ t4. Gives-then time_now-Gives (λ t5. Gives-pure _ tt)))))))))))
