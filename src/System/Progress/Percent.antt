-- ===== src/System/Progress/Percent.antt =====
-- The percentages that `parseProgress` of worker/system/progress.go gives to its callback.
use burrowcode.Base.{
  if_both, String, ◌≡◌, false, Bool-cases, Option-cases, inl, inr, List, [], ◌∷◌, arith, All,
  All-append, ◌==◌,
}
use burrowcode.Golang.Strings.{cut, trim_space}
use burrowcode.Os.{Values}
use burrowcode.System.Progress.{
  FFmpegProgress, FFmpegRunner, no_progress, update_percent, end_block, store_entry, parse_line,
  parse_progress,
}

module _ (v : Values) where
  open v use {of_nat, less}

  -- at most 100, as the code's own comparison sees it
  abbrev pub IsCapped : FFmpegProgress v → Type 0
  IsCapped p = less (of_nat 100) p.percent_done ≡ false

  -- what a line leaves, and what it reports
  abbrev IsStep : FFmpegProgress v × List (FFmpegProgress v) → Type 0
  IsStep x = IsCapped x.0 × All IsCapped x.1

  module _ (top : less (of_nat 100) (of_nat 100) ≡ false) (r : FFmpegRunner v) where
    update_percent-IsCapped : (p : FFmpegProgress v) → IsCapped p → IsCapped (update_percent v r p)
    unfolding update_percent
    update_percent-IsCapped p h = ground (arith, h, top)

    end_block-IsCapped :
        (p : FFmpegProgress v) (value : String)
        → IsCapped p
        → IsCapped (end_block v r p value).0 × All IsCapped (end_block v r p value).1
    unfolding end_block
    end_block-IsCapped p value h =
        let shown = update_percent-IsCapped (record p { progress = value }) h in
        (
          elim (Bool-cases (value == "end")) [ inl e ↦ rw e top | inr e ↦ rw e shown ],
          elim (Bool-cases r.on_progress) [ inl e ↦ rw e (shown, tt) | inr e ↦ rw e tt ],
        )

    store_entry-IsCapped :
        (p : FFmpegProgress v) (key value : String)
        → IsCapped p
        → IsStep (store_entry v r p key value)
    unfolding store_entry
    store_entry-IsCapped p key value h =
        if_both IsStep (key == "frame") _ _ (h, tt)
          (if_both IsStep (key == "fps") _ _ (h, tt)
            (if_both IsStep (key == "bitrate") _ _ (h, tt)
              (if_both IsStep (key == "total_size") _ _ (h, tt)
                (if_both IsStep (key == "out_time_us") _ _ (h, tt)
                  (if_both IsStep (key == "dup_frames") _ _ (h, tt)
                    (if_both IsStep (key == "drop_frames") _ _ (h, tt)
                      (if_both IsStep (key == "speed") _ _ (h, tt)
                        (if_both IsStep (key == "progress") _ _ (end_block-IsCapped p value h)
                          (h, tt)))))))))

    parse_line-IsCapped :
        (p : FFmpegProgress v) (line : String)
        → IsCapped p
        → IsCapped (parse_line v r p line).0 × All IsCapped (parse_line v r p line).1
    unfolding parse_line
    parse_line-IsCapped p line h = elim (Option-cases (cut line b'=')) [
      | inl e ↦ rw (e, parse_line) (h, tt)
      | inr (kv, e) ↦
          rw (e, parse_line) (store_entry-IsCapped p (trim_space kv.0) (trim_space kv.1) h)
    ]

    parse_progress-from :
        (p : FFmpegProgress v) (lines : List String)
        → IsCapped p
        → All IsCapped (parse_progress v r p lines)
    unfolding parse_progress
    parse_progress-from p [] h = tt
    parse_progress-from p (line ∷ lines) h =
        let (next, shown) = parse_line-IsCapped p line h in
        All-append IsCapped (parse_line v r p line).1
          (parse_progress v r (parse_line v r p line).0 lines)
          (shown, parse_progress-from (parse_line v r p line).0 lines next)

  -- No percentage that a callback is given is above 100, whatever ffmpeg prints and whatever the
  -- duration of the input, where neither 0 nor 100 is above 100.
  pub parse_progress-IsCapped :
      (r : FFmpegRunner v) (lines : List String)
      → less (of_nat 100) (of_nat 100) ≡ false
      → less (of_nat 100) (of_nat 0) ≡ false
      → All IsCapped (parse_progress v r (no_progress v) lines)
  parse_progress-IsCapped r lines top zero_below =
      parse_progress-from top r (no_progress v) lines zero_below
