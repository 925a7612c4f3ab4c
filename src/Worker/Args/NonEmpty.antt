-- ===== src/Worker/Args/NonEmpty.antt =====
-- No argument of a command line is empty.
use burrowcode.Base.{
  ◌<◌, ◌&&◌, ◌||◌, not, nat_eq, code, Char, String, len, true, false, [], ◌∷◌, arith, All,
  All-append, ltb, Bool-cases, if_both, inl, inr,
}
use burrowcode.Golang.Strings.{push}
use burrowcode.Worker.Args.{Scan, close_arg, scan_rune, scan_runes, start, parse_command_args}

abbrev pub IsArgument : String → Type 0
IsArgument a = 0 < len a

record IsSound (s : Scan) : Type 0 where
  each : All IsArgument s.args

close_arg-IsSound : (s : Scan) → IsSound s → IsSound (close_arg s)
unfolding close_arg
close_arg-IsSound s h = elim (Bool-cases (ltb 0 (len s.current))) [
  | inl full ↦
      rw full (record {
        each = All-append IsArgument s.args (s.current ∷ []) (h.each, (ground arith, tt));
      })
  | inr bare ↦ rw bare h
]

scan_rune-IsSound : (s : Scan) (c : Char) → IsSound s → IsSound (scan_rune s c)
unfolding scan_rune
scan_rune-IsSound s c h =
    let r = code c in
    if_both IsSound ((nat_eq r b'"' || nat_eq r 39) && not s.in_quote)
      (record s { in_quote = true; quote_char = r }) _ (record { each = h.each })
      (if_both IsSound (nat_eq r s.quote_char && s.in_quote)
        (record s { in_quote = false; quote_char = 0 }) _ (record { each = h.each })
        (if_both IsSound (nat_eq r b' ' && not s.in_quote) (close_arg s)
          (record s { current = push s.current c }) (close_arg-IsSound s h)
          (record { each = h.each })))

scan_runes-IsSound : (s : Scan) (cmd : String) → IsSound s → IsSound (scan_runes s cmd)
unfolding scan_runes
scan_runes-IsSound s String.[] h = h
scan_runes-IsSound s (String.◌∷◌ c cmd) h =
    scan_runes-IsSound (scan_rune s c) cmd (scan_rune-IsSound s c h)

-- Whatever the command line, quoted or not, none of the arguments that are parsed is empty.
pub parse_command_args-IsArgument : (cmd : String) → All IsArgument (parse_command_args cmd)
unfolding parse_command_args
parse_command_args-IsArgument cmd =
    (close_arg-IsSound (scan_runes start cmd)
      (scan_runes-IsSound start cmd (record { each = tt }))).each
