-- ===== src/Worker/Args.antt =====
-- `parseCommandArgs` of worker/main.go: a command line is cut into arguments.
pub mod RoundTrip
pub mod NonEmpty
use burrowcode.Base.{
  ℕ, Char, code, String, len, Bool, true, false, not, ◌&&◌, ◌||◌, List, [], ◌∷◌, ◌++◌, ltb, nat_eq,
  if◌then◌else◌,
}
use burrowcode.Golang.Strings.{push}

-- The variables of the loop.
pub record Scan : Type 0 where
  pub args : List String
  pub current : String
  pub in_quote : Bool
  pub quote_char : ℕ

unfoldable pub close_arg : Scan → Scan
close_arg s =
    if ltb 0 (len s.current) then record s { args = s.args ++ s.current ∷ []; current = "" } else s

unfoldable pub scan_rune : Scan → Char → Scan
unfolding close_arg
scan_rune s c =
    let r = code c in
    if (nat_eq r b'"' || nat_eq r 39) && not s.in_quote
    then record s { in_quote = true; quote_char = r }
    else if nat_eq r s.quote_char && s.in_quote
    then record s { in_quote = false; quote_char = 0 }
    else if nat_eq r b' ' && not s.in_quote
    then close_arg s
    else record s { current = push s.current c }

unfoldable pub scan_runes : Scan → String → Scan
unfolding scan_rune
scan_runes s String.[] = s
scan_runes s (String.◌∷◌ c cmd) = scan_runes (scan_rune s c) cmd

abbrev pub start : Scan
start = record { args = []; current = ""; in_quote = false; quote_char = 0 }

unfoldable pub parse_command_args : String → List String
unfolding scan_runes close_arg
parse_command_args cmd = (close_arg (scan_runes start cmd)).args
