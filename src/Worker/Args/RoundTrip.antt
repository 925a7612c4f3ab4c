-- ===== src/Worker/Args/RoundTrip.antt =====
-- What the arguments are of a command line that quotes each of them.
use burrowcode.Base.{
  Char, code, String, len, ◌⧺◌, ◌≡◌, ◌≢◌, refl, ap, ◌∙◌, true, false, List, [], ◌∷◌, ◌++◌, arith,
  All, ltb,
}
use text.Mathlib.TextLemmas.{nil-append, cons-append, append-nil, append_assoc}
use text.Mathlib.TextPositions.{len_utf8-pos}
use mathlib.Core.List.{append_assoc as append_assoc_list, append-nil as append_nil_list}
use Prim.Native.String
use burrowcode.Golang.Strings.{push}
use burrowcode.Golang.Strings.Replace.{Lacks}
use burrowcode.Worker.Args.{Scan, close_arg, scan_rune, scan_runes, parse_command_args}

-- between double quotes, with a space behind
abbrev pub quoted : String → String → String
quoted a rest = String.◌∷◌ "\"" (a ⧺ String.◌∷◌ "\"" (String.◌∷◌ " " rest))

abbrev pub quote_all : List String → String
quote_all [] = ""
quote_all (a ∷ more) = quoted a (quote_all more)

len-pos : (a : String) → a ≢ "" → ltb 0 (len a) ≡ true
len-pos String.[] h = absurd (h refl)
len-pos (String.◌∷◌ c s) h = let (k, e) = len_utf8-pos c in ground (arith, e, String.len.cons c s)

push-append : (cur a : String) (c : Char) → push cur c ⧺ a ≡ cur ⧺ String.◌∷◌ c a
push-append cur a c = simp (append_assoc, cons-append, nil-append)

abbrev outside : List String → Scan
outside done = record { args = done; current = ""; in_quote = false; quote_char = 0 }

scan_runes-cons :
    (t : Scan) (c : Char) (s : String)
    → scan_runes t (String.◌∷◌ c s) ≡ scan_runes (scan_rune t c) s
unfolding scan_runes
scan_runes-cons t c s = refl

module _ (args : List String) where
  abbrev inside : String → Scan
  inside cur = record { args = args; current = cur; in_quote = true; quote_char = b'"' }

  scan_rune-inside :
      (c : Char) (cur : String) → code c ≢ b'"' → scan_rune (inside cur) c ≡ inside (push cur c)
  unfolding scan_rune
  scan_rune-inside c cur h = ground arith

  scan_runes-inside :
      (a rest cur : String)
      → Lacks b'"' a
      → scan_runes (inside cur) (a ⧺ rest) ≡ scan_runes (inside (cur ⧺ a)) rest
  scan_runes-inside String.[] rest cur h = simp (nil-append, append-nil)
  scan_runes-inside (String.◌∷◌ c a) rest cur h = rw cons-append (
      scan_runes-cons (inside cur) c (a ⧺ rest)
      ∙ ap (λ t. scan_runes t (a ⧺ rest)) (scan_rune-inside c cur h.0)
      ∙ scan_runes-inside a rest (push cur c) h.1
      ∙ ap (λ t. scan_runes (inside t) rest) (push-append cur a c))

  -- the space behind a quoted argument closes it
  scan_runes-close :
      (a rest : String)
      → a ≢ ""
      → scan_runes (inside a) (String.◌∷◌ "\"" (String.◌∷◌ " " rest))
        ≡ scan_runes (outside (args ++ a ∷ [])) rest
  unfolding scan_runes scan_rune close_arg
  scan_runes-close a rest h = rw (len-pos a h)

  scan_runes-open :
      (s : String) → scan_runes (outside args) (String.◌∷◌ "\"" s) ≡ scan_runes (inside "") s
  unfolding scan_runes scan_rune
  scan_runes-open s = refl

  scan_runes-quoted :
      (a rest : String)
      → a ≢ ""
      → Lacks b'"' a
      → scan_runes (outside args) (quoted a rest) ≡ scan_runes (outside (args ++ a ∷ [])) rest
  scan_runes-quoted a rest h k =
      scan_runes-open (a ⧺ String.◌∷◌ "\"" (String.◌∷◌ " " rest))
      ∙ scan_runes-inside a (String.◌∷◌ "\"" (String.◌∷◌ " " rest)) "" k
      ∙ rw nil-append (scan_runes-close a rest h)

abbrev pub IsQuotable : String → Type 0
IsQuotable a = (a ≢ "") × Lacks b'"' a

scan_runes-quote_all :
    (more args : List String)
    → All IsQuotable more
    → scan_runes (outside args) (quote_all more) ≡ outside (args ++ more)
unfolding scan_runes
scan_runes-quote_all [] args h = rw append_nil_list
scan_runes-quote_all (a ∷ more) args (h, hs) =
    scan_runes-quoted args a (quote_all more) h.0 h.1
    ∙ scan_runes-quote_all more (args ++ a ∷ []) hs
    ∙ ap outside (append_assoc_list args (a ∷ []) more)

-- Arguments that are not empty and hold no double quote, each written between double quotes with a
-- space behind, are the arguments of the command line: spaces and single quotes in them are kept.
pub parse_command_args-quote_all :
    (args : List String) → All IsQuotable args → parse_command_args (quote_all args) ≡ args
unfolding parse_command_args close_arg
parse_command_args-quote_all args h = ap (λ t. (close_arg t).args) (scan_runes-quote_all args [] h)
