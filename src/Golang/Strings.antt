-- ===== src/Golang/Strings.antt =====
-- Functions of Go's package strings.
pub mod Laws
pub mod Replace
use burrowcode.Base.{
  ℕ, zero, suc, ◌-◌, Char, code, String, ◌⧺◌, Bool, true, false, ◌&&◌, ◌||◌, Option, none, some,
  List, [], ◌∷◌, ◌++◌, ◌==◌, leb, nat_eq, if◌then◌else◌, one_of,
}
use Prim.Native.String.{count}

-- `s` with the rune `c` behind it, as `WriteRune` leaves it
abbrev pub push : String → Char → String
push s c = s ⧺ String.◌∷◌ c ""

unfoldable pub has_prefix : String → String → Bool
has_prefix s String.[] = true
has_prefix String.[] (String.◌∷◌ d p) = false
has_prefix (String.◌∷◌ c s) (String.◌∷◌ d p) = nat_eq (code c) (code d) && has_prefix s p

unfoldable pub trim_prefix : String → String → String
trim_prefix s String.[] = s
trim_prefix String.[] (String.◌∷◌ d p) = ""
trim_prefix (String.◌∷◌ c s) (String.◌∷◌ d p) =
    if has_prefix (String.◌∷◌ c s) (String.◌∷◌ d p) then trim_prefix s p else String.◌∷◌ c s

unfoldable pub trim_suffix : String → String → String
trim_suffix String.[] t = ""
trim_suffix (String.◌∷◌ c s) t = if String.◌∷◌ c s == t then "" else String.◌∷◌ c (trim_suffix s t)

unfoldable pub contains : String → String → Bool
unfolding has_prefix
contains String.[] t = t == ""
contains (String.◌∷◌ c s) t = has_prefix (String.◌∷◌ c s) t || contains s t

-- the loop of `ReplaceAll`; `skip` counts the runes left of a match that was replaced
pub replace_from : String → String → ℕ → String → String
replace_from old new skip String.[] = ""
replace_from old new (suc skip) (String.◌∷◌ c s) = replace_from old new skip s
replace_from old new zero (String.◌∷◌ c s) = elim (has_prefix (String.◌∷◌ c s) old) [
  | true ↦ new ⧺ replace_from old new (count old - 1) s
  | false ↦ String.◌∷◌ c (replace_from old new zero s)
]

-- `ReplaceAll(s, old, new)` for an `old` that is not empty
unfoldable pub replace_all : String → String → String → String
unfolding replace_from has_prefix
replace_all s old new = replace_from old new zero s

-- the loop of `Split` at a separator of one byte
split_from : ℕ → String → String → List String
split_from sep cur String.[] = cur ∷ []
split_from sep cur (String.◌∷◌ c s) = elim (nat_eq (code c) sep) [
  | true ↦ cur ∷ split_from sep "" s
  | false ↦ split_from sep (push cur c) s
]

unfoldable pub split : String → ℕ → List String
unfolding split_from
split s sep = split_from sep "" s

-- `SplitN(s, sep, 2)`, where it has two parts
cut_from : ℕ → String → String → Option (String × String)
cut_from sep before String.[] = none
cut_from sep before (String.◌∷◌ c s) = elim (nat_eq (code c) sep) [
  | true ↦ some (before, s)
  | false ↦ cut_from sep (push before c) s
]

unfoldable pub cut : String → ℕ → Option (String × String)
unfolding cut_from
cut s sep = cut_from sep "" s

-- `unicode.IsSpace`
is_space : Char → Bool
is_space c =
    let n = code c in
    leb 9 n && leb n 13
    || nat_eq n 32
    || nat_eq n 0x85
    || nat_eq n 0xa0
    || nat_eq n 0x1680
    || leb 0x2000 n && leb n 0x200a
    || nat_eq n 0x2028
    || nat_eq n 0x2029
    || nat_eq n 0x202f
    || nat_eq n 0x205f
    || nat_eq n 0x3000

trim_left : String → String
trim_left String.[] = ""
trim_left (String.◌∷◌ c s) = if is_space c then trim_left s else String.◌∷◌ c s

trim_right : String → String
trim_right String.[] = ""
trim_right (String.◌∷◌ c s) =
    let rest = trim_right s in if is_space c && rest == "" then "" else String.◌∷◌ c rest

unfoldable pub trim_space : String → String
unfolding trim_left trim_right is_space
trim_space s = trim_right (trim_left s)

add_field : String → List String → List String
add_field String.[] fs = fs
add_field s fs = s ∷ fs

fields_from : String → String → List String
fields_from cur String.[] = add_field cur []
fields_from cur (String.◌∷◌ c s) = elim (is_space c) [
  | true ↦ add_field cur (fields_from "" s)
  | false ↦ fields_from (push cur c) s
]

unfoldable pub fields : String → List String
unfolding fields_from add_field is_space
fields s = fields_from "" s

-- The lower-case form of the letters that have an ASCII one. Every other rune stays as it is,
-- which no comparison with an ASCII text can tell from Go's mapping.
unfoldable pub translate : String → String → Char → Char
translate String.[] lower c = c
translate (String.◌∷◌ u upper) String.[] c = c
translate (String.◌∷◌ u upper) (String.◌∷◌ l lower) c =
    if nat_eq (code u) (code c) then l else translate upper lower c

unfoldable pub to_lower : String → String
unfolding translate
to_lower String.[] = ""
to_lower (String.◌∷◌ c s) =
    String.◌∷◌ (translate "ABCDEFGHIJKLMNOPQRSTUVWXYZKİ" "abcdefghijklmnopqrstuvwxyzki" c)
      (to_lower s)
