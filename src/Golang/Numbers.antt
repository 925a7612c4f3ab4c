-- ===== src/Golang/Numbers.antt =====
-- Functions of Go's package strconv. A number that does not parse is told apart from one out of
-- range, since a caller that ignores the error then uses the bound.
pub mod RoundTrip
use burrowcode.Base.{
  ℕ, zero, suc, ◌+◌, ◌-◌, ◌*◌, ◌/◌, ◌%◌, ◌^◌, code, String, ◌⧺◌, Bool, true, false, ◌||◌, Option,
  none, some, [], ◌∷◌, leb, ltb, nat_eq, if◌then◌else◌, one_of,
}
use burrowcode.Golang.Int.{ℤ, pos, negsuc, neg}

pub data Parsed {ℓ} (A : Type ℓ) : Type ℓ where
  parsed : A → Parsed A
  out_of_range : A → Parsed A
  bad_syntax : Parsed A

abbrev pub max_uint64 : ℕ
max_uint64 = 2 ^ 64 - 1

-- `ParseUint(s, 10, 64)`: `n` is the value of the digits read so far
parse_uint_from : ℕ → String → Parsed ℕ
parse_uint_from n String.[] = parsed n
parse_uint_from n (String.◌∷◌ c s) =
    let d = code c - b'0' in
    let rest = parse_uint_from (n * 10 + d) s in
    if ltb (code c) b'0' || ltb b'9' (code c)
    then bad_syntax
    else if ltb max_uint64 (n * 10 + d)
    then out_of_range max_uint64
    else rest

unfoldable pub parse_uint : String → Parsed ℕ
unfolding parse_uint_from
parse_uint String.[] = bad_syntax
parse_uint (String.◌∷◌ c s) = parse_uint_from 0 (String.◌∷◌ c s)

abbrev to_signed : Bool → ℕ → Parsed ℤ
to_signed true n = if ltb (2 ^ 63) n then out_of_range (neg (2 ^ 63)) else parsed (neg n)
to_signed false n = if leb (2 ^ 63) n then out_of_range (pos (2 ^ 63 - 1)) else parsed (pos n)

abbrev signed : Bool → Parsed ℕ → Parsed ℤ
signed is_neg (parsed n) = to_signed is_neg n
signed is_neg (out_of_range n) = to_signed is_neg n
signed is_neg bad_syntax = bad_syntax

-- `ParseInt(s, 10, 64)`, and `Atoi(s)` where an int has 64 bits
unfoldable pub parse_int : String → Parsed ℤ
unfolding parse_uint
parse_int String.[] = bad_syntax
parse_int (String.◌∷◌ c s) =
    if nat_eq (code c) b'-'
    then signed true (parse_uint s)
    else if nat_eq (code c) b'+'
    then signed false (parse_uint s)
    else signed false (parse_uint (String.◌∷◌ c s))

-- the value, where the code ignores the error
abbrev pub value_or_bound : Parsed ℤ → ℤ
value_or_bound (parsed n) = n
value_or_bound (out_of_range n) = n
value_or_bound bad_syntax = pos 0

-- the value, where the code tests the error
abbrev pub value? {ℓ} : {A : Type ℓ} → Parsed A → Option A
value? (parsed n) = some n
value? (out_of_range n) = none
value? bad_syntax = none

unfoldable pub parse_bool : String → Option Bool
parse_bool s =
    if one_of s ("1" ∷ "t" ∷ "T" ∷ "TRUE" ∷ "true" ∷ "True" ∷ [])
    then some true
    else if one_of s ("0" ∷ "f" ∷ "F" ∷ "FALSE" ∷ "false" ∷ "False" ∷ [])
    then some false
    else none

digit : ℕ → String
digit n =
    if nat_eq n 0
    then "0"
    else if nat_eq n 1
    then "1"
    else if nat_eq n 2
    then "2"
    else if nat_eq n 3
    then "3"
    else if nat_eq n 4
    then "4"
    else if nat_eq n 5
    then "5"
    else if nat_eq n 6
    then "6"
    else if nat_eq n 7
    then "7"
    else if nat_eq n 8
    then "8"
    else "9"

-- the digits of `n`, before `out`; more fuel than `n` is never used up
format_from : ℕ → ℕ → String → String
format_from zero n out = out
format_from (suc fuel) n out =
    let more = format_from fuel (n / 10) (digit (n % 10) ⧺ out) in
    if ltb n 10 then digit n ⧺ out else more

-- `%d` of a number that is not negative
unfoldable pub format_nat : ℕ → String
unfolding format_from digit
format_nat n = format_from (suc n) n ""

unfoldable pub format_int : ℤ → String
unfolding format_nat
format_int (pos n) = format_nat n
format_int (negsuc n) = "-" ⧺ format_nat (suc n)
