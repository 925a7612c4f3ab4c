-- ===== src/Golang/Numbers/RoundTrip.antt =====
-- A number that is printed parses to itself.
use burrowcode.Base.{
  ℕ, zero, suc, ◌+◌, ◌-◌, ◌*◌, ◌/◌, ◌%◌, ◌^◌, ◌<◌, ◌≤◌, Char, code, ◌||◌, String, ◌⧺◌, ◌≡◌, refl,
  sym, ap, ◌∙◌, false, Bool-cases, inl, inr, arith, leb, ltb, ltb→lt, nat_eq,
}
use text.Mathlib.TextLemmas.{nil-append, cons-append}
use burrowcode.Golang.Int.{pos}
use burrowcode.Golang.Numbers.{
  parsed, max_uint64, parse_uint_from, parse_uint, parse_int, digit, format_from, format_nat,
  format_int,
}

ltb-false : (a b : ℕ) → b ≤ a → ltb a b ≡ false
ltb-false a b h = ground arith

one_rune : (c : Char) (out : String) → String.◌∷◌ c "" ⧺ out ≡ String.◌∷◌ c out
one_rune c out = cons-append c "" out ∙ ap (String.◌∷◌ c) (nil-append out)

leb-false : (n : ℕ) → n < 2 ^ 63 → leb (2 ^ 63) n ≡ false
leb-false n h = ground arith

-- a rune that is a digit
parse_uint_from-rune :
    (k : ℕ) (c : Char) (out : String)
    → (ltb (code c) b'0' || ltb b'9' (code c)) ≡ false
    → k * 10 + (code c - b'0') ≤ max_uint64
    → parse_uint_from k (String.◌∷◌ c "" ⧺ out) ≡ parse_uint_from (k * 10 + (code c - b'0')) out
unfolding parse_uint_from
parse_uint_from-rune k c out d h =
    ap (parse_uint_from k) (one_rune c out)
    ∙ rw (d, ltb-false max_uint64 (k * 10 + (code c - b'0')) h, parse_uint_from) refl

ltb→ge : (a b : ℕ) → ltb a b ≡ false → b ≤ a
ltb→ge a b h = ground arith

parse_uint_from-digit :
    (k d : ℕ) (out : String)
    → d < 10
    → k * 10 + d ≤ max_uint64
    → parse_uint_from k (digit d ⧺ out) ≡ parse_uint_from (k * 10 + d) out
unfolding digit
parse_uint_from-digit k zero out l h = parse_uint_from-rune k "0" out refl h
parse_uint_from-digit k (suc zero) out l h = parse_uint_from-rune k "1" out refl h
parse_uint_from-digit k (suc (suc zero)) out l h = parse_uint_from-rune k "2" out refl h
parse_uint_from-digit k (suc (suc (suc zero))) out l h = parse_uint_from-rune k "3" out refl h
parse_uint_from-digit k (suc (suc (suc (suc zero)))) out l h = parse_uint_from-rune k "4" out refl h
parse_uint_from-digit k (suc (suc (suc (suc (suc zero))))) out l h =
    parse_uint_from-rune k "5" out refl h
parse_uint_from-digit k (suc (suc (suc (suc (suc (suc zero)))))) out l h =
    parse_uint_from-rune k "6" out refl h
parse_uint_from-digit k (suc (suc (suc (suc (suc (suc (suc zero))))))) out l h =
    parse_uint_from-rune k "7" out refl h
parse_uint_from-digit k (suc (suc (suc (suc (suc (suc (suc (suc zero)))))))) out l h =
    parse_uint_from-rune k "8" out refl h
parse_uint_from-digit k (suc (suc (suc (suc (suc (suc (suc (suc (suc zero))))))))) out l h =
    parse_uint_from-rune k "9" out refl h
parse_uint_from-digit k (suc (suc (suc (suc (suc (suc (suc (suc (suc (suc d)))))))))) out l h =
    absurd (omega arith)

parse_uint_from-format_from :
    (fuel n : ℕ) (out : String)
    → n < fuel
    → n ≤ max_uint64
    → parse_uint_from 0 (format_from fuel n out) ≡ parse_uint_from n out
unfolding format_from
parse_uint_from-format_from zero n out l h = absurd (omega arith)
parse_uint_from-format_from (suc fuel) n out l h = elim (Bool-cases (ltb n 10)) [
  | inl small ↦
      let whole : 0 * 10 + n ≡ n = omega arith in
      rw small (
        parse_uint_from-digit 0 n out (ltb→lt n 10 small) (omega arith)
        ∙ ap (λ k. parse_uint_from k out) whole)
  | inr big ↦
      let large = ltb→ge n 10 big in
      let whole : n / 10 * 10 + n % 10 ≡ n = omega arith in
      rw big (
        parse_uint_from-format_from fuel (n / 10) (digit (n % 10) ⧺ out) (omega arith) (omega arith)
        ∙ parse_uint_from-digit (n / 10) (n % 10) out (omega arith) (omega arith)
        ∙ ap (λ k. parse_uint_from k out) whole)
]

digit-rune : (d : ℕ) → d < 10 → (c : Char) × (digit d ≡ String.◌∷◌ c "")
unfolding digit
digit-rune zero l = ("0", refl)
digit-rune (suc zero) l = ("1", refl)
digit-rune (suc (suc zero)) l = ("2", refl)
digit-rune (suc (suc (suc zero))) l = ("3", refl)
digit-rune (suc (suc (suc (suc zero)))) l = ("4", refl)
digit-rune (suc (suc (suc (suc (suc zero))))) l = ("5", refl)
digit-rune (suc (suc (suc (suc (suc (suc zero)))))) l = ("6", refl)
digit-rune (suc (suc (suc (suc (suc (suc (suc zero))))))) l = ("7", refl)
digit-rune (suc (suc (suc (suc (suc (suc (suc (suc zero)))))))) l = ("8", refl)
digit-rune (suc (suc (suc (suc (suc (suc (suc (suc (suc zero))))))))) l = ("9", refl)
digit-rune (suc (suc (suc (suc (suc (suc (suc (suc (suc (suc d)))))))))) l = absurd (omega arith)

format_from-rune :
    (fuel n : ℕ) (out : String)
    → n < fuel
    → (c : Char) × (s : String) × (format_from fuel n out ≡ String.◌∷◌ c s)
unfolding format_from
format_from-rune zero n out l = absurd (omega arith)
format_from-rune (suc fuel) n out l = elim (Bool-cases (ltb n 10)) [
  | inl small ↦
      let (c, e) = digit-rune n (ltb→lt n 10 small) in
      rw small (c, out, ap (λ t. t ⧺ out) e ∙ one_rune c out)
  | inr big ↦
      let large = ltb→ge n 10 big in
      rw big (format_from-rune fuel (n / 10) (digit (n % 10) ⧺ out) (omega arith))
]

parse_uint-format_nat : (n : ℕ) → n ≤ max_uint64 → parse_uint (format_nat n) ≡ parsed n
unfolding parse_uint format_nat
parse_uint-format_nat n h =
    let (c, s, e) = format_from-rune (suc n) n "" (omega arith) in
    ap parse_uint e
    ∙ sym (ap (parse_uint_from 0) e)
    ∙ parse_uint_from-format_from (suc n) n "" (omega arith) h
    ∙ refl {a = parsed n}

-- the first rune of what parses is a digit
first_digit :
    (c : Char) (s : String) (n : ℕ)
    → parse_uint (String.◌∷◌ c s) ≡ parsed n
    → (ltb (code c) b'0' || ltb b'9' (code c)) ≡ false
unfolding parse_uint parse_uint_from
first_digit c s n h = elim (Bool-cases (ltb (code c) b'0' || ltb b'9' (code c))) [
  | inl e ↦ absurd (cc (rw (e, parse_uint_from) at h))
  | inr e ↦ e
]

no_sign :
    (k : ℕ) → (ltb k b'0' || ltb b'9' k) ≡ false → (nat_eq k b'-' ≡ false) × (nat_eq k b'+' ≡ false)
no_sign k h = (ground arith, ground arith)

empty_unparsed : (n : ℕ) → parse_uint "" ≡ parsed n → ⊥
unfolding parse_uint
empty_unparsed n h = cc h

-- the text of a number that is not negative has no sign
parse_int-unsigned :
    (t : String) (n : ℕ) → parse_uint t ≡ parsed n → n < 2 ^ 63 → parse_int t ≡ parsed (pos n)
unfolding parse_int
parse_int-unsigned String.[] n h l = absurd (empty_unparsed n h)
parse_int-unsigned (String.◌∷◌ c s) n h l =
    let (minus, plus) = no_sign (code c) (first_digit c s n h) in
    rw (minus, plus, h, leb-false n l) refl

-- An integer of 64 bits that is printed parses to itself.
pub parse_int-format_int : (n : ℕ) → n < 2 ^ 63 → parse_int (format_int (pos n)) ≡ parsed (pos n)
unfolding format_int
parse_int-format_int n l =
    parse_int-unsigned (format_nat n) n (parse_uint-format_nat n (omega arith)) l
