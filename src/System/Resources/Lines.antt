-- ===== src/System/Resources/Lines.antt =====
-- What a line of /proc/meminfo gives, and what the lines of the file leave: worker/system/resources.go.
use burrowcode.Base.{
  ℕ, ◌*◌, ◌%◌, ◌^◌, String, ◌≡◌, refl, sym, ap, ◌∙◌, Bool, true, false, Bool-cases, inl, inr,
  Option, none, some, List, [], ◌∷◌, ◌==◌, eq_iff, if◌then◌else◌,
}
use mathlib.Core.Path.{subst}
use burrowcode.Golang.Numbers.{Parsed, parsed, out_of_range, bad_syntax, parse_uint}
use burrowcode.Golang.Strings.{fields}
use burrowcode.System.Resources.{
  MemInfo, store_field, store_parsed, store_fields, read_line, read_lines,
}

-- a number of kilobytes, in bytes of 64 bits
abbrev pub bytes : Parsed ℕ → Option ℕ
bytes (parsed kb) = some (kb * 1024 % 2 ^ 64)
bytes (out_of_range kb) = none
bytes bad_syntax = none

-- the bytes that a line gives for a name
abbrev pub bytes_in : String → List String → Option ℕ
bytes_in name (first ∷ amount ∷ more) = if first == name then bytes (parse_uint amount) else none
bytes_in name _ = none

abbrev pub later_of : Option ℕ → Option ℕ → Option ℕ
later_of a none = a
later_of a (some n) = some n

-- the bytes that the last line with a number for the name gives
abbrev pub last_bytes : String → List String → Option ℕ
last_bytes name [] = none
last_bytes name (line ∷ lines) = later_of (bytes_in name (fields line)) (last_bytes name lines)

abbrev pub or_before : ℕ → Option ℕ → ℕ
or_before n none = n
or_before n (some k) = k

-- no bytes where there is no such line
abbrev pub total_of : String → List String → ℕ
total_of name lines = or_before 0 (last_bytes name lines)

-- The numbers of `j` are those that `found` has by name, and else those of `i`.
pub record IsUpdate (found : String → Option ℕ) (i j : MemInfo) : Type 0 where
  pub total : j.mem_total ≡ or_before i.mem_total (found "MemTotal:")
  pub available : j.mem_available ≡ or_before i.mem_available (found "MemAvailable:")
  pub free : j.mem_free ≡ or_before i.mem_free (found "MemFree:")
  pub buffers : j.buffers ≡ or_before i.buffers (found "Buffers:")
  pub cached : j.cached ≡ or_before i.cached (found "Cached:")

same-IsUpdate : (i : MemInfo) → IsUpdate (λ name. none) i i
same-IsUpdate i = record {
  total = refl;
  available = refl;
  free = refl;
  buffers = refl;
  cached = refl;
}

unfound :
    (i : MemInfo) (found : String → Option ℕ)
    → found "MemTotal:" ≡ none
    → found "MemAvailable:" ≡ none
    → found "MemFree:" ≡ none
    → found "Buffers:" ≡ none
    → found "Cached:" ≡ none
    → IsUpdate found i i
unfound i found t a f b c = record {
  total = sym (ap (or_before i.mem_total) t);
  available = sym (ap (or_before i.mem_available) a);
  free = sym (ap (or_before i.mem_free) f);
  buffers = sym (ap (or_before i.buffers) b);
  cached = sym (ap (or_before i.cached) c);
}

unnamed-IsUpdate :
    (i : MemInfo) (first : String) → IsUpdate (λ name. if first == name then none else none) i i
unnamed-IsUpdate i first =
    unfound i (λ name. if first == name then none else none) (never (first == "MemTotal:"))
      (never (first == "MemAvailable:")) (never (first == "MemFree:")) (never (first == "Buffers:"))
      (never (first == "Cached:"))
  where
    never : (b : Bool) → ◌≡◌ {A = Option ℕ} (if b then none else none) none
    never true = refl
    never false = refl

-- a number under one name
abbrev named : String → ℕ → String → Option ℕ
named first n name = if first == name then some n else none

store_field-IsUpdate :
    (i : MemInfo) (first : String) (n : ℕ) → IsUpdate (named first n) i (store_field i first n)
unfolding store_field
store_field-IsUpdate i first n =
    let given = λ (b : Bool). if b then some n else none in
    let Updates = λ (f : String). IsUpdate (named f n) i (store_field i f n) in
    elim (Bool-cases (first == "MemTotal:")) [
      | inl e ↦
          subst Updates (sym ((eq_iff first "MemTotal:").0 e))
            (record { total = refl; available = refl; free = refl; buffers = refl; cached = refl })
      | inr e0 ↦ elim (Bool-cases (first == "MemAvailable:")) [
        | inl e ↦
            subst Updates (sym ((eq_iff first "MemAvailable:").0 e)) (record {
              total = refl;
              available = refl;
              free = refl;
              buffers = refl;
              cached = refl;
            })
        | inr e1 ↦ elim (Bool-cases (first == "MemFree:")) [
          | inl e ↦ subst Updates (sym ((eq_iff first "MemFree:").0 e)) (record {
            total = refl;
            available = refl;
            free = refl;
            buffers = refl;
            cached = refl;
          })
          | inr e2 ↦ elim (Bool-cases (first == "Buffers:")) [
            | inl e ↦ subst Updates (sym ((eq_iff first "Buffers:").0 e)) (record {
              total = refl;
              available = refl;
              free = refl;
              buffers = refl;
              cached = refl;
            })
            | inr e3 ↦ elim (Bool-cases (first == "Cached:")) [
              | inl e ↦ subst Updates (sym ((eq_iff first "Cached:").0 e)) (record {
                total = refl;
                available = refl;
                free = refl;
                buffers = refl;
                cached = refl;
              })
              | inr e4 ↦
                  rw (e0, e1, e2, e3, e4)
                    (unfound i (named first n) (ap given e0) (ap given e1) (ap given e2)
                      (ap given e3) (ap given e4))
            ]
          ]
        ]
      ]
    ]

or_before-later_of :
    (n : ℕ) (a b : Option ℕ) → or_before (or_before n a) b ≡ or_before n (later_of a b)
or_before-later_of n a none = refl
or_before-later_of n a (some k) = refl

store_parsed-IsUpdate :
    (i : MemInfo) (first : String) (p : Parsed ℕ)
    → IsUpdate (λ name. if first == name then bytes p else none) i (store_parsed i first p)
store_parsed-IsUpdate i first (parsed kb) = store_field-IsUpdate i first (kb * 1024 % 2 ^ 64)
store_parsed-IsUpdate i first (out_of_range kb) = unnamed-IsUpdate i first
store_parsed-IsUpdate i first bad_syntax = unnamed-IsUpdate i first

store_fields-IsUpdate :
    (i : MemInfo) (words : List String)
    → IsUpdate (λ name. bytes_in name words) i (store_fields i words)
store_fields-IsUpdate i [] = same-IsUpdate i
store_fields-IsUpdate i (first ∷ []) = same-IsUpdate i
store_fields-IsUpdate i (first ∷ amount ∷ more) = store_parsed-IsUpdate i first (parse_uint amount)

pub read_lines-IsUpdate :
    (i : MemInfo) (lines : List String)
    → IsUpdate (λ name. last_bytes name lines) i (read_lines i lines)
unfolding read_lines read_line
read_lines-IsUpdate i [] = same-IsUpdate i
read_lines-IsUpdate i (line ∷ lines) =
    let one = store_fields-IsUpdate i (fields line) in
    let rest = read_lines-IsUpdate (store_fields i (fields line)) lines in
    let joined = λ (n : ℕ) (name : String).
      or_before-later_of n (bytes_in name (fields line)) (last_bytes name lines) in
    let behind = λ (name : String) (n : ℕ). or_before n (last_bytes name lines) in
    record {
      total = rest.total ∙ ap (behind "MemTotal:") one.total ∙ joined i.mem_total "MemTotal:";
      available =
          rest.available
          ∙ ap (behind "MemAvailable:") one.available
          ∙ joined i.mem_available "MemAvailable:";
      free = rest.free ∙ ap (behind "MemFree:") one.free ∙ joined i.mem_free "MemFree:";
      buffers = rest.buffers ∙ ap (behind "Buffers:") one.buffers ∙ joined i.buffers "Buffers:";
      cached = rest.cached ∙ ap (behind "Cached:") one.cached ∙ joined i.cached "Cached:";
    }
