-- ===== src/Tests/Coders.antt =====
-- Coders that spell a number by as many elements, and a time and a URL by their texts.
use burrowcode.Base.{ℕ, zero, suc, String, ◌≡◌, refl, ap, true, Option, none, some}
use burrowcode.Golang.Int.{ℤ, pos, negsuc}
use burrowcode.Json.{Json, Items, Fields, array, object, string, boolean, null, item, no_items}
use burrowcode.Api.Codec.{Jx, JxLaws}
use burrowcode.Tests.Fixture.{whole}

abbrev read_object : Json → Option Fields
read_object (object fs) = some fs
read_object other = none

abbrev read_array : Json → Option Items
read_array (array xs) = some xs
read_array other = none

abbrev read_string : Json → Option String
read_string (string t) = some t
read_string other = none

abbrev ones : ℕ → Items
ones zero = no_items
ones (suc n) = item null (ones n)

unfoldable pub count_items : Items → ℕ
count_items no_items = zero
count_items (item j xs) = suc (count_items xs)

pub count_items-ones : (n : ℕ) → count_items (ones n) ≡ n
unfolding count_items
count_items-ones zero = refl
count_items-ones (suc n) = ap suc (count_items-ones n)

abbrev spell : ℕ → Json
spell n = array (ones n)

abbrev read_count : Json → Option ℕ
read_count (array xs) = some (count_items xs)
read_count other = none

-- a negative number has `true` before its elements
abbrev spell_int : ℤ → Json
spell_int (pos n) = spell n
spell_int (negsuc n) = array (item (boolean true) (ones n))

abbrev read_integer : Json → Option ℤ
read_integer (array (item (boolean b) xs)) = some (negsuc (count_items xs))
read_integer (array xs) = some (pos (count_items xs))
read_integer other = none

pub read_integer-spell_int : (n : ℤ) → read_integer (spell_int n) ≡ some n
unfolding count_items
read_integer-spell_int (pos zero) = refl
read_integer-spell_int (pos (suc n)) = ap (λ k. some (pos (suc k))) (count_items-ones n)
read_integer-spell_int (negsuc n) = ap (λ k. some (negsuc k)) (count_items-ones n)

abbrev pub coders : Jx whole
coders = record {
  read_fields = read_object;
  read_items = read_array;
  read_text = read_string;
  read_int = read_integer;
  read_float = read_count;
  read_date_time = read_count;
  read_uri = read_string;
  write_int = spell_int;
  write_float = spell;
  write_date_time = spell;
  write_uri = string;
  is_finite = λ x. true;
}

abbrev pub coder_laws : JxLaws whole coders
coder_laws = record {
  IsKept = λ t. Unit;
  IsUri = λ t. Unit;
  read-object = λ fs. refl;
  read-array = λ xs. refl;
  read-string = λ t. refl;
  read-write_int = λ n h. read_integer-spell_int n;
  read-write_float = λ x h. ap some (count_items-ones x);
  read-write_date_time = λ t h. ap some (count_items-ones t);
  read-write_uri = λ t h. refl;
}
