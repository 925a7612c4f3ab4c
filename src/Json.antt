-- ===== src/Json.antt =====
-- JSON values, and the parts of Go's package encoding/json that read and write them. A text is
-- represented by the value that it spells: how a value is spelled plays no part in the program.
pub mod RoundTrip
use burrowcode.Base.{
  String, Bool, true, false, Option, none, some, List, [], ◌∷◌, ◌==◌, if◌then◌else◌,
}
use burrowcode.Golang.Maps.{Map, insert}
use burrowcode.Golang.Strings.{translate}
use Prim.Native.String.{compare}
use text.Mathlib.Text.{is_le}

-- A number is kept as its spelling.
mutual
  pub data Json : Type 0 where
    null : Json
    boolean : Bool → Json
    number : String → Json
    string : String → Json
    array : Items → Json
    object : Fields → Json

  pub data Items : Type 0 where
    no_items : Items
    item : Json → Items → Items

  pub data Fields : Type 0 where
    no_fields : Fields
    field : String → Json → Fields → Fields

-- Marshal writes the keys of a map in order.
module _ {ℓ} {V : Type ℓ} where
  unfoldable pub insert_sorted : String → V → Map V → Map V
  insert_sorted k v [] = (k, v) ∷ []
  insert_sorted k v ((j, w) ∷ m) =
      if is_le (compare k j) then (k, v) ∷ (j, w) ∷ m else (j, w) ∷ insert_sorted k v m

  unfoldable pub sort_keys : Map V → Map V
  unfolding insert_sorted
  sort_keys [] = []
  sort_keys ((k, v) ∷ m) = insert_sorted k v (sort_keys m)

unfoldable pub text_fields : Map String → Fields
text_fields [] = no_fields
text_fields ((k, v) ∷ m) = field k (string v) (text_fields m)

unfoldable pub text_items : List String → Items
text_items [] = no_items
text_items (t ∷ ts) = item (string t) (text_items ts)

-- a `map[string]string`
unfoldable pub text_map : Map String → Json
unfolding text_fields sort_keys
text_map m = object (text_fields (sort_keys m))

-- a field with the option `omitempty`
abbrev pub text_unless_empty : String → String → Fields → Fields
text_unless_empty name value rest = if value == "" then rest else field name (string value) rest

abbrev pub texts_unless_empty : String → List String → Fields → Fields
texts_unless_empty name [] rest = rest
texts_unless_empty name (t ∷ ts) rest = field name (array (text_items (t ∷ ts))) rest

-- Unmarshal takes a key for a field of the struct whatever the case of its letters.
fold_name : String → String
unfolding translate
fold_name String.[] = ""
fold_name (String.◌∷◌ c s) =
    String.◌∷◌ (translate "ABCDEFGHIJKLMNOPQRSTUVWXYZKſ" "abcdefghijklmnopqrstuvwxyzks" c)
      (fold_name s)

unfoldable pub same_name : String → String → Bool
unfolding fold_name
same_name key name = fold_name key == name

-- What Unmarshal does to a destination: the value that it leaves there, and whether all fitted.
-- A part that does not fit is skipped, and the first such part is the error at the end.
abbrev pub Decoded : Type 0 → Type 0
Decoded A = A × Bool

-- into a `string`
unfoldable pub decode_text : Json → String → Decoded String
decode_text (string t) old = (t, true)
decode_text null old = (old, true)
decode_text _ old = (old, false)

-- an entry of a `map[string]string` that does not fit leaves the empty text
unfoldable pub decode_entries : Fields → Map String → Bool → Decoded (Map String)
unfolding decode_text
decode_entries no_fields m fine = (m, fine)
decode_entries (field k v rest) m fine =
    let (t, fits) = decode_text v "" in
    decode_entries rest (insert k t m) (if fits then fine else false)

-- into a `map[string]string`, where `none` is the nil map
unfoldable pub decode_map : Json → Option (Map String) → Decoded (Option (Map String))
unfolding decode_entries
decode_map (object fs) none = let (m, fine) = decode_entries fs [] true in (some m, fine)
decode_map (object fs) (some old) = let (m, fine) = decode_entries fs old true in (some m, fine)
decode_map null old = (none, true)
decode_map _ old = (old, false)

unfoldable pub decode_items : Items → Bool → Decoded (List String)
unfolding decode_text
decode_items no_items fine = ([], fine)
decode_items (item v rest) fine =
    let (t, fits) = decode_text v "" in
    let (ts, fine') = decode_items rest (if fits then fine else false) in (t ∷ ts, fine')

-- into a `[]string`
unfoldable pub decode_texts : Json → List String → Decoded (List String)
unfolding decode_items
decode_texts (array xs) old = decode_items xs true
decode_texts null old = ([], true)
decode_texts _ old = (old, false)
