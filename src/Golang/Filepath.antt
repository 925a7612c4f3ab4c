-- ===== src/Golang/Filepath.antt =====
-- Functions of Go's package path/filepath, where the separator is the slash.
use burrowcode.Base.{
  code, String, ◌⧺◌, Bool, true, false, ◌||◌, List, [], ◌∷◌, ◌==◌, nat_eq, if◌then◌else◌,
}
use mathlib.Core.List.{reverse}
use burrowcode.Golang.Strings.{has_prefix, split, push}

-- the loop of `Ext`, from the front: the text from the last dot behind the last slash
ext_from : String → String → String
ext_from found String.[] = found
ext_from found (String.◌∷◌ c s) =
    ext_from
      (if nat_eq (code c) b'/' then "" else if nat_eq (code c) b'.' then String.◌∷◌ c s else found)
      s

unfoldable pub ext : String → String
unfolding ext_from
ext path = ext_from "" path

-- one path element of `Clean`; the elements kept so far have the last one first
clean_step : Bool → List String → String → List String
clean_step rooted [] part =
    if part == "" || part == "."
    then []
    else if part == ".."
    then (if rooted then [] else ".." ∷ [])
    else part ∷ []
clean_step rooted (top ∷ kept) part =
    if part == "" || part == "."
    then top ∷ kept
    else if part == ".."
    then (if top == ".." then ".." ∷ top ∷ kept else kept)
    else part ∷ top ∷ kept

clean_from : Bool → List String → List String → List String
clean_from rooted kept [] = kept
clean_from rooted kept (part ∷ parts) = clean_from rooted (clean_step rooted kept part) parts

join_slash : List String → String
join_slash [] = ""
join_slash (p ∷ []) = p
join_slash (p ∷ q ∷ ps) = p ⧺ "/" ⧺ join_slash (q ∷ ps)

or_dot : String → String
or_dot String.[] = "."
or_dot s = s

unfoldable pub clean : String → String
unfolding clean_from clean_step join_slash or_dot has_prefix split
clean path =
    if has_prefix path "/"
    then "/" ⧺ join_slash (reverse (clean_from true [] (split path b'/')))
    else or_dot (join_slash (reverse (clean_from false [] (split path b'/'))))

-- `Join(a, b)`
unfoldable pub join : String → String → String
unfolding clean
join a b = if a == "" then (if b == "" then "" else clean b) else clean (a ⧺ "/" ⧺ b)

-- the text up to the last slash, with it
dir_from : String → String → String → String
dir_from found seen String.[] = found
dir_from found seen (String.◌∷◌ c s) =
    dir_from (if nat_eq (code c) b'/' then push seen c else found) (push seen c) s

unfoldable pub dir : String → String
unfolding dir_from clean
dir path = clean (dir_from "" "" path)
