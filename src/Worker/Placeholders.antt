-- ===== src/Worker/Placeholders.antt =====
-- `expandPlaceholders` of worker/main.go.
pub mod Hole
pub mod Template
pub mod Order
use burrowcode.Base.{String, ◌⧺◌, [], ◌∷◌}
use burrowcode.Golang.Maps.{Map}
use burrowcode.Golang.Strings.{replace_all}

unfoldable pub placeholder : String → String
placeholder key = "{{" ⧺ key ⧺ "}}"

-- one of the two loops: the entries in the order in which the iteration meets them
unfoldable pub expand_map : String → Map String → String
unfolding placeholder replace_all
expand_map result [] = result
expand_map result ((key, path) ∷ m) = expand_map (replace_all result (placeholder key) path) m

unfoldable pub expand_placeholders : String → Map String → Map String → String
unfolding expand_map
expand_placeholders cmd inputs outputs = expand_map (expand_map cmd inputs) outputs
