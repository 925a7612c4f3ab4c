-- ===== src/Worker/Placeholders/Order.antt =====
-- The order in which the loops of `expandPlaceholders` meet the entries of a map, which Go leaves
-- open.
use burrowcode.Base.{
  String, ◌⧺◌, ◌≡◌, refl, sym, ap, ◌∙◌, Bool-cases, inl, inr, Option, none, some, List, [], ◌∷◌,
  ◌++◌, map, All, ◌==◌,
}
use burrowcode.Golang.Maps.{Map, lookup}
use burrowcode.Worker.Placeholders.{expand_placeholders}
use burrowcode.Worker.Placeholders.Template.{
  Piece, literal, hole, render_piece, render, IsPlain, IsPlainEntry, resolve, resolve-append,
  expand_placeholders-render,
}

-- two orders of the entries of a map
pub record IsSameMap (m m' : Map String) : Type 0 where
  pub each : (key : String) → lookup key m ≡ lookup key m'

abbrev found : String → Option String → Piece
found key none = hole key
found key (some path) = literal path

resolve-lookup : (m : Map String) (key : String) → resolve m (hole key) ≡ found key (lookup key m)
unfolding lookup
resolve-lookup [] key = refl
resolve-lookup ((k, path) ∷ m) key = elim (Bool-cases (k == key)) [
  | inl e ↦ rw e refl
  | inr e ↦ rw e (resolve-lookup m key)
]

resolve-IsSameMap : (m m' : Map String) (p : Piece) → IsSameMap m m' → resolve m p ≡ resolve m' p
resolve-IsSameMap m m' (literal a) h = refl
resolve-IsSameMap m m' (hole key) h =
    resolve-lookup m key ∙ ap (λ x. found key x) (h.each key) ∙ sym (resolve-lookup m' key)

module _ (inputs inputs' outputs outputs' : Map String) (same_inputs : IsSameMap inputs inputs')
    (same_outputs : IsSameMap outputs outputs') where
  render-IsSameMap :
      (ps : List Piece)
      → render (map (resolve (inputs ++ outputs)) ps)
        ≡ render (map (resolve (inputs' ++ outputs')) ps)
  render-IsSameMap [] = refl
  render-IsSameMap (p ∷ ps) =
      let one : resolve (inputs ++ outputs) p ≡ resolve (inputs' ++ outputs') p =
        sym (resolve-append inputs outputs p)
        ∙ ap (λ q. resolve outputs q) (resolve-IsSameMap inputs inputs' p same_inputs)
        ∙ resolve-IsSameMap outputs outputs' (resolve inputs' p) same_outputs
        ∙ resolve-append inputs' outputs' p in
      ap (λ q. render_piece q ⧺ render (map (resolve (inputs ++ outputs)) ps)) one
      ∙ ap (λ t. render_piece (resolve (inputs' ++ outputs') p) ⧺ t) (render-IsSameMap ps)

  -- The expansion of a command is the same in whatever order the loops meet the entries of the two
  -- maps, where the command's texts and keys, and the maps' keys and paths, have no braces.
  pub expand_placeholders-IsSameMap :
      (ps : List Piece)
      → All IsPlain ps
      → All IsPlainEntry inputs
      → All IsPlainEntry outputs
      → All IsPlainEntry inputs'
      → All IsPlainEntry outputs'
      → expand_placeholders (render ps) inputs outputs
        ≡ expand_placeholders (render ps) inputs' outputs'
  expand_placeholders-IsSameMap ps h i o i' o' =
      expand_placeholders-render ps inputs outputs h i o
      ∙ render-IsSameMap ps
      ∙ sym (expand_placeholders-render ps inputs' outputs' h i' o')
