-- ===== src/Worker/Placeholders/Template.antt =====
-- What the placeholders of a command become.
use burrowcode.Base.{
  String, ◌⧺◌, ◌≡◌, refl, sym, ap, ◌∙◌, List, [], ◌∷◌, ◌++◌, map, ◌==◌, eq_iff, All, if◌then◌else◌,
  if_both, inl, inr, Bool-cases,
}
use burrowcode.Golang.Maps.{Map}
use burrowcode.Golang.Strings.{replace_all}
use burrowcode.Golang.Strings.Replace.{Lacks, replace_all-nil, replace_all-literal}
use burrowcode.Worker.Placeholders.{placeholder, expand_map, expand_placeholders}
use burrowcode.Worker.Placeholders.Hole.{
  IsPlainKey, behind_brace, placeholder-cons, replaced, other_hole, same_hole,
}

-- A command is made of pieces of text and of keys between double braces.
pub data Piece : Type 0 where
  literal hole : String → Piece

abbrev pub render_piece : Piece → String
render_piece (literal a) = a
render_piece (hole key) = placeholder key

abbrev pub render : List Piece → String
render [] = ""
render (p ∷ ps) = render_piece p ⧺ render ps

-- a text or key without braces
abbrev pub IsPlain : Piece → Type 0
IsPlain (literal a) = Lacks b'{' a
IsPlain (hole key) = IsPlainKey key

-- a piece with the paths that a map has for keys
abbrev pub resolve : Map String → Piece → Piece
resolve m (literal a) = literal a
resolve [] (hole key) = hole key
resolve ((k, path) ∷ m) (hole key) = if k == key then literal path else resolve m (hole key)

module _ (k v : String) (plain : IsPlainKey k) where
  -- the pieces with the path for the key
  abbrev fill : Piece → Piece
  fill p = resolve ((k, v) ∷ []) p

  render-fill :
      (ps : List Piece) → All IsPlain ps → replaced k v plain (render ps) ≡ render (map fill ps)
  render-fill [] h = replace_all-nil _ v
  render-fill (literal a ∷ ps) h =
      replace_all-literal "{" (behind_brace k "") v a (render ps) h.0
      ∙ ap (λ t. a ⧺ t) (render-fill ps h.1)
  render-fill (hole j ∷ ps) h = elim (Bool-cases (k == j)) [
    | inl same ↦ rw same (
        ap (λ x. replaced k v plain (placeholder x ⧺ render ps)) (sym ((eq_iff k j).0 same))
        ∙ same_hole k v plain (render ps)
        ∙ ap (λ t. v ⧺ t) (render-fill ps h.1))
    | inr other ↦ rw other (
        other_hole k v plain j (render ps) h.0 other
        ∙ ap (λ t. placeholder j ⧺ t) (render-fill ps h.1))
  ]

-- a key and a path without braces
abbrev pub IsPlainEntry : String × String → Type 0
IsPlainEntry (key, path) = IsPlain (hole key) × Lacks b'{' path

pub resolve-append :
    (m m' : Map String) (p : Piece) → resolve m' (resolve m p) ≡ resolve (m ++ m') p
resolve-append m m' (literal a) = refl
resolve-append [] m' (hole j) = refl
resolve-append ((k, path) ∷ m) m' (hole j) = elim (Bool-cases (k == j)) [
  | inl e ↦ rw e refl
  | inr e ↦ rw e (resolve-append m m' (hole j))
]

render-resolve :
    (m m' : Map String) (ps : List Piece)
    → render (map (resolve m') (map (resolve m) ps)) ≡ render (map (resolve (m ++ m')) ps)
render-resolve m m' [] = refl
render-resolve m m' (p ∷ ps) =
    ap (λ q. render_piece q ⧺ render (map (resolve m') (map (resolve m) ps)))
      (resolve-append m m' p)
    ∙ ap (λ t. render_piece (resolve (m ++ m') p) ⧺ t) (render-resolve m m' ps)

resolve-IsPlain :
    (m : Map String) (p : Piece) → All IsPlainEntry m → IsPlain p → IsPlain (resolve m p)
resolve-IsPlain m (literal a) h k = k
resolve-IsPlain [] (hole j) h k = k
resolve-IsPlain ((key, path) ∷ m) (hole j) h k =
    if_both IsPlain (key == j) (literal path) (resolve m (hole j)) h.0.1
      (resolve-IsPlain m (hole j) h.1 k)

All-resolve :
    (m : Map String) (ps : List Piece)
    → All IsPlainEntry m
    → All IsPlain ps
    → All IsPlain (map (resolve m) ps)
All-resolve m [] h k = tt
All-resolve m (p ∷ ps) h k = (resolve-IsPlain m p h k.0, All-resolve m ps h k.1)

resolve-nil : (p : Piece) → resolve [] p ≡ p
resolve-nil (literal a) = refl
resolve-nil (hole j) = refl

render-resolve_nil : (ps : List Piece) → render ps ≡ render (map (resolve []) ps)
render-resolve_nil [] = refl
render-resolve_nil (p ∷ ps) =
    ap (λ q. render_piece q ⧺ render ps) (sym (resolve-nil p))
    ∙ ap (λ t. render_piece (resolve [] p) ⧺ t) (render-resolve_nil ps)

expand_map-render :
    (m : Map String) (ps : List Piece)
    → All IsPlain ps
    → All IsPlainEntry m
    → expand_map (render ps) m ≡ render (map (resolve m) ps)
unfolding expand_map
expand_map-render [] ps h k = render-resolve_nil ps
expand_map-render ((key, path) ∷ m) ps h k =
    ap (λ old. expand_map (replace_all (render ps) old path) m) (placeholder-cons key)
    ∙ ap (λ t. expand_map t m) (render-fill key path k.0.0 ps h)
    ∙ expand_map-render m (map (resolve ((key, path) ∷ [])) ps)
        (All-resolve ((key, path) ∷ []) ps (k.0, tt) h) k.1
    ∙ render-resolve ((key, path) ∷ []) m ps

-- In a command, the placeholder of each key becomes the path that the inputs have for the key, or
-- else the outputs, and stays where neither has one; the rest of the command is kept. The command's
-- texts and keys have no braces, nor have the maps' keys and paths.
pub expand_placeholders-render :
    (ps : List Piece) (inputs outputs : Map String)
    → All IsPlain ps
    → All IsPlainEntry inputs
    → All IsPlainEntry outputs
    → expand_placeholders (render ps) inputs outputs ≡ render (map (resolve (inputs ++ outputs)) ps)
unfolding expand_placeholders
expand_placeholders-render ps inputs outputs h i o =
    ap (λ t. expand_map t outputs) (expand_map-render inputs ps h i)
    ∙ expand_map-render outputs (map (resolve inputs) ps) (All-resolve inputs ps i h) o
    ∙ render-resolve inputs outputs ps
