-- ===== src/Tests/Placeholders.antt =====
-- A command with the placeholders of an input and of an output.
use mathlib.Core.Path.{subst}
use burrowcode.Base.{
  String, ◌≡◌, refl, eq_iff, ◌==◌, Bool-cases, inl, inr, List, [], ◌∷◌, ◌++◌, map, arith,
}
use burrowcode.Golang.Maps.{Map, lookup}
use burrowcode.Worker.Placeholders.{expand_placeholders}
use burrowcode.Worker.Placeholders.Order.{IsSameMap, expand_placeholders-IsSameMap}
use burrowcode.Worker.Placeholders.Template.{
  Piece, literal, hole, render, resolve, expand_placeholders-render,
}

abbrev pieces : List Piece
pieces = literal "-i " ∷ hole "a" ∷ literal " " ∷ hole "o" ∷ []

abbrev inputs : Map String
inputs = ("a", "/w/a") ∷ []

abbrev outputs : Map String
outputs = ("o", "/o") ∷ []

expand_placeholders-render_example :
    expand_placeholders (render pieces) inputs outputs
    ≡ render (map (resolve (inputs ++ outputs)) pieces)
expand_placeholders-render_example =
    expand_placeholders-render pieces inputs outputs
      (
        (omega arith, (omega arith, (omega arith, tt))),
        (
          ((omega arith, tt), (omega arith, tt)),
          ((omega arith, tt), (((omega arith, tt), (omega arith, tt)), tt)),
        ),
      )
      (
        (
          ((omega arith, tt), (omega arith, tt)),
          (omega arith, (omega arith, (omega arith, (omega arith, tt)))),
        ),
        tt,
      )
      ((((omega arith, tt), (omega arith, tt)), (omega arith, (omega arith, tt))), tt)

abbrev either_order : Map String
either_order = ("b", "/b") ∷ ("a", "/w/a") ∷ []

abbrev other_order : Map String
other_order = ("a", "/w/a") ∷ ("b", "/b") ∷ []

same : IsSameMap either_order other_order
unfolding lookup
same = record {
  each = λ key. elim (Bool-cases ("a" == key)) [
    | inl e ↦ subst (λ k. lookup k either_order ≡ lookup k other_order) ((eq_iff "a" key).0 e) refl
    | inr e ↦ rw e refl
  ];
}

same_outputs : IsSameMap outputs outputs
same_outputs = record { each = λ key. refl }

expand_placeholders-IsSameMap_example :
    expand_placeholders (render pieces) either_order outputs
    ≡ expand_placeholders (render pieces) other_order outputs
expand_placeholders-IsSameMap_example =
    expand_placeholders-IsSameMap either_order other_order outputs outputs same same_outputs pieces
      (
        (omega arith, (omega arith, (omega arith, tt))),
        (
          ((omega arith, tt), (omega arith, tt)),
          ((omega arith, tt), (((omega arith, tt), (omega arith, tt)), tt)),
        ),
      )
      (
        (((omega arith, tt), (omega arith, tt)), (omega arith, (omega arith, tt))),
        (
          (
            ((omega arith, tt), (omega arith, tt)),
            (omega arith, (omega arith, (omega arith, (omega arith, tt)))),
          ),
          tt,
        ),
      )
      ((((omega arith, tt), (omega arith, tt)), (omega arith, (omega arith, tt))), tt)
      (
        (
          ((omega arith, tt), (omega arith, tt)),
          (omega arith, (omega arith, (omega arith, (omega arith, tt)))),
        ),
        ((((omega arith, tt), (omega arith, tt)), (omega arith, (omega arith, tt))), tt),
      )
      ((((omega arith, tt), (omega arith, tt)), (omega arith, (omega arith, tt))), tt)
