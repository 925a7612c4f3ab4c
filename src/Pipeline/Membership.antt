-- ===== src/Pipeline/Membership.antt =====
-- The calls that were made, and those that a run adds.
use mathlib.Core.Path.{subst}
use burrowcode.Base.{◌≡◌, refl, ◌⊎◌, inl, inr, List, [], ◌∷◌, ◌++◌, All}
use burrowcode.Os.{Call}
use burrowcode.Os.Calls.{IsCalled, first, later}

pub IsCalled-append : (c : Call) (l l' : List Call) → IsCalled c l → IsCalled c (l ++ l')
IsCalled-append c [] l' h = elim h [ ]
IsCalled-append c (d ∷ l) l' (first e) = first e
IsCalled-append c (d ∷ l) l' (later h) = later (IsCalled-append c l l' h)

-- a call of two lists is one of the first or of the second
pub IsCalled-cases :
    (c : Call) (l l' : List Call) → IsCalled c (l ++ l') → IsCalled c l ⊎ IsCalled c l'
IsCalled-cases c [] l' h = inr h
IsCalled-cases c (d ∷ l) l' (first e) = inl (first e)
IsCalled-cases c (d ∷ l) l' (later h) = elim (IsCalled-cases c l l' h) [
  | inl i ↦ inl (later i)
  | inr i ↦ inr i
]

pub All-IsCalled : (P : Call → Type 0) (c : Call) (l : List Call) → All P l → IsCalled c l → P c
All-IsCalled P c [] h i = elim i [ ]
All-IsCalled P c (d ∷ l) h (first e) = subst P e h.0
All-IsCalled P c (d ∷ l) h (later i) = All-IsCalled P c l h.1 i

pub IsCalled-last : (c : Call) (l : List Call) → IsCalled c (l ++ c ∷ [])
IsCalled-last c [] = first refl
IsCalled-last c (d ∷ l) = later (IsCalled-last c l)

-- the last call of a run, by another name
pub IsCalled-end : (c c' : Call) (l l' : List Call) → l' ≡ l ++ c ∷ [] → c ≡ c' → IsCalled c' l'
IsCalled-end c c' l l' e same = subst (λ b. IsCalled b l') same (rw e (IsCalled-last c l))
