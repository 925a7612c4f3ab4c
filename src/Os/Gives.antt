-- ===== src/Os/Gives.antt =====
-- Runs that end without an error, with a value that meets a predicate.
use burrowcode.Base.{◌≡◌, refl, String, Bool, true, false, if◌then◌else◌}
use burrowcode.Golang.Errors.{Result, ok, err}
use burrowcode.Os.{Machine, Call, Reply}
use burrowcode.Os.Act.{
  State, Act, prefixed, continue, pure, ask, annotate, attempt, deferred, perform, ◌>>=◌,
}

abbrev pub Holds : {A : Type 0} → (A → Type 0) → Result A → Type 0
Holds Q (ok a) = Q a
Holds Q (err e) = ⊥

-- any value at all
abbrev pub Any : {A : Type 0} → A → Type 0
Any a = Unit

pub Holds-eq : (r : Result Unit) → Holds Any r → r ≡ ok tt
Holds-eq (ok tt) h = refl
Holds-eq (err e) h = absurd h

-- From every state, the run ends without an error and its value meets `Q`.
pub record Gives {m : Machine} {A : Type 0} (Q : A → Type 0) (act : Act m A) : Type 0 where
  pub at : (s : State m) → Holds Q (act s).0

prefixed-Holds :
    {A : Type 0} (Q : A → Type 0) (p : String) (r : Result A) → Holds Q r → Holds Q (prefixed p r)
prefixed-Holds Q p (ok a) h = h
prefixed-Holds Q p (err e) h = absurd h

module _ {m : Machine} {A : Type 0} {Q : A → Type 0} where
  pub Gives-pure : (a : A) → Q a → Gives Q (pure {m = m} a)
  unfolding pure
  Gives-pure a h = record { at = λ s. h }

  pub Gives-annotate : (p : String) (act : Act m A) → Gives Q act → Gives Q (annotate p act)
  unfolding annotate
  Gives-annotate p act h = record { at = λ s. prefixed-Holds Q p (act s).0 (h.at s) }

  -- the error as a value that there is not
  pub Gives-attempt : (act : Act m A) → Gives Q act → Gives (Holds Q) (attempt act)
  unfolding attempt
  Gives-attempt act h = record { at = h.at }

  pub Gives-if : (b : Bool) (x y : Act m A) → Gives Q x → Gives Q y → Gives Q (if b then x else y)
  Gives-if true x y h k = h
  Gives-if false x y h k = k

module _ {m : Machine} where
  pub Gives-attempted : {A : Type 0} (act : Act m A) → Gives Any (attempt act)
  unfolding attempt
  Gives-attempted act = record { at = λ s. tt }

  pub Gives-ask :
      (c : Call) (Q : Reply c → Type 0)
      → ((w : m.World) → Q (m.answer c w).0)
      → Gives {m = m} Q (ask c)
  unfolding ask perform
  Gives-ask c Q h = record { at = λ s. h s.world }

  pub Gives-deferred :
      {A B : Type 0} {Q : A → Type 0} (act : Act m A) (cleanup : Act m B)
      → Gives Q act
      → Gives Q (deferred act cleanup)
  unfolding deferred
  Gives-deferred act cleanup h = record { at = h.at }

module _ {m : Machine} {A B : Type 0} {P : A → Type 0} {Q : B → Type 0} where
  continue-Holds :
      (r : Result A) (f : A → Act m B) (s : State m)
      → Holds P r
      → ((a : A) → P a → Gives Q (f a))
      → Holds Q (continue r f s).0
  continue-Holds (ok a) f s h k = (k a h).at s
  continue-Holds (err e) f s h k = absurd h

  pub Gives-bind :
      (act : Act m A) (f : A → Act m B)
      → Gives P act
      → ((a : A) → P a → Gives Q (f a))
      → Gives Q (act >>= f)
  unfolding ◌>>=◌
  Gives-bind act f h k = record { at = λ s. continue-Holds (act s).0 f (act s).1 (h.at s) k }

module _ {m : Machine} {A B : Type 0} {Q : B → Type 0} where
  pub Gives-then :
      {act : Act m A} {f : A → Act m B}
      → Gives Any act
      → ((a : A) → Gives Q (f a))
      → Gives Q (act >>= f)
  Gives-then {act} {f} h k = Gives-bind act f h (λ a x. k a)
