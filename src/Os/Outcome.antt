-- ===== src/Os/Outcome.antt =====
-- What a run has done, by how it ended.
use burrowcode.Base.{◌≡◌, ◌⊎◌, inl, inr, refl, String}
use burrowcode.Golang.Errors.{Result, ok, err}
use burrowcode.Os.{Machine, Call}
use burrowcode.Os.Act.{State, Act, continue, deferred, ◌>>=◌}
use burrowcode.Os.Emits.{Added, Added-trans, Emits}

-- A run that returns an error has added calls that meet `P` only.
pub record IsQuiet {m : Machine} {A : Type 0} (P : Call → Type 0) (act : Act m A) : Type 0 where
  pub at : (s : State m) (e : String) → (act s).0 ≡ err e → Added P s (act s).1

module _ {m : Machine} {P : Call → Type 0} {A : Type 0} where
  pub IsQuiet-Emits : (act : Act m A) → Emits P act → IsQuiet P act
  IsQuiet-Emits act h = record { at = λ s e r. h.at s }

  -- An action that returns no error is quiet whatever it does.
  pub IsQuiet-total :
      (act : Act m A) (a : State m → A) → ((s : State m) → (act s).0 ≡ ok (a s)) → IsQuiet P act
  IsQuiet-total act a h = record { at = λ s e r. absurd (cc (h s, r)) }

module _ {m : Machine} {P : Call → Type 0} {A B : Type 0} where
  quiet-continue :
      (r : Result A) (f : A → Act m B) (s t : State m) (e : String)
      → Added P s t
      → ((a : A) → IsQuiet P (f a))
      → (continue r f t).0 ≡ err e
      → Added P s (continue r f t).1
  quiet-continue (ok a) f s t e h k q = Added-trans s t (f a t).1 h ((k a).at t e q)
  quiet-continue (err x) f s t e h k q = h

  pub IsQuiet-bind :
      (act : Act m A) (f : A → Act m B)
      → Emits P act
      → ((a : A) → IsQuiet P (f a))
      → IsQuiet P (act >>= f)
  unfolding ◌>>=◌
  IsQuiet-bind act f h k = record {
    at = λ s e q. quiet-continue (act s).0 f s (act s).1 e (h.at s) k q;
  }

  pub IsQuiet-deferred :
      (act : Act m A) (cleanup : Act m B)
      → IsQuiet P act
      → Emits P cleanup
      → IsQuiet P (deferred act cleanup)
  unfolding deferred
  IsQuiet-deferred act cleanup h k = record {
    at = λ s e q. Added-trans s (act s).1 (cleanup (act s).1).1 (h.at s e q) (k.at (act s).1);
  }

-- The parts of a run that returned a value.
module _ {m : Machine} {A B : Type 0} where
  continue-eq-ok :
      (r : Result A) (f : A → Act m B) (t : State m) (b : B)
      → (continue r f t).0 ≡ ok b
      → (a : A) × (r ≡ ok a) × ((f a t).0 ≡ ok b) × ((continue r f t).1 ≡ (f a t).1)
  continue-eq-ok (ok a) f t b q = (a, refl, q, refl)
  continue-eq-ok (err x) f t b q = absurd (cc q)

  pub bind-eq-ok :
      (act : Act m A) (f : A → Act m B) (s : State m) (b : B)
      → ((act >>= f) s).0 ≡ ok b
      → (a : A) × ((act s).0 ≡ ok a)
        × ((f a (act s).1).0 ≡ ok b)
        × (((act >>= f) s).1 ≡ (f a (act s).1).1)
  unfolding ◌>>=◌
  bind-eq-ok act f s b q = continue-eq-ok (act s).0 f (act s).1 b q

  continue-cases :
      (r : Result A) (f : A → Act m B) (t : State m)
      → ((continue r f t).1 ≡ t) ⊎ ((a : A) × ((continue r f t).1 ≡ (f a t).1))
  continue-cases (ok a) f t = inr (a, refl)
  continue-cases (err x) f t = inl refl

  -- A bind ends where its first part ends, or where its second part does.
  pub bind-cases :
      (act : Act m A) (f : A → Act m B) (s : State m)
      → (((act >>= f) s).1 ≡ (act s).1) ⊎ ((a : A) × (((act >>= f) s).1 ≡ (f a (act s).1).1))
  unfolding ◌>>=◌
  bind-cases act f s = continue-cases (act s).0 f (act s).1
