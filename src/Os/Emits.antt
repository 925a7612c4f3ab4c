-- ===== src/Os/Emits.antt =====
-- The calls that an action adds: each meets a predicate.
use burrowcode.Base.{
  ◌≡◌, refl, sym, ◌∙◌, ap, String, Bool, true, false, List, [], ◌∷◌, ◌++◌, All, All-append, All-map,
  if◌then◌else◌,
}
use mathlib.Core.List.{append-nil, append_assoc}
use burrowcode.Golang.Errors.{Result, ok, err}
use burrowcode.Os.{Machine, Call}
use burrowcode.Os.Act.{
  State, Act, perform, ask, pure, fail, lift, annotate, attempt, continue, deferred, ◌>>=◌,
}

-- `act` leaves the calls made so far and adds some, each of which meets `P`.
pub record Added {m : Machine} (P : Call → Type 0) (s s' : State m) : Type 0 where
  pub new : List Call
  pub extends : s'.calls ≡ s.calls ++ new
  pub each : All P new

pub record Emits {m : Machine} {A : Type 0} (P : Call → Type 0) (act : Act m A) : Type 0 where
  pub at : (s : State m) → Added P s (act s).1

module _ {m : Machine} {P : Call → Type 0} where
  pub Added-refl : (s : State m) → Added P s s
  Added-refl s = record { new = []; extends = sym (append-nil s.calls); each = tt }

  pub Added-trans : (s t u : State m) → Added P s t → Added P t u → Added P s u
  Added-trans s t u a b = record {
    new = a.new ++ b.new;
    extends = b.extends ∙ ap (λ l. l ++ b.new) a.extends ∙ append_assoc s.calls a.new b.new;
    each = All-append P a.new b.new (a.each, b.each);
  }

  -- A state that has the calls of another.
  pub Added-eq : (s t u : State m) → Added P s t → u ≡ t → Added P s u
  Added-eq s t u a e = record {
    new = a.new;
    extends = ap (λ (w : State m). w.calls) e ∙ a.extends;
    each = a.each;
  }

  Added-one : (s s' : State m) (c : Call) → s'.calls ≡ s.calls ++ c ∷ [] → P c → Added P s s'
  Added-one s s' c e h = record { new = c ∷ []; extends = e; each = (h, tt) }

  pub Emits-ask : (c : Call) → P c → Emits P (ask {m = m} c)
  unfolding ask
  Emits-ask c h = record { at = λ s. Added-one s (ask c s).1 c refl h }

  pub Added-perform : (c : Call) (s : State m) → P c → Added P s (perform c s).1
  unfolding perform
  Added-perform c s h = Added-one s (perform c s).1 c refl h

module _ {m : Machine} {P : Call → Type 0} {A : Type 0} where
  pub Emits-pure : (a : A) → Emits P (pure {m = m} a)
  unfolding pure
  Emits-pure a = record { at = λ s. Added-refl s }

  pub Emits-fail : (e : String) → Emits P (fail {m = m} {A = A} e)
  unfolding fail
  Emits-fail e = record { at = λ s. Added-refl s }

  pub Emits-lift : (r : Result A) → Emits P (lift {m = m} r)
  unfolding lift
  Emits-lift r = record { at = λ s. Added-refl s }

  pub Emits-annotate : (p : String) (act : Act m A) → Emits P act → Emits P (annotate p act)
  unfolding annotate
  Emits-annotate p act h = record { at = λ s. h.at s }

  pub Emits-attempt : (act : Act m A) → Emits P act → Emits P (attempt act)
  unfolding attempt
  Emits-attempt act h = record { at = λ s. h.at s }

  pub Emits-if :
      (b : Bool) (act other : Act m A)
      → Emits P act
      → Emits P other
      → Emits P (if b then act else other)
  Emits-if true act other h k = h
  Emits-if false act other h k = k

module _ {m : Machine} {P : Call → Type 0} {A B : Type 0} where
  Added-continue :
      (r : Result A) (f : A → Act m B) (s t : State m)
      → Added P s t
      → ((a : A) → Emits P (f a))
      → Added P s (continue r f t).1
  Added-continue (ok a) f s t h k = Added-trans s t (f a t).1 h ((k a).at t)
  Added-continue (err e) f s t h k = h

  pub Emits-bind :
      (act : Act m A) (f : A → Act m B)
      → Emits P act
      → ((a : A) → Emits P (f a))
      → Emits P (act >>= f)
  unfolding ◌>>=◌
  Emits-bind act f h k = record { at = λ s. Added-continue (act s).0 f s (act s).1 (h.at s) k }

  pub Emits-deferred :
      (act : Act m A) (cleanup : Act m B)
      → Emits P act
      → Emits P cleanup
      → Emits P (deferred act cleanup)
  unfolding deferred
  Emits-deferred act cleanup h k = record {
    at = λ s. Added-trans s (act s).1 (cleanup (act s).1).1 (h.at s) (k.at (act s).1);
  }

pub Added-map :
    {m : Machine} (P Q : Call → Type 0)
    → ((c : Call) → P c → Q c)
    → (s s' : State m) → Added P s s'
    → Added Q s s'
Added-map P Q f s s' a = record {
  new = a.new;
  extends = a.extends;
  each = All-map P Q a.new f a.each;
}

pub Emits-map :
    {m : Machine} {A : Type 0} (P Q : Call → Type 0) (act : Act m A)
    → ((c : Call) → P c → Q c)
    → Emits P act
    → Emits Q act
Emits-map P Q act f h = record { at = λ s. Added-map P Q f s (act s).1 (h.at s) }

pub ruleset emits_rules = (
  Emits-ask, Emits-pure, Emits-fail, Emits-lift, Emits-annotate, Emits-attempt, Emits-if,
  Emits-bind, Emits-deferred,
)
