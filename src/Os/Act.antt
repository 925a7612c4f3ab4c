-- ===== src/Os/Act.antt =====
-- Go code that calls the outside and may return an error: state passing with the calls made so far.
use burrowcode.Base.{String, ◌⧺◌, List, [], ◌∷◌, ◌++◌}
use burrowcode.Golang.Errors.{Result, ok, err}
use burrowcode.Os.{Machine, Call, Reply}

pub record State (m : Machine) : Type 0 where
  pub world : m.World
  pub calls : List Call

abbrev pub Act : Machine → Type 0 → Type 0
Act m A = State m → Result A × State m

-- A call, with its answer.
unfoldable pub perform : {m : Machine} (c : Call) → State m → Reply c × State m
perform {m} c s =
    let (r, w) = m.answer c s.world in (r, record { world = w; calls = s.calls ++ c ∷ [] })

-- A call whose answer is no Go error.
unfoldable pub ask : {m : Machine} (c : Call) → Act m (Reply c)
unfolding perform
ask c s = let (r, s') = perform c s in (ok r, s')

unfoldable pub pure : {m : Machine} {A : Type 0} → A → Act m A
pure a s = (ok a, s)

-- `return err`
unfoldable pub fail : {m : Machine} {A : Type 0} → String → Act m A
fail e s = (err e, s)

-- A result that is at hand.
unfoldable pub lift : {m : Machine} {A : Type 0} → Result A → Act m A
lift r s = (r, s)

abbrev pub prefixed {ℓ} : {A : Type ℓ} → String → Result A → Result A
prefixed p (ok a) = ok a
prefixed p (err e) = err (p ⧺ e)

module _ {m : Machine} {A : Type 0} where
  -- `fmt.Errorf("…: %w", err)` on the error path
  unfoldable pub annotate : String → Act m A → Act m A
  annotate p act s = let (r, s') = act s in (prefixed p r, s')

  -- The error as a value, for code that looks at it and goes on.
  unfoldable pub attempt : Act m A → Act m (Result A)
  attempt act s = let (r, s') = act s in (ok r, s')

module _ {m : Machine} {A B : Type 0} where
  abbrev pub continue : Result A → (A → Act m B) → Act m B
  continue (ok a) f s = f a s
  continue (err e) f s = (err e, s)

  infixl 5 ◌>>=◌ ◌>>◌
  unfoldable pub ◌>>=◌ : Act m A → (A → Act m B) → Act m B
  unfolding pure fail lift ask annotate attempt
  ◌>>=◌ act f s = let (r, s') = act s in continue r f s'

  abbrev pub ◌>>◌ : Act m A → Act m B → Act m B
  act >> next = act >>= λ _. next

  -- `defer`: what is deferred runs on every path, and its own result is dropped.
  unfoldable pub deferred : Act m A → Act m B → Act m A
  deferred act cleanup s = let (r, s') = act s in (r, (cleanup s').1)
