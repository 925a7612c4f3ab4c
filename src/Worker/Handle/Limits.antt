-- ===== src/Worker/Handle/Limits.antt =====
-- What the queue makes of the error of a job that was put off, in worker/main.go.
use burrowcode.Base.{
  if_both, String, ◌⧺◌, ◌≡◌, ◌≢◌, refl, ap, ◌∙◌, true, false, Bool, Bool-cases, inl, inr, ◌==◌,
}
use text.Mathlib.TextLemmas.{append_assoc}
use burrowcode.Golang.Errors.{Result, ok, err}
use burrowcode.Golang.Strings.{contains}
use burrowcode.Golang.Strings.Laws.{contains-append}
use burrowcode.Config.{Config, ResourceLimits, get_resource_limits}
use burrowcode.Os.{Values, Machine}
use burrowcode.Os.Act.{State, Act, continue, pure, fail, ◌>>=◌}
use burrowcode.System.Resources.{
  Runtime, get_linux_memory, get_darwin_memory, get_system_memory, get_resource_status,
  check_resources_available,
}
use burrowcode.Worker.Handle.{is_failure, within_limits, check_limits}

is_failure-limit : (reason : String) → is_failure ("resource limit: " ⧺ reason) ≡ false
unfolding is_failure
is_failure-limit reason =
    let found =
      ap (λ t. contains t "resource limit") (append_assoc "resource limit" ": " reason)
      ∙ contains-append "resource limit" (": " ⧺ reason) in
    rw found refl

-- an action that returns no error
record IsTotal {m : Machine} {A : Type 0} (act : Act m A) : Type 0 where
  at : (s : State m) (e : String) → (act s).0 ≢ err e

module _ {m : Machine} {A B : Type 0} where
  continue-total :
      (r : Result A) (f : A → Act m B)
      → ((e : String) → r ≢ err e)
      → ((a : A) → IsTotal (f a))
      → (t : State m) (e : String) → (continue r f t).0 ≢ err e
  continue-total (ok a) f h k t e = (k a).at t e
  continue-total (err x) f h k t e = absurd (h x refl)

  IsTotal-bind :
      (act : Act m A) (f : A → Act m B)
      → IsTotal act
      → ((a : A) → IsTotal (f a))
      → IsTotal (act >>= f)
  unfolding ◌>>=◌
  IsTotal-bind act f h k = record { at = λ s e. continue-total (act s).0 f (h.at s) k (act s).1 e }

module _ {m : Machine} {A : Type 0} where
  IsTotal-pure : (a : A) → IsTotal (pure {m = m} a)
  unfolding pure
  IsTotal-pure a = record { at = λ s e q. cc q }

module _ {m : Machine} where
  get_system_memory-IsTotal : (goos : String) → IsTotal (get_system_memory {m = m} goos)
  unfolding get_system_memory get_linux_memory get_darwin_memory pure
  get_system_memory-IsTotal goos =
      if_both IsTotal (goos == "linux") _ _ (record { at = λ s e q. cc q })
        (if_both IsTotal (goos == "darwin") _ _ (IsTotal-pure _) (IsTotal-pure _))

module _ {m : Machine} (v : Values) where
  within_limits-eq-err :
      (r : Bool × String) (s : State m) (e : String)
      → (within_limits {m = m} v r s).0 ≡ err e
      → is_failure e ≡ false
  unfolding within_limits pure fail
  within_limits-eq-err (true, reason) s e q = absurd (cc q)
  within_limits-eq-err (false, reason) s e q =
      let same : e ≡ "resource limit: " ⧺ reason = cc q in rw same (is_failure-limit reason)

  continue-limits :
      (r : Result (Bool × String)) (t : State m) (e : String)
      → ((x : String) → r ≢ err x)
      → (continue r (within_limits {m = m} v) t).0 ≡ err e
      → is_failure e ≡ false
  continue-limits (ok fits) t e h q = within_limits-eq-err fits t e q
  continue-limits (err x) t e h q = absurd (h x refl)

  check_resources_available-IsTotal :
      (rt : Runtime) (limits : ResourceLimits v)
      → IsTotal (check_resources_available v {m = m} rt limits)
  unfolding check_resources_available get_resource_status
  check_resources_available-IsTotal rt limits =
      IsTotal-bind _ _
        (IsTotal-bind _ _ (get_system_memory-IsTotal rt.goos) (λ sizes. IsTotal-pure _))
        λ status. IsTotal-pure _

  -- A job that is put off since memory is short ends with an error that the queue does not count as
  -- a failure: `check_limits` returns no other.
  pub check_limits-is_failure :
      (cfg : Config v) (rt : Runtime) (s : State m) (e : String)
      → (check_limits v cfg rt s).0 ≡ err e
      → is_failure e ≡ false
  unfolding check_limits pure ◌>>=◌ get_resource_limits
  check_limits-is_failure cfg rt s e q = elim (Bool-cases cfg.resources.enabled) [
    | inl on ↦
        let act = check_resources_available v {m = m} rt (get_resource_limits v cfg) in
        continue-limits (act s).0 (act s).1 e
          ((check_resources_available-IsTotal rt (get_resource_limits v cfg)).at s)
          (rw (on, check_limits) at q)
    | inr off ↦ absurd (cc (rw (off, check_limits) at q))
  ]
