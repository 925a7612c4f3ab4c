-- ===== src/Os/Calls.antt =====
-- The calls that a single call adds, for each call whose answer is a Go error.
use burrowcode.Base.{String, ◌≡◌, List, ◌∷◌}
use burrowcode.Os.{
  Machine, Call, Body, Request, Task, mkdir_all, remove_all, open_file, create_file, stat_file,
  copy_file, save_body, new_request, send, put_object, enqueue,
}
use burrowcode.Os.Act.{perform}
use burrowcode.Os.Emits.{Emits, Added-perform, emits_rules}

-- a call that is one of those made
pub data IsCalled (c : Call) : List Call → Type 0 where
  first : {d : Call} {l : List Call} → d ≡ c → IsCalled c (d ∷ l)
  later : {d : Call} {l : List Call} → IsCalled c l → IsCalled c (d ∷ l)

module _ {m : Machine} {P : Call → Type 0} where
  pub Emits-mkdir_all : (p : String) → P (mkdir_all p) → Emits P (perform {m = m} (mkdir_all p))
  Emits-mkdir_all p h = record { at = λ s. Added-perform (mkdir_all p) s h }

  pub Emits-remove_all : (p : String) → P (remove_all p) → Emits P (perform {m = m} (remove_all p))
  Emits-remove_all p h = record { at = λ s. Added-perform (remove_all p) s h }

  pub Emits-open_file : (p : String) → P (open_file p) → Emits P (perform {m = m} (open_file p))
  Emits-open_file p h = record { at = λ s. Added-perform (open_file p) s h }

  pub Emits-create_file :
      (p : String) → P (create_file p) → Emits P (perform {m = m} (create_file p))
  Emits-create_file p h = record { at = λ s. Added-perform (create_file p) s h }

  pub Emits-stat_file : (p : String) → P (stat_file p) → Emits P (perform {m = m} (stat_file p))
  Emits-stat_file p h = record { at = λ s. Added-perform (stat_file p) s h }

  pub Emits-copy_file :
      (p q : String) → P (copy_file p q) → Emits P (perform {m = m} (copy_file p q))
  Emits-copy_file p q h = record { at = λ s. Added-perform (copy_file p q) s h }

  pub Emits-save_body : (p : String) → P (save_body p) → Emits P (perform {m = m} (save_body p))
  Emits-save_body p h = record { at = λ s. Added-perform (save_body p) s h }

  pub Emits-new_request :
      (p q : String) → P (new_request p q) → Emits P (perform {m = m} (new_request p q))
  Emits-new_request p q h = record { at = λ s. Added-perform (new_request p q) s h }

  pub Emits-send : (r : Request) → P (send r) → Emits P (perform {m = m} (send r))
  Emits-send r h = record { at = λ s. Added-perform (send r) s h }

  pub Emits-put_object :
      (b k : String) (body : Body) (t : String)
      → P (put_object b k body t)
      → Emits P (perform {m = m} (put_object b k body t))
  Emits-put_object b k body t h = record { at = λ s. Added-perform (put_object b k body t) s h }

  pub Emits-enqueue : (t : Task) → P (enqueue t) → Emits P (perform {m = m} (enqueue t))
  Emits-enqueue t h = record { at = λ s. Added-perform (enqueue t) s h }

pub ruleset calls_rules = (
  emits_rules, Emits-mkdir_all, Emits-remove_all, Emits-open_file, Emits-create_file,
  Emits-stat_file, Emits-copy_file, Emits-save_body, Emits-new_request, Emits-send,
  Emits-put_object, Emits-enqueue,
)
