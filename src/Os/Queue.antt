-- ===== src/Os/Queue.antt =====
-- What a service tells asynq's server when it starts, and what it relies on of the tasks that it is
-- given.
use burrowcode.Base.{ℕ, String, ◌≡◌, Bool, true, false, ◌||◌, List, [], ◌∷◌, ◌==◌}
use burrowcode.Golang.Int.{ℤ}
use burrowcode.Os.{Task}

-- What `asynq.NewServer` and `mux.HandleFunc` are given: the queues with their weights, and the types
-- of tasks that have a handler.
pub record QueueServer : Type 0 where
  pub redis_addr : String
  pub concurrency : ℤ
  pub queues : List (String × ℕ)
  pub patterns : List String

abbrev pub has_queue : List (String × ℕ) → String → Bool
has_queue [] name = false
has_queue ((queue, weight) ∷ queues) name = queue == name || has_queue queues name

abbrev pub has_handler : List String → String → Bool
has_handler [] type_name = false
has_handler (pattern ∷ patterns) type_name = pattern == type_name || has_handler patterns type_name

-- asynq's choice of the tasks that it gives to a server
pub record Asynq : Type 0 where
  pub serves : QueueServer → Task → Bool
  -- A server gets the tasks of its queues only.
  pub of_queue :
      (server : QueueServer) (task : Task)
      → serves server task ≡ true
      → has_queue server.queues task.queue ≡ true
  -- One of them whose type has a handler is given to it.
  pub of_type :
      (server : QueueServer) (task : Task)
      → has_queue server.queues task.queue ≡ true
      → has_handler server.patterns task.type_name ≡ true
      → serves server task ≡ true
