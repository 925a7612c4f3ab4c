-- ===== src/Api/Laws.antt =====
-- What the API's handlers answer.
use burrowcode.Base.{
  String, ◌≡◌, ◌≢◌, refl, ap, ◌∙◌, Bool, true, not, ◌&&◌, none, some, List, [], ◌∷◌, ◌++◌, map,
  arith, length, ◌==◌, eq_iff, if◌then◌else◌, Bool-cases, inl, inr,
}
use burrowcode.Golang.Errors.{Result, ok, err}
use burrowcode.Golang.Int.{pos}
use burrowcode.Os.{Values, Machine, enqueue}
use burrowcode.Os.Act.{State, perform, pure}
use burrowcode.Api.Types.{
  items_of, CommandRequest, Status, failed, CommandResponse, CreateCommandRes, GetCommandRes,
  CommandStatus,
}
use burrowcode.Api.Handlers.{
  Settings, is_set, is_empty, texts_or_empty, entries, command_task, create_command,
}
use mathlib.Core.List.{map-append}
use burrowcode.Api.Status.{
  TaskInfo, appended, state_to_status, UrlParser, task_to_status, looked_up, get_command, Listing,
  list_commands,
}

-- a command and an output file
abbrev pub is_complete : CommandRequest → Bool
is_complete req =
    not (not (is_set req.ffmpeg_command) && is_empty (texts_or_empty req.ffmpeg_commands))
    && not (is_empty (entries req.output_files))

-- A request with a command and an output file enqueues one task, which carries the request; any
-- other request makes no call.
pub create_command-calls :
    {m : Machine} (cfg : Settings) (req : CommandRequest) (s : State m)
    → (create_command cfg req s).1.calls
      ≡ (if is_complete req then s.calls ++ enqueue (command_task cfg req) ∷ [] else s.calls)
unfolding create_command perform pure
create_command-calls cfg req s = ground arith

-- Where a command is created, the request had a command and an output file, the identifier that the
-- client is given is the one that the queue gave the task, and the reference is the request's.
pub create_command-eq-created :
    {m : Machine} (cfg : Settings) (req : CommandRequest) (s : State m) (r : CommandResponse)
    → (create_command cfg req s).0 ≡ ok (CreateCommandRes.created r)
    → (is_complete req ≡ true)
      × ((perform (enqueue (command_task cfg req)) s).0 ≡ ok r.command_id)
      × (r.reference_id ≡ req.reference_id)
unfolding create_command pure
create_command-eq-created cfg req s r q = ground arith

items_of-appended : {A : Type 0} (xs : List A) → items_of (appended xs) ≡ xs
items_of-appended [] = refl
items_of-appended (x ∷ xs) = refl

module _ (v : Values) (parse_url : UrlParser) where
  -- A task with an error is reported as failed with that error, whatever its state; one without is
  -- reported as the caller says, with no error. Its identifier is the task's.
  task_to_status_lem :
      (t : TaskInfo) (status : Status)
      → ((task_to_status v parse_url t status).status
          ≡ (if t.last_err == "" then status else failed))
        × ((task_to_status v parse_url t status).error
            ≡ (if t.last_err == "" then none else some t.last_err))
        × ((task_to_status v parse_url t status).command_id ≡ t.id)
  unfolding task_to_status
  task_to_status_lem t status = ground arith

  ids-task_to_status :
      (ts : List TaskInfo) (status : Status)
      → map (λ c. c.command_id) (map (λ t. task_to_status v parse_url t status) ts)
        ≡ map (λ t. t.id) ts
  ids-task_to_status [] status = refl
  ids-task_to_status (t ∷ ts) status =
      cc ((task_to_status_lem t status).2, ids-task_to_status ts status)

  -- The list has an entry for each task that the inspector lists as active, pending, completed or
  -- archived, in that order, and its total is the number of entries.
  pub list_commands-ids :
      (l : Listing)
      → (map (λ c. c.command_id) (items_of (list_commands v parse_url l).commands)
          ≡ map (λ t. t.id) l.active
            ++ map (λ t. t.id) l.pending
            ++ map (λ t. t.id) l.completed
            ++ map (λ t. t.id) l.archived)
        × ((list_commands v parse_url l).total
            ≡ pos (length (items_of (list_commands v parse_url l).commands)))
  unfolding list_commands
  list_commands-ids l = rw items_of-appended (simp (map-append, ids-task_to_status), refl)

  looked_up-eq-found :
      (r : Result TaskInfo) (cs : CommandStatus v)
      → looked_up v parse_url r ≡ GetCommandRes.found cs
      → (info : TaskInfo) × (r ≡ ok info)
        × (cs ≡ task_to_status v parse_url info (state_to_status info.state))
  unfolding looked_up
  looked_up-eq-found (err e) cs q = absurd (cc q)
  looked_up-eq-found (ok info) cs q = (info, refl, cc)

  -- A command that is found has an identifier that the queue knows and that is not empty, and its
  -- status is that of the task's state, or failed where the task has an error.
  pub get_command-status :
      (get_task_info : String → Result TaskInfo) (id : String) (cs : CommandStatus v)
      → get_command v parse_url get_task_info id ≡ GetCommandRes.found cs
      → (info : TaskInfo) × (get_task_info id ≡ ok info)
        × (id ≢ "")
        × (cs.status ≡ (if info.last_err == "" then state_to_status info.state else failed))
  unfolding get_command
  get_command-status get_task_info id cs q = elim (Bool-cases (id == "")) [
    | inl e ↦ absurd (cc (rw (e, get_command) at q))
    | inr e ↦
        let (info, known, shown) =
          looked_up-eq-found (get_task_info id) cs (rw (e, get_command) at q) in
        (
          info,
          known,
          λ h. cc (e, (eq_iff id "").1 h),
          ap (λ (c : CommandStatus v). c.status) shown
              ∙ (task_to_status_lem info (state_to_status info.state)).0,
        )
  ]
