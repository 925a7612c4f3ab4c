-- ===== src/Api/Validate/Lists.antt =====
-- When what ListCommands answers is valid.
use burrowcode.Base.{
  ℕ, suc, ◌≡◌, ◌∙◌, refl, ap, Bool, ◌&&◌, some, none, List, [], ◌∷◌, ◌++◌, map, length, All,
  All-append, if◌then◌else◌,
}
use burrowcode.Golang.Int.{ℤ, pos}
use burrowcode.Os.{Values}
use burrowcode.Api.Types.{Status, pending, processing, success, failed, CommandStatus}
use burrowcode.Api.Codec.{Jx}
use burrowcode.Api.Codec.Walk.{IfSet}
use burrowcode.Api.Handlers.{is_empty}
use burrowcode.Api.Status.{
  TaskInfo, appended, UrlParser, Listing, result_of, task_to_status, list_commands,
}
use burrowcode.Api.Validate.{
  nil_value, failures, failure, no_failures, check, conclude, validate_status_text, validate_status,
  check_statuses, validate_list,
}
use burrowcode.Api.Validate.Reports.{IsSoundResult, task_to_status-validate_status}

is_empty-append : {A : Type 0} (xs ys : List A) → is_empty (xs ++ ys) ≡ is_empty xs && is_empty ys
is_empty-append [] ys = refl
is_empty-append (x ∷ xs) ys = refl

is_empty-map : {A B : Type 0} (f : A → B) (xs : List A) → is_empty (map f xs) ≡ is_empty xs
is_empty-map f [] = refl
is_empty-map f (x ∷ xs) = refl

-- none of the four pages has a task
abbrev pub no_tasks : Listing → Bool
no_tasks l =
    ((is_empty l.active && is_empty l.pending) && is_empty l.completed) && is_empty l.archived

module _ {v : Values} (jx : Jx v) where
  abbrev IsValid : CommandStatus v → Type 0
  IsValid s = validate_status jx s ≡ none

  check_statuses-none :
      (i : ℕ) (ss : List (CommandStatus v)) → All IsValid ss → check_statuses jx i ss ≡ no_failures
  unfolding check_statuses
  check_statuses-none i [] h = refl
  check_statuses-none i (s ∷ ss) h = rw (h.0, check_statuses-none (suc i) ss h.1) refl

  -- a list of valid statuses, by whether there are any
  validate_list-appended :
      (ss : List (CommandStatus v)) (n : ℤ)
      → All IsValid ss
      → validate_list jx (record { commands = appended ss; total = n })
        ≡ (if is_empty ss then some (failures (failure "commands" nil_value no_failures)) else none)
  unfolding validate_list
  validate_list-appended [] n h = refl
  validate_list-appended (s ∷ ss) n h =
      ap (λ fs. conclude (check "commands" (conclude fs) no_failures))
        (check_statuses-none 0 (s ∷ ss) h)

  module _ (parse_url : UrlParser) where
    -- the result of a task, if it has one that decodes, is sound
    abbrev pub IsSoundTask : TaskInfo → Type 0
    IsSoundTask t = IfSet (IsSoundResult jx) (result_of v parse_url t)

    reports-IsValid :
        (status : Status) (tasks : List TaskInfo)
        → validate_status_text status ≡ none
        → All IsSoundTask tasks
        → All IsValid (map (λ t. task_to_status v parse_url t status) tasks)
    reports-IsValid status [] known h = tt
    reports-IsValid status (t ∷ tasks) known h = (
      task_to_status-validate_status jx parse_url t status known h.0,
      reports-IsValid status tasks known h.1,
    )

    -- The list of the commands satisfies its schema where the inspector lists a task, and the results
    -- of all tasks that it lists have finite numbers and files of the types that the schema lists.
    -- Where it lists none, the list is nil, and the error is that of a nil slice.
    pub list_commands-validate_list :
        (l : Listing)
        → All IsSoundTask l.active
        → All IsSoundTask l.pending
        → All IsSoundTask l.completed
        → All IsSoundTask l.archived
        → validate_list jx (list_commands v parse_url l) ≡ (
            if no_tasks l then some (failures (failure "commands" nil_value no_failures)) else none)
    unfolding list_commands validate_status_text
    list_commands-validate_list l a p c r =
        let reports = λ (status : Status) (tasks : List TaskInfo).
          map (λ t. task_to_status v parse_url t status) tasks in
        let one = reports processing l.active in
        let two = one ++ reports pending l.pending in
        let three = two ++ reports success l.completed in
        let all = three ++ reports failed l.archived in
        let first_two =
          All-append IsValid one (reports pending l.pending) (
            reports-IsValid processing l.active refl a,
            reports-IsValid pending l.pending refl p,
          ) in
        let first_three =
          All-append IsValid two (reports success l.completed)
            (first_two, reports-IsValid success l.completed refl c) in
        let valid =
          All-append IsValid three (reports failed l.archived)
            (first_three, reports-IsValid failed l.archived refl r) in
        validate_list-appended all (pos (length all)) valid
        ∙ ap (λ b. if b then some (failures (failure "commands" nil_value no_failures)) else none)
            (simp (is_empty-append, is_empty-map))
