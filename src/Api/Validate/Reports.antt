-- ===== src/Api/Validate/Reports.antt =====
-- What the handlers report is valid.
use burrowcode.Base.{
  String, ◌≡◌, refl, ap, ◌∙◌, true, Option, none, some, [], ◌∷◌, All, ◌==◌, if_both, one_of,
}
use burrowcode.Golang.Strings.{to_lower}
use burrowcode.Golang.Maps.{Map, insert}
use burrowcode.Os.{Values}
use burrowcode.Worker.FileType.{get_file_type}
use burrowcode.Api.Types.{
  Status, failed, WorkerOutputFileInfo, WorkerCommandResult, OutputFileInfo, CommandStatus,
}
use burrowcode.Api.Codec.{Jx}
use burrowcode.Api.Codec.Walk.{IfSet}
use burrowcode.Api.Status.{
  TaskInfo, TaskState, UrlParser, state_to_status, to_info, to_infos, with_result, with_error,
  result_of, reported, task_to_status, active, pending_task, scheduled, retry, archived, completed,
  aggregating,
}
use burrowcode.Api.Validate.{
  no_failures, check, check_if_set, conclude, validate_status_text, validate_file_type,
  validate_float, validate_info, check_infos, validate_infos, validate_status,
}

record IsFileType (t : String) : Type 0 where
  valid : validate_file_type t ≡ none

get_file_type-IsFileType : (extension : String) → IsFileType (get_file_type extension)
unfolding get_file_type validate_file_type
get_file_type-IsFileType extension =
    let e = to_lower extension in
    if_both IsFileType (one_of e ("jpg" ∷ "jpeg" ∷ "png" ∷ "gif" ∷ "webp" ∷ "bmp" ∷ "tiff" ∷ []))
      "image" _ (record { valid = refl })
      (if_both IsFileType (one_of e ("mp4" ∷ "mov" ∷ "avi" ∷ "mkv" ∷ "webm" ∷ "flv" ∷ "wmv" ∷ []))
        "video" _ (record { valid = refl })
        (if_both IsFileType (one_of e ("mp3" ∷ "wav" ∷ "aac" ∷ "flac" ∷ "ogg" ∷ "m4a" ∷ [])) "audio"
          _ (record { valid = refl })
          (if_both IsFileType (one_of e ("srt" ∷ "vtt" ∷ "ass" ∷ "ssa" ∷ [])) "subtitle" "file"
            (record { valid = refl }) (record { valid = refl }))))

-- The worker writes no type of file but those that the API's schema lists.
pub get_file_type-validate_file_type :
    (extension : String) → validate_file_type (get_file_type extension) ≡ none
get_file_type-validate_file_type extension = (get_file_type-IsFileType extension).valid

state_to_status-valid : (state : TaskState) → validate_status_text (state_to_status state) ≡ none
unfolding state_to_status validate_status_text
state_to_status-valid active = refl
state_to_status-valid pending_task = refl
state_to_status-valid completed = refl
state_to_status-valid archived = refl
state_to_status-valid retry = refl
state_to_status-valid scheduled = refl
state_to_status-valid aggregating = refl

failed_valid : validate_status_text failed ≡ none
unfolding validate_status_text
failed_valid = refl

module _ {v : Values} (jx : Jx v) where
  -- a file of a type that the schema lists, and a size that is finite
  pub record IsSoundFile (i : WorkerOutputFileInfo v) : Type 0 where
    pub size_mbytes : jx.is_finite i.size_mbytes ≡ true
    pub file_type : validate_file_type i.file_type ≡ none

  pub record IsSoundResult (r : WorkerCommandResult v) : Type 0 where
    pub output_files : All (λ (e : String × WorkerOutputFileInfo v). IsSoundFile e.1) r.output_files
    pub ffmpeg_command_run_seconds : jx.is_finite r.ffmpeg_command_run_seconds ≡ true
    pub total_processing_seconds : jx.is_finite r.total_processing_seconds ≡ true

  validate_float-finite : (x : Values.Float v) → jx.is_finite x ≡ true → validate_float jx x ≡ none
  unfolding validate_float
  validate_float-finite x h = rw h refl

  validate_info-to_info :
      (i : WorkerOutputFileInfo v) → IsSoundFile i → validate_info jx (to_info v i) ≡ none
  unfolding validate_info to_info
  validate_info-to_info i h =
      rw (validate_float-finite i.size_mbytes h.size_mbytes, h.file_type) refl

  abbrev AllValid : Map (OutputFileInfo v) → Type 0
  AllValid m = All (λ (e : String × OutputFileInfo v). validate_info jx e.1 ≡ none) m

  insert-AllValid :
      (k : String) (i : OutputFileInfo v) (m : Map (OutputFileInfo v))
      → validate_info jx i ≡ none
      → AllValid m
      → AllValid (insert k i m)
  unfolding insert
  insert-AllValid k i [] h hs = (h, tt)
  insert-AllValid k i ((j, o) ∷ m) h hs =
      if_both AllValid (j == k) ((k, i) ∷ m) ((j, o) ∷ insert k i m) (h, hs.1)
        (hs.0, insert-AllValid k i m h hs.1)

  to_infos-AllValid :
      (m : Map (WorkerOutputFileInfo v)) (done : Map (OutputFileInfo v))
      → All (λ (e : String × WorkerOutputFileInfo v). IsSoundFile e.1) m
      → AllValid done
      → AllValid (to_infos v m done)
  unfolding to_infos
  to_infos-AllValid [] done h hs = hs
  to_infos-AllValid ((k, i) ∷ m) done h hs =
      to_infos-AllValid m (insert k (to_info v i) done) h.1
        (insert-AllValid k (to_info v i) done (validate_info-to_info i h.0) hs)

  check_infos-AllValid : (m : Map (OutputFileInfo v)) → AllValid m → check_infos jx m ≡ no_failures
  unfolding check_infos
  check_infos-AllValid [] h = refl
  check_infos-AllValid ((k, i) ∷ m) h =
      ap (λ e. check k e (check_infos jx m)) h.0 ∙ check_infos-AllValid m h.1

  validate_status-none :
      (cs : CommandStatus v)
      → validate_status_text cs.status ≡ none
      → check_if_set (validate_infos jx) cs.output_files ≡ none
      → check_if_set (validate_float jx) cs.ffmpeg_command_run_seconds ≡ none
      → check_if_set (validate_float jx) cs.total_processing_seconds ≡ none
      → validate_status jx cs ≡ none
  unfolding validate_status
  validate_status-none cs a b c d = rw (a, b, c, d) refl

  validate_infos-to_infos :
      (m : Map (WorkerOutputFileInfo v))
      → All (λ (e : String × WorkerOutputFileInfo v). IsSoundFile e.1) m
      → validate_infos jx (to_infos v m []) ≡ none
  unfolding validate_infos
  validate_infos-to_infos m h =
      ap conclude (check_infos-AllValid (to_infos v m []) (to_infos-AllValid m [] h tt))

  module _ (parse_url : UrlParser) where
    with_error-valid :
        (cs : CommandStatus v) (e : String)
        → validate_status_text cs.status ≡ none
        → check_if_set (validate_infos jx) cs.output_files ≡ none
        → check_if_set (validate_float jx) cs.ffmpeg_command_run_seconds ≡ none
        → check_if_set (validate_float jx) cs.total_processing_seconds ≡ none
        → validate_status jx (with_error v parse_url cs e) ≡ none
    unfolding with_error
    with_error-valid cs e a b c d =
        let failing = record cs { error = some e; status = failed } in
        if_both (λ x. validate_status jx x ≡ none) (e == "") cs failing
          (validate_status-none cs a b c d) (validate_status-none failing failed_valid b c d)

    -- A status that is given as one of those of the schema is reported so that the report is valid,
    -- where the task's result, if it has one that decodes, has finite numbers and files of the types
    -- that the schema lists.
    pub task_to_status-validate_status :
        (t : TaskInfo) (status : Status)
        → validate_status_text status ≡ none
        → IfSet IsSoundResult (result_of v parse_url t)
        → validate_status jx (task_to_status v parse_url t status) ≡ none
    unfolding task_to_status
    task_to_status-validate_status t status known h = go (result_of v parse_url t) h
      where
        go :
            (r : Option (WorkerCommandResult v))
            → IfSet IsSoundResult r
            → validate_status jx (
                with_error v parse_url
                  (with_result v parse_url (reported v parse_url t status) r)
                  t.last_err)
              ≡ none
        go none h = with_error-valid (reported v parse_url t status) t.last_err known refl refl refl
        go (some r) h =
            with_error-valid (with_result v parse_url (reported v parse_url t status) (some r))
              t.last_err known (validate_infos-to_infos r.output_files h.output_files)
              (validate_float-finite r.ffmpeg_command_run_seconds h.ffmpeg_command_run_seconds)
              (validate_float-finite r.total_processing_seconds h.total_processing_seconds)
