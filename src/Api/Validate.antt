-- ===== src/Api/Validate.antt =====
-- api/oas/oas_validators_gen.go: the checks of the schemas that have any. A receiver is not nil
-- here, so that the check for that is left out.
pub mod Reports
pub mod Lists
use burrowcode.Base.{
  ℕ, suc, String, ◌⧺◌, Bool, Option, none, some, List, [], ◌∷◌, if◌then◌else◌, one_of,
}
use burrowcode.Golang.Maps.{Map}
use burrowcode.Golang.Numbers.{format_nat}
use burrowcode.Os.{Values}
use burrowcode.Api.Types.{CommandResponse, OutputFileInfo, CommandStatus, CommandListResponse}
use burrowcode.Api.Codec.{Jx}

-- The error of a check: a text that is no value of its type, a number that is not finite, a slice
-- that is nil, or the fields that failed, with their errors.
mutual
  pub data Invalid : Type 0 where
    bad_value : String → Invalid
    not_finite nil_value : Invalid
    failures : Failures → Invalid

  pub data Failures : Type 0 where
    no_failures : Failures
    failure : String → Invalid → Failures → Failures

-- `if err := …; err != nil { failures = append(failures, …) }`, before those that follow
abbrev pub check : String → Option Invalid → Failures → Failures
check name none rest = rest
check name (some e) rest = failure name e rest

-- `if len(failures) > 0 { return … }`
abbrev pub conclude : Failures → Option Invalid
conclude no_failures = none
conclude (failure name e rest) = some (failures (failure name e rest))

abbrev pub check_if_set : {A : Type 0} → (A → Option Invalid) → Option A → Option Invalid
check_if_set validate none = none
check_if_set validate (some a) = validate a

abbrev pub statuses : List String
statuses = "PENDING" ∷ "PROCESSING" ∷ "SUCCESS" ∷ "FAILED" ∷ "RETRYING" ∷ []

abbrev pub file_types : List String
file_types = "image" ∷ "video" ∷ "audio" ∷ "subtitle" ∷ "file" ∷ []

-- CommandStatusStatus and CommandResponseStatus
unfoldable pub validate_status_text : String → Option Invalid
validate_status_text s = if one_of s statuses then none else some (bad_value s)

-- OutputFileInfoFileType
unfoldable pub validate_file_type : String → Option Invalid
validate_file_type s = if one_of s file_types then none else some (bad_value s)

unfoldable pub validate_response : CommandResponse → Option Invalid
unfolding validate_status_text
validate_response r = conclude (check "status" (validate_status_text r.status) no_failures)

module _ {v : Values} (jx : Jx v) where
  unfoldable pub validate_float : Values.Float v → Option Invalid
  validate_float x = if jx.is_finite x then none else some not_finite

  unfoldable pub validate_info : OutputFileInfo v → Option Invalid
  unfolding validate_float validate_file_type
  validate_info i = conclude (
      check "size_mbytes" (validate_float i.size_mbytes)
        (check "file_type" (validate_file_type i.file_type) no_failures))

  unfoldable pub check_infos : Map (OutputFileInfo v) → Failures
  unfolding validate_info
  check_infos [] = no_failures
  check_infos ((k, i) ∷ m) = check k (validate_info i) (check_infos m)

  -- CommandStatusOutputFiles
  unfoldable pub validate_infos : Map (OutputFileInfo v) → Option Invalid
  unfolding check_infos
  validate_infos m = conclude (check_infos m)

  unfoldable pub validate_status : CommandStatus v → Option Invalid
  unfolding validate_status_text validate_infos validate_float
  validate_status s = conclude (
      check "status" (validate_status_text s.status) (
        check "output_files" (check_if_set validate_infos s.output_files) (
          check "ffmpeg_command_run_seconds"
            (check_if_set validate_float s.ffmpeg_command_run_seconds)
            (check "total_processing_seconds"
              (check_if_set validate_float s.total_processing_seconds) no_failures))))

  -- the elements from the index `i` on
  unfoldable pub check_statuses : ℕ → List (CommandStatus v) → Failures
  unfolding validate_status format_nat
  check_statuses i [] = no_failures
  check_statuses i (s ∷ ss) =
      check ("[" ⧺ format_nat i ⧺ "]") (validate_status s) (check_statuses (suc i) ss)

  abbrev pub validate_statuses : Option (List (CommandStatus v)) → Option Invalid
  validate_statuses none = some nil_value
  validate_statuses (some ss) = conclude (check_statuses 0 ss)

  unfoldable pub validate_list : CommandListResponse v → Option Invalid
  unfolding check_statuses
  validate_list l = conclude (check "commands" (validate_statuses l.commands) no_failures)
