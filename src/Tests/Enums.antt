-- ===== src/Tests/Enums.antt =====
-- The enumerations of the API's schemas.
use burrowcode.Base.{String, ◌⧺◌}
use burrowcode.Api.Validate.{validate_status_text, validate_file_type}
use burrowcode.Api.Enums.{
  IsEnum, marshal_status, unmarshal_status, all_statuses, marshal_file_type, unmarshal_file_type,
  all_file_types, enums-IsEnum,
}

abbrev quoted : String → String
quoted s = "\"" ⧺ s ⧺ "\""

enums-IsEnum_example :
    IsEnum quoted validate_status_text
      (marshal_status quoted)
      (unmarshal_status quoted)
      all_statuses
    × IsEnum quoted validate_file_type
        (marshal_file_type quoted)
        (unmarshal_file_type quoted)
        all_file_types
enums-IsEnum_example = enums-IsEnum quoted
