-- ===== src/Api/Enums.antt =====
-- The texts of the enumerations of api/oas/oas_schemas_gen.go: `AllValues`, `MarshalText` and
-- `UnmarshalText` of CommandStatusStatus, with which those of CommandResponseStatus agree, and of
-- OutputFileInfoFileType.
use burrowcode.Base.{
  String, ◌⧺◌, ◌≡◌, ◌↔◌, true, Option, none, some, List, [], ◌∷◌, ◌==◌, eq_iff, arith, one_of,
  if◌then◌else◌,
}
use burrowcode.Golang.Errors.{Result, ok, err}
use burrowcode.Api.Types.{pending, processing, success, failed, retrying}
use burrowcode.Api.Validate.{Invalid, validate_status_text, validate_file_type}

abbrev pub all_statuses : List String
all_statuses = pending ∷ processing ∷ success ∷ failed ∷ retrying ∷ []

abbrev pub all_file_types : List String
all_file_types = "image" ∷ "video" ∷ "audio" ∷ "subtitle" ∷ "file" ∷ []

-- `quote` is `%q`
module _ (quote : String → String) where
  abbrev pub invalid_value : String → Result String
  invalid_value s = err ("invalid value: " ⧺ quote s)

  unfoldable pub marshal_status : String → Result String
  marshal_status s =
      if s == pending
      then ok s
      else if s == processing
      then ok s
      else if s == success
      then ok s
      else if s == failed
      then ok s
      else if s == retrying
      then ok s
      else invalid_value s

  unfoldable pub unmarshal_status : String → Result String
  unmarshal_status data_text =
      if data_text == pending
      then ok pending
      else if data_text == processing
      then ok processing
      else if data_text == success
      then ok success
      else if data_text == failed
      then ok failed
      else if data_text == retrying
      then ok retrying
      else invalid_value data_text

  unfoldable pub marshal_file_type : String → Result String
  marshal_file_type s =
      if s == "image"
      then ok s
      else if s == "video"
      then ok s
      else if s == "audio"
      then ok s
      else if s == "subtitle"
      then ok s
      else if s == "file"
      then ok s
      else invalid_value s

  unfoldable pub unmarshal_file_type : String → Result String
  unmarshal_file_type data_text =
      if data_text == "image"
      then ok "image"
      else if data_text == "video"
      then ok "video"
      else if data_text == "audio"
      then ok "audio"
      else if data_text == "subtitle"
      then ok "subtitle"
      else if data_text == "file"
      then ok "file"
      else invalid_value data_text

  -- the text where its check passes, and else the error
  abbrev pub passed : Option Invalid → String → Result String
  passed none s = ok s
  passed (some e) s = invalid_value s

  -- The two functions take the texts that the check passes, which are those listed, and give an
  -- error for any other text.
  pub record IsEnum (check : String → Option Invalid) (marshal unmarshal : String → Result String)
      (values : List String) : Type 0 where
    pub marshals : (s : String) → marshal s ≡ passed (check s) s
    pub unmarshals : (s : String) → unmarshal s ≡ passed (check s) s
    pub listed : (s : String) → (passed (check s) s ≡ ok s) ↔ (one_of s values ≡ true)

  status-IsEnum : IsEnum validate_status_text marshal_status unmarshal_status all_statuses
  unfolding marshal_status unmarshal_status validate_status_text
  status-IsEnum = record {
    marshals = λ s. ground arith;
    unmarshals = λ s. ground (
      arith,
      eq_iff s pending,
      eq_iff s processing,
      eq_iff s success,
      eq_iff s failed,
      eq_iff s retrying,
    );
    listed = λ s. (λ h. ground arith, λ h. ground arith);
  }

  file_type-IsEnum : IsEnum validate_file_type marshal_file_type unmarshal_file_type all_file_types
  unfolding marshal_file_type unmarshal_file_type validate_file_type
  file_type-IsEnum = record {
    marshals = λ s. ground arith;
    unmarshals = λ s. ground (
      arith,
      eq_iff s "image",
      eq_iff s "video",
      eq_iff s "audio",
      eq_iff s "subtitle",
      eq_iff s "file",
    );
    listed = λ s. (λ h. ground arith, λ h. ground arith);
  }

  -- For a status and for a type of file: MarshalText and UnmarshalText give back each text that
  -- Validate passes, Validate passes the texts that AllValues lists and no other, and for any other
  -- text the two functions give an error.
  pub enums-IsEnum :
      IsEnum validate_status_text marshal_status unmarshal_status all_statuses
      × IsEnum validate_file_type marshal_file_type unmarshal_file_type all_file_types
  enums-IsEnum = (status-IsEnum, file_type-IsEnum)
