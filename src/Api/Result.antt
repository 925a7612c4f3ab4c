-- ===== src/Api/Result.antt =====
-- A task's result, as taskToStatus of api/main.go decodes it: `json.Unmarshal(t.Result, &result)`
-- into the structs WorkerCommandResult and WorkerOutputFileInfo.
use burrowcode.Base.{ℕ, String, Bool, true, false, Option, none, some, [], if◌then◌else◌}
use burrowcode.Golang.Int.{ℤ, pos}
use burrowcode.Golang.Maps.{Map, insert}
use burrowcode.Golang.Numbers.{Parsed, parsed, parse_int}
use burrowcode.Json.{
  Json, Fields, null, string, number, object, field, no_fields, same_name, Decoded, decode_text,
}
use burrowcode.Os.{Values}
use burrowcode.Api.Types.{WorkerOutputFileInfo, WorkerCommandResult}

abbrev decode_parsed {ℓ} : {A : Type ℓ} → Parsed A → A → A × Bool
decode_parsed (parsed a) old = (a, true)
decode_parsed _ old = (old, false)

-- into an `int`
unfoldable pub decode_int : Json → ℤ → Decoded ℤ
unfolding parse_int
decode_int (number s) old = decode_parsed (parse_int s) old
decode_int null old = (old, true)
decode_int _ old = (old, false)

module _ (v : Values) where
  open v use {Float, of_nat, parse_float, parse_time}

  -- into a `float64`
  unfoldable pub decode_float : Json → Float → Decoded Float
  decode_float (number s) old = decode_parsed (parse_float s) old
  decode_float null old = (old, true)
  decode_float _ old = (old, false)

  abbrev decode_parsed_time : Option ℕ → ℕ → Decoded ℕ
  decode_parsed_time none old = (old, false)
  decode_parsed_time (some t) old = (t, true)

  -- into a `time.Time`
  unfoldable pub decode_time : Json → ℕ → Decoded ℕ
  decode_time (string s) old = decode_parsed_time (parse_time s) old
  decode_time null old = (old, true)
  decode_time _ old = (old, false)

  -- The zero values of the structs.
  abbrev pub no_info : WorkerOutputFileInfo v
  no_info = record {
    file_id = "";
    size_mbytes = of_nat 0;
    file_type = "";
    file_format = "";
    storage_url = "";
    width = pos 0;
    height = pos 0;
  }

  abbrev pub no_result : WorkerCommandResult v
  no_result = record {
    output_files = [];
    ffmpeg_command_run_seconds = of_nat 0;
    total_processing_seconds = of_nat 0;
    completed_at = 0;
  }

  unfoldable pub store_info_key :
      WorkerOutputFileInfo v → String → Json → Decoded (WorkerOutputFileInfo v)
  store_info_key r k j =
      if same_name k "file_id"
      then (let (x, fits) = decode_text j r.file_id in (record r { file_id = x }, fits))
      else if same_name k "size_mbytes"
      then (let (x, fits) = decode_float j r.size_mbytes in (record r { size_mbytes = x }, fits))
      else if same_name k "file_type"
      then (let (x, fits) = decode_text j r.file_type in (record r { file_type = x }, fits))
      else if same_name k "file_format"
      then (let (x, fits) = decode_text j r.file_format in (record r { file_format = x }, fits))
      else if same_name k "storage_url"
      then (let (x, fits) = decode_text j r.storage_url in (record r { storage_url = x }, fits))
      else if same_name k "width"
      then (let (x, fits) = decode_int j r.width in (record r { width = x }, fits))
      else if same_name k "height"
      then (let (x, fits) = decode_int j r.height in (record r { height = x }, fits))
      else (r, true)

  unfoldable pub decode_info_fields :
      Fields → WorkerOutputFileInfo v → Bool → Decoded (WorkerOutputFileInfo v)
  unfolding store_info_key
  decode_info_fields no_fields r fine = (r, fine)
  decode_info_fields (field k j rest) r fine =
      let (r', fits) = store_info_key r k j in
      decode_info_fields rest r' (if fits then fine else false)

  unfoldable pub decode_info : Json → Decoded (WorkerOutputFileInfo v)
  unfolding decode_info_fields
  decode_info (object fs) = decode_info_fields fs no_info true
  decode_info null = (no_info, true)
  decode_info _ = (no_info, false)

  -- each entry into a fresh struct
  unfoldable pub decode_infos :
      Fields → Map (WorkerOutputFileInfo v) → Bool → Decoded (Map (WorkerOutputFileInfo v))
  unfolding decode_info insert
  decode_infos no_fields m fine = (m, fine)
  decode_infos (field k j rest) m fine =
      let (i, fits) = decode_info j in
      decode_infos rest (insert k i m) (if fits then fine else false)

  unfoldable pub decode_output_files :
      Json → Map (WorkerOutputFileInfo v) → Decoded (Map (WorkerOutputFileInfo v))
  unfolding decode_infos
  decode_output_files (object fs) old = decode_infos fs old true
  decode_output_files null old = ([], true)
  decode_output_files _ old = (old, false)

  unfoldable pub store_result_key :
      WorkerCommandResult v → String → Json → Decoded (WorkerCommandResult v)
  store_result_key r k j =
      if same_name k "output_files"
      then (let (x, fits) = decode_output_files j r.output_files in
          (record r { output_files = x }, fits))
      else if same_name k "ffmpeg_command_run_seconds"
      then (let (x, fits) = decode_float j r.ffmpeg_command_run_seconds in
          (record r { ffmpeg_command_run_seconds = x }, fits))
      else if same_name k "total_processing_seconds"
      then (let (x, fits) = decode_float j r.total_processing_seconds in
          (record r { total_processing_seconds = x }, fits))
      else if same_name k "completed_at"
      then (let (x, fits) = decode_time j r.completed_at in (record r { completed_at = x }, fits))
      else (r, true)

  unfoldable pub decode_result_fields :
      Fields → WorkerCommandResult v → Bool → Decoded (WorkerCommandResult v)
  unfolding store_result_key
  decode_result_fields no_fields r fine = (r, fine)
  decode_result_fields (field k j rest) r fine =
      let (r', fits) = store_result_key r k j in
      decode_result_fields rest r' (if fits then fine else false)

  abbrev pub if_fits : Decoded (WorkerCommandResult v) → Option (WorkerCommandResult v)
  if_fits (r, true) = some r
  if_fits (r, false) = none

  -- the result where there is no error
  unfoldable pub decode_result : Option Json → Option (WorkerCommandResult v)
  unfolding decode_result_fields
  decode_result none = none
  decode_result (some (object fs)) = if_fits (decode_result_fields fs no_result true)
  decode_result (some null) = some no_result
  decode_result (some _) = none
