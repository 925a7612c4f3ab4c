-- ===== src/Contract/Result/RoundTrip.antt =====
-- The API reads the result that the worker wrote.
use mathlib.Core.List.{append-nil, append_assoc}
use burrowcode.Base.{
  ℕ, String, ◌≡◌, refl, sym, ap, ◌∙◌, Bool, true, false, none, some, [], ◌∷◌, ◌++◌, ◌==◌,
  Bool-cases, inl, inr, if◌then◌else◌,
}
use burrowcode.Golang.Maps.{
  Map, lookup, insert, HasUniqueKeys, insert-absent, lookup-none_of_unique,
}
use burrowcode.Json.{
  Json, Fields, field, no_fields, string, object, same_name, sort_keys, text_unless_empty,
}
use burrowcode.Json.RoundTrip.{EachEntry, EachEntry-sort_keys, HasUniqueKeys-sort_keys}
use burrowcode.Os.{Values}
use burrowcode.Worker.Request.{
  OutputFileInfo, CommandResult, encode_infos, encode_result, float_json,
}
use burrowcode.Api.Types.{WorkerOutputFileInfo, WorkerCommandResult}
use burrowcode.Api.Result.{
  decode_float, decode_time, decode_infos, decode_output_files, store_result_key,
  decode_result_fields, decode_result, no_result, if_fits,
}
use burrowcode.Contract.Result.{IsSpelled, IsSendableInfo, received_info, decode_info-encode_info}

module _ (v : Values) where
  open v use {Float, parse_time, format_time}

  abbrev pub received_files : Map (OutputFileInfo v) → Map (WorkerOutputFileInfo v)
  received_files [] = []
  received_files ((k, i) ∷ m) = (k, received_info v i) ∷ received_files m

  lookup-received_files :
      (k : String) (m : Map (OutputFileInfo v))
      → lookup k m ≡ none
      → lookup k (received_files m) ≡ none
  unfolding lookup
  lookup-received_files k [] h = refl
  lookup-received_files k ((j, i) ∷ m) h = elim (Bool-cases (j == k)) [
    | inl e ↦ absurd (cc (rw e at h))
    | inr e ↦ rw e (lookup-received_files k m (rw e at h))
  ]

  received_files-HasUniqueKeys :
      (m : Map (OutputFileInfo v)) → HasUniqueKeys m → HasUniqueKeys (received_files m)
  received_files-HasUniqueKeys [] u = tt
  received_files-HasUniqueKeys ((k, i) ∷ m) u =
      (lookup-received_files k m u.0, received_files-HasUniqueKeys m u.1)

  decode_infos-encode_infos :
      (m : Map (OutputFileInfo v)) (done : Map (WorkerOutputFileInfo v))
      → EachEntry (IsSendableInfo v) m
      → HasUniqueKeys (done ++ received_files m)
      → decode_infos v (encode_infos v m) done true ≡ (done ++ received_files m, true)
  unfolding decode_infos encode_infos
  decode_infos-encode_infos [] done h u = ap (λ x. (x, true)) (sym (append-nil done))
  decode_infos-encode_infos ((k, i) ∷ m) done h u =
      let got = received_info v i in
      let same = append_assoc done ((k, got) ∷ []) (received_files m) in
      ap
        (λ (x : WorkerOutputFileInfo v × Bool).
          decode_infos v (encode_infos v m) (insert k x.0 done) (if x.1 then true else false))
        (decode_info-encode_info v i h.0)
      ∙ rw (insert-absent k got done (lookup-none_of_unique k got done (received_files m) u)) (
          decode_infos-encode_infos m (done ++ (k, got) ∷ []) h.1 (rw same u)
          ∙ ap (λ x. (x, true)) same)

  -- A result of which the API can read all: its numbers and its time are spelled so that they
  -- parse, its sizes fit, and no key of its files occurs twice.
  pub record IsSendableResult (r : CommandResult v) : Type 0 where
    pub files : EachEntry (IsSendableInfo v) r.output_files
    pub keys : HasUniqueKeys r.output_files
    pub ffmpeg_command_run_seconds : IsSpelled v r.ffmpeg_command_run_seconds
    pub total_processing_seconds : IsSpelled v r.total_processing_seconds
    pub completed_at : parse_time (format_time r.completed_at) ≡ some r.completed_at

  -- the API's struct with the worker's fields
  abbrev pub received_result : CommandResult v → WorkerCommandResult v
  received_result r = record {
    output_files = received_files (sort_keys r.output_files);
    ffmpeg_command_run_seconds = r.ffmpeg_command_run_seconds;
    total_processing_seconds = r.total_processing_seconds;
    completed_at = r.completed_at;
  }

  read_result_field :
      (r r' : WorkerCommandResult v) (rest : Fields) (k : String) (j : Json)
      → store_result_key v r k j ≡ (r', true)
      → decode_result_fields v (field k j rest) r true ≡ decode_result_fields v rest r' true
  unfolding decode_result_fields
  read_result_field r r' rest k j h =
      ap
        (λ (x : WorkerCommandResult v × Bool).
          decode_result_fields v rest x.0 (if x.1 then true else false))
        h

  store-output_files :
      (m : Map (OutputFileInfo v))
      → EachEntry (IsSendableInfo v) m
      → HasUniqueKeys m
      → store_result_key v (no_result v) "output_files" (object (encode_infos v (sort_keys m)))
        ≡ (record (no_result v) { output_files = received_files (sort_keys m) }, true)
  unfolding store_result_key same_name decode_output_files
  store-output_files m h u =
      rw
        (decode_infos-encode_infos (sort_keys m) [] (EachEntry-sort_keys (IsSendableInfo v) m h)
          (received_files-HasUniqueKeys (sort_keys m) (HasUniqueKeys-sort_keys m u)))
        refl

  module _ (r : WorkerCommandResult v) (x : Float) (h : IsSpelled v x) where
    store-run_seconds :
        store_result_key v r "ffmpeg_command_run_seconds" (float_json v x)
        ≡ (record r { ffmpeg_command_run_seconds = x }, true)
    unfolding store_result_key same_name decode_float
    store-run_seconds = rw h refl

    store-total_seconds :
        store_result_key v r "total_processing_seconds" (float_json v x)
        ≡ (record r { total_processing_seconds = x }, true)
    unfolding store_result_key same_name decode_float
    store-total_seconds = rw h refl

  store-completed_at :
      (r : WorkerCommandResult v) (t : ℕ)
      → parse_time (format_time t) ≡ some t
      → store_result_key v r "completed_at" (string (format_time t))
        ≡ (record r { completed_at = t }, true)
  unfolding store_result_key same_name decode_time
  store-completed_at r t h = rw h refl

  -- the API's struct has no field for the acceleration
  skip-hardware_acceleration :
      (r : WorkerCommandResult v) (t : String)
      → decode_result_fields v (text_unless_empty "hardware_acceleration" t no_fields) r true
        ≡ (r, true)
  unfolding decode_result_fields store_result_key same_name
  skip-hardware_acceleration r t = elim (Bool-cases (t == "")) [
    | inl e ↦ rw e refl
    | inr e ↦ rw e refl
  ]

  -- What the worker writes as a task's result the API reads, with its files in the order of their
  -- keys, where the numbers and the time of the result are spelled so that they parse, the sizes
  -- in pixels are not negative and fit an int, and no key of the files occurs twice.
  pub decode_result-encode_result :
      (r : CommandResult v)
      → IsSendableResult r
      → decode_result v (some (encode_result v r)) ≡ some (received_result r)
  unfolding decode_result encode_result
  decode_result-encode_result r h =
      let f4 = text_unless_empty "hardware_acceleration" r.hardware_acceleration no_fields in
      let f3 = field "completed_at" (string (format_time r.completed_at)) f4 in
      let f2 = field "total_processing_seconds" (float_json v r.total_processing_seconds) f3 in
      let f1 = field "ffmpeg_command_run_seconds" (float_json v r.ffmpeg_command_run_seconds) f2 in
      let files = object (encode_infos v (sort_keys r.output_files)) in
      let r1 = record (no_result v) { output_files = received_files (sort_keys r.output_files) } in
      let r2 = record r1 { ffmpeg_command_run_seconds = r.ffmpeg_command_run_seconds } in
      let r3 = record r2 { total_processing_seconds = r.total_processing_seconds } in
      ap (if_fits v) (
        read_result_field (no_result v) r1 f1 "output_files" files
          (store-output_files r.output_files h.files h.keys)
        ∙ read_result_field r1 r2 f2 "ffmpeg_command_run_seconds"
            (float_json v r.ffmpeg_command_run_seconds)
            (store-run_seconds r1 r.ffmpeg_command_run_seconds h.ffmpeg_command_run_seconds)
        ∙ read_result_field r2 r3 f3 "total_processing_seconds"
            (float_json v r.total_processing_seconds)
            (store-total_seconds r2 r.total_processing_seconds h.total_processing_seconds)
        ∙ read_result_field r3 (received_result r) f4 "completed_at"
            (string (format_time r.completed_at))
            (store-completed_at r3 r.completed_at h.completed_at)
        ∙ skip-hardware_acceleration (received_result r) r.hardware_acceleration)
