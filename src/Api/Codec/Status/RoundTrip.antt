-- ===== src/Api/Codec/Status/RoundTrip.antt =====
-- A CommandStatus that is encoded decodes to itself.
use burrowcode.Base.{ℕ, String, ◌≡◌, refl, ◌∙◌, true, Option, none, some, List, [], ◌∷◌, All}
use burrowcode.Golang.Maps.{Map, HasUniqueKeys}
use burrowcode.Json.{field, no_fields, string}
use burrowcode.Os.{Values}
use burrowcode.Api.Types.{CommandRequest, OutputFileInfo, CommandStatus}
use burrowcode.Api.Codec.{Jx, JxLaws, decoded, walk, field_if_set}
use burrowcode.Api.Codec.Walk.{
  walk-field, walk-no_fields, walk-field_if_set, IfSet, IfSet-some, decode_object-walked,
}
use burrowcode.Api.Codec.Request.{encode_request}
use burrowcode.Api.Codec.Request.RoundTrip.{
  IsCodable, with_output_files, read_string-string, decode_request-encode_request,
}
use burrowcode.Api.Codec.Status.{
  required_of_status, zero_status, encode_infos, encode_status_fields, encode_status, store_status,
  decode_status,
}
use burrowcode.Api.Codec.Status.InfoRoundTrip.{IsCodableInfo, decode_infos-encode_infos}

-- files whose descriptions come back, under keys that occur once
pub record AreCodable {v : Values} (jx : Jx v) (m : Map (OutputFileInfo v)) : Type 0 where
  pub each : All (λ (e : String × OutputFileInfo v). IsCodableInfo jx e.1) m
  pub keys : HasUniqueKeys m

abbrev pub IsFinite : {v : Values} → Jx v → Values.Float v → Type 0
IsFinite jx x = jx.is_finite x ≡ true

pub record IsCodableStatus {v : Values} (jx : Jx v) (laws : JxLaws v jx) (s : CommandStatus v)
    : Type 0 where
  pub output_files : IfSet (AreCodable jx) s.output_files
  pub original_request : IfSet (IsCodable jx laws) s.original_request
  pub ffmpeg_command_run_seconds : IfSet (IsFinite jx) s.ffmpeg_command_run_seconds
  pub total_processing_seconds : IfSet (IsFinite jx) s.total_processing_seconds
  pub created_at : laws.IsKept s.created_at
  pub completed_at : IfSet laws.IsKept s.completed_at

-- A request with a nil map of output files comes back with an empty one.
abbrev pub normal_request : Option CommandRequest → Option CommandRequest
normal_request none = none
normal_request (some r) = some (with_output_files r)

abbrev pub normal_status : {v : Values} → CommandStatus v → CommandStatus v
normal_status s = record s { original_request = normal_request s.original_request }

module _ {v : Values} (jx : Jx v) (laws : JxLaws v jx) where
  module _ (s : CommandStatus v) where
    store-command_id :
        (t : String)
        → store_status jx "command_id" (string t) s ≡ decoded (record s { command_id = t })
    unfolding store_status
    store-command_id t = rw (read_string-string jx laws t) refl

    store-status :
        (t : String) → store_status jx "status" (string t) s ≡ decoded (record s { status = t })
    unfolding store_status
    store-status t = rw (read_string-string jx laws t) refl

    store-error :
        (t : String) → store_status jx "error" (string t) s ≡ decoded (record s { error = some t })
    unfolding store_status
    store-error t = rw (read_string-string jx laws t) refl

    store-output_files :
        (m : Map (OutputFileInfo v))
        → AreCodable jx m
        → store_status jx "output_files" (encode_infos jx m) s
          ≡ decoded (record s { output_files = some m })
    unfolding store_status
    store-output_files m h0 = rw (decode_infos-encode_infos jx laws m h0.each h0.keys) refl

    store-original_request :
        (r : CommandRequest)
        → IsCodable jx laws r
        → store_status jx "original_request" (encode_request jx r) s
          ≡ decoded (record s { original_request = some (with_output_files r) })
    unfolding store_status
    store-original_request r h0 = rw (decode_request-encode_request jx laws r h0) refl

    store-ffmpeg_command_run_seconds :
        (x : Values.Float v)
        → IsFinite jx x
        → store_status jx "ffmpeg_command_run_seconds" (jx.write_float x) s
          ≡ decoded (record s { ffmpeg_command_run_seconds = some x })
    unfolding store_status
    store-ffmpeg_command_run_seconds x h0 = rw (laws.read-write_float x h0) refl

    store-total_processing_seconds :
        (x : Values.Float v)
        → IsFinite jx x
        → store_status jx "total_processing_seconds" (jx.write_float x) s
          ≡ decoded (record s { total_processing_seconds = some x })
    unfolding store_status
    store-total_processing_seconds x h0 = rw (laws.read-write_float x h0) refl

    store-created_at :
        (t : ℕ)
        → laws.IsKept t
        → store_status jx "created_at" (jx.write_date_time t) s
          ≡ decoded (record s { created_at = t })
    unfolding store_status
    store-created_at t h0 = rw (laws.read-write_date_time t h0) refl

    store-completed_at :
        (t : ℕ)
        → laws.IsKept t
        → store_status jx "completed_at" (jx.write_date_time t) s
          ≡ decoded (record s { completed_at = some t })
    unfolding store_status
    store-completed_at t h0 = rw (laws.read-write_date_time t h0) refl

  walk-encode_status_fields :
      (s : CommandStatus v)
      → IsCodableStatus jx laws s
      → walk (store_status jx) required_of_status (encode_status_fields jx s) (zero_status jx) []
        ≡ decoded (normal_status s, "created_at" ∷ "status" ∷ "command_id" ∷ [])
  unfolding encode_status_fields
  walk-encode_status_fields s h =
      let store = store_status jx in
      let need = required_of_status in
      let f9 = field_if_set "completed_at" jx.write_date_time s.completed_at no_fields in
      let f8 = field "created_at" (jx.write_date_time s.created_at) f9 in
      let f7 = field_if_set "error" string s.error f8 in
      let f6 =
        field_if_set "total_processing_seconds" jx.write_float s.total_processing_seconds f7 in
      let f5 =
        field_if_set "ffmpeg_command_run_seconds" jx.write_float s.ffmpeg_command_run_seconds f6 in
      let f4 = field_if_set "original_request" (encode_request jx) s.original_request f5 in
      let f3 = field_if_set "output_files" (encode_infos jx) s.output_files f4 in
      let f2 = field "status" (string s.status) f3 in
      let s1 = record (zero_status jx) { command_id = s.command_id } in
      let s2 = record s1 { status = s.status } in
      let s3 = record s2 { output_files = s.output_files } in
      let s4 = record s3 { original_request = normal_request s.original_request } in
      let s5 = record s4 { ffmpeg_command_run_seconds = s.ffmpeg_command_run_seconds } in
      let s6 = record s5 { total_processing_seconds = s.total_processing_seconds } in
      let s7 = record s6 { error = s.error } in
      let s8 = record s7 { created_at = s.created_at } in
      let m1 : List String = "command_id" ∷ [] in
      let m2 : List String = "status" ∷ m1 in
      let m3 : List String = "created_at" ∷ m2 in
      walk-field store need "command_id" (string s.command_id) f2 (zero_status jx) s1 []
        (store-command_id (zero_status jx) s.command_id)
      ∙ walk-field store need "status" (string s.status) f3 s1 s2 m1 (store-status s1 s.status)
      ∙ walk-field_if_set store need "output_files" (encode_infos jx) s.output_files f4
          (λ o. record s2 { output_files = o }) m2 refl
          (λ x e.
            store-output_files s2 x (IfSet-some (AreCodable jx) s.output_files x h.output_files e))
      ∙ walk-field_if_set store need "original_request" (encode_request jx) s.original_request f5
          (λ o. record s3 { original_request = normal_request o }) m2 refl
          (λ x e.
            store-original_request s3 x
              (IfSet-some (IsCodable jx laws) s.original_request x h.original_request e))
      ∙ walk-field_if_set store need "ffmpeg_command_run_seconds" jx.write_float
          s.ffmpeg_command_run_seconds f6 (λ o. record s4 { ffmpeg_command_run_seconds = o }) m2
          refl
          (λ x e. store-ffmpeg_command_run_seconds s4 x (
            IfSet-some (IsFinite jx) s.ffmpeg_command_run_seconds x h.ffmpeg_command_run_seconds e))
      ∙ walk-field_if_set store need "total_processing_seconds" jx.write_float
          s.total_processing_seconds f7 (λ o. record s5 { total_processing_seconds = o }) m2 refl
          (λ x e.
            store-total_processing_seconds s5 x
              (IfSet-some (IsFinite jx) s.total_processing_seconds x h.total_processing_seconds e))
      ∙ walk-field_if_set store need "error" string s.error f8 (λ o. record s6 { error = o }) m2
          refl (λ x e. store-error s6 x)
      ∙ walk-field store need "created_at" (jx.write_date_time s.created_at) f9 s7 s8 m2
          (store-created_at s7 s.created_at h.created_at)
      ∙ walk-field_if_set store need "completed_at" jx.write_date_time s.completed_at no_fields
          (λ o. record s8 { completed_at = o }) m3 refl
          (λ x e.
            store-completed_at s8 x (IfSet-some (laws.IsKept) s.completed_at x h.completed_at e))
      ∙ walk-no_fields store need (normal_status s) m3

  -- A status that is encoded decodes to itself, but for a nil map of output files in the request
  -- that it holds; the numbers in it must be finite and of 64 bits, the times of those that their
  -- spelling keeps, the webhook a URL that its text gives back, and no key occur twice in a map.
  pub decode_status-encode_status :
      (s : CommandStatus v)
      → IsCodableStatus jx laws s
      → decode_status jx (encode_status jx s) ≡ decoded (normal_status s)
  unfolding decode_status encode_status
  decode_status-encode_status s h =
      decode_object-walked jx laws "CommandStatus" required_of_status (store_status jx)
        (zero_status jx) (normal_status s) ("created_at" ∷ "status" ∷ "command_id" ∷ [])
        (encode_status_fields jx s) (walk-encode_status_fields s h) refl
