-- ===== src/Api/Codec/Status/InfoRoundTrip.antt =====
-- An OutputFileInfo that is encoded decodes to itself.
use burrowcode.Base.{String, ◌≡◌, refl, ◌∙◌, true, some, List, [], ◌∷◌, All}
use burrowcode.Golang.Int.{ℤ}
use burrowcode.Golang.Maps.{Map, HasUniqueKeys}
use burrowcode.Json.{field, no_fields, string}
use burrowcode.Os.{Values}
use burrowcode.Api.Types.{OutputFileInfo}
use burrowcode.Api.Codec.{Jx, JxLaws, IsInt64, decoded, walk, field_if_set}
use burrowcode.Api.Codec.Walk.{
  walk-field, walk-no_fields, walk-field_if_set, IfSet, IfSet-some, decode_object-walked,
  decode_entries-encoded,
}
use burrowcode.Api.Codec.Request.RoundTrip.{read_string-string}
use burrowcode.Api.Codec.Status.{
  required_of_info, zero_info, encode_info_fields, encode_info, store_info, decode_info,
  encode_infos, decode_infos,
}

-- a size that is a number, and a width and a height of 64 bits
pub record IsCodableInfo {v : Values} (jx : Jx v) (i : OutputFileInfo v) : Type 0 where
  pub size_mbytes : jx.is_finite i.size_mbytes ≡ true
  pub width : IfSet IsInt64 i.width
  pub height : IfSet IsInt64 i.height

module _ {v : Values} (jx : Jx v) (laws : JxLaws v jx) where
  module _ (i : OutputFileInfo v) where
    store-file_id :
        (t : String) → store_info jx "file_id" (string t) i ≡ decoded (record i { file_id = t })
    unfolding store_info
    store-file_id t = rw (read_string-string jx laws t) refl

    store-file_type :
        (t : String) → store_info jx "file_type" (string t) i ≡ decoded (record i { file_type = t })
    unfolding store_info
    store-file_type t = rw (read_string-string jx laws t) refl

    store-file_format :
        (t : String)
        → store_info jx "file_format" (string t) i ≡ decoded (record i { file_format = t })
    unfolding store_info
    store-file_format t = rw (read_string-string jx laws t) refl

    store-storage_url :
        (t : String)
        → store_info jx "storage_url" (string t) i ≡ decoded (record i { storage_url = t })
    unfolding store_info
    store-storage_url t = rw (read_string-string jx laws t) refl

    store-size_mbytes :
        (x : Values.Float v)
        → jx.is_finite x ≡ true
        → store_info jx "size_mbytes" (jx.write_float x) i ≡ decoded (record i { size_mbytes = x })
    unfolding store_info
    store-size_mbytes x h0 = rw (laws.read-write_float x h0) refl

    store-width :
        (n : ℤ)
        → IsInt64 n
        → store_info jx "width" (jx.write_int n) i ≡ decoded (record i { width = some n })
    unfolding store_info
    store-width n h0 = rw (laws.read-write_int n h0) refl

    store-height :
        (n : ℤ)
        → IsInt64 n
        → store_info jx "height" (jx.write_int n) i ≡ decoded (record i { height = some n })
    unfolding store_info
    store-height n h0 = rw (laws.read-write_int n h0) refl

  walk-encode_info_fields :
      (i : OutputFileInfo v)
      → IsCodableInfo jx i
      → walk (store_info jx) required_of_info (encode_info_fields jx i) (zero_info jx) []
        ≡ decoded (i, "storage_url" ∷ "file_format" ∷ "file_type" ∷ "size_mbytes" ∷ "file_id" ∷ [])
  unfolding encode_info_fields
  walk-encode_info_fields i h =
      let store = store_info jx in
      let need = required_of_info in
      let f7 = field_if_set "height" jx.write_int i.height no_fields in
      let f6 = field_if_set "width" jx.write_int i.width f7 in
      let f5 = field "storage_url" (string i.storage_url) f6 in
      let f4 = field "file_format" (string i.file_format) f5 in
      let f3 = field "file_type" (string i.file_type) f4 in
      let f2 = field "size_mbytes" (jx.write_float i.size_mbytes) f3 in
      let i1 = record (zero_info jx) { file_id = i.file_id } in
      let i2 = record i1 { size_mbytes = i.size_mbytes } in
      let i3 = record i2 { file_type = i.file_type } in
      let i4 = record i3 { file_format = i.file_format } in
      let i5 = record i4 { storage_url = i.storage_url } in
      let i6 = record i5 { width = i.width } in
      let m1 : List String = "file_id" ∷ [] in
      let m2 : List String = "size_mbytes" ∷ m1 in
      let m3 : List String = "file_type" ∷ m2 in
      let m4 : List String = "file_format" ∷ m3 in
      let m5 : List String = "storage_url" ∷ m4 in
      walk-field store need "file_id" (string i.file_id) f2 (zero_info jx) i1 []
        (store-file_id (zero_info jx) i.file_id)
      ∙ walk-field store need "size_mbytes" (jx.write_float i.size_mbytes) f3 i1 i2 m1
          (store-size_mbytes i1 i.size_mbytes h.size_mbytes)
      ∙ walk-field store need "file_type" (string i.file_type) f4 i2 i3 m2
          (store-file_type i2 i.file_type)
      ∙ walk-field store need "file_format" (string i.file_format) f5 i3 i4 m3
          (store-file_format i3 i.file_format)
      ∙ walk-field store need "storage_url" (string i.storage_url) f6 i4 i5 m4
          (store-storage_url i4 i.storage_url)
      ∙ walk-field_if_set store need "width" jx.write_int i.width f7 (λ o. record i5 { width = o })
          m5 refl (λ n e. store-width i5 n (IfSet-some IsInt64 i.width n h.width e))
      ∙ walk-field_if_set store need "height" jx.write_int i.height no_fields
          (λ o. record i6 { height = o }) m5 refl
          (λ n e. store-height i6 n (IfSet-some IsInt64 i.height n h.height e))
      ∙ walk-no_fields store need i m5

  pub decode_info-encode_info :
      (i : OutputFileInfo v) → IsCodableInfo jx i → decode_info jx (encode_info jx i) ≡ decoded i
  unfolding decode_info encode_info
  decode_info-encode_info i h =
      decode_object-walked jx laws "OutputFileInfo" required_of_info (store_info jx) (zero_info jx)
        i ("storage_url" ∷ "file_format" ∷ "file_type" ∷ "size_mbytes" ∷ "file_id" ∷ [])
        (encode_info_fields jx i) (walk-encode_info_fields i h) refl

  pub decode_infos-encode_infos :
      (m : Map (OutputFileInfo v))
      → All (λ (e : String × OutputFileInfo v). IsCodableInfo jx e.1) m
      → HasUniqueKeys m
      → decode_infos jx (encode_infos jx m) ≡ decoded m
  unfolding decode_infos encode_infos
  decode_infos-encode_infos m h u =
      decode_entries-encoded jx laws (IsCodableInfo jx) (encode_info jx) (decode_info jx)
        decode_info-encode_info "CommandStatusOutputFiles" m h u
