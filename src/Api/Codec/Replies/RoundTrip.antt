-- ===== src/Api/Codec/Replies/RoundTrip.antt =====
-- The replies that are encoded decode to themselves.
use burrowcode.Base.{String, ◌≡◌, refl, ◌∙◌, some, List, [], ◌∷◌, All, eq_refl, map}
use burrowcode.Golang.Int.{ℤ}
use burrowcode.Json.{field, no_fields, string, array}
use burrowcode.Os.{Values}
use burrowcode.Api.Types.{items_of, CommandResponse, CommandStatus, CommandListResponse}
use burrowcode.Api.Codec.{Jx, JxLaws, IsInt64, decoded, encode_items, decode_array, field_if_set}
use burrowcode.Api.Codec.Walk.{
  walk-field, walk-no_fields, walk-field_if_set, decode_object-walked, walk_items-normal,
}
use burrowcode.Api.Codec.Request.RoundTrip.{read_string-string}
use burrowcode.Api.Codec.Status.{encode_status, decode_status}
use burrowcode.Api.Codec.Status.RoundTrip.{
  IsCodableStatus, normal_status, decode_status-encode_status,
}
use burrowcode.Api.Codec.Replies.{
  required_of_response, zero_response, required_of_list, zero_list, encode_error, decode_error,
  decode_error_alias, encode_health, decode_health, encode_response_fields, encode_response,
  store_text, store_response, decode_response, encode_list_fields, encode_list, store_list,
  decode_list,
}

module _ {v : Values} (jx : Jx v) (laws : JxLaws v jx) where
  store_text-string : (name t : String) → store_text jx name name (string t) "" ≡ decoded t
  store_text-string name t = rw (eq_refl name, read_string-string jx laws t) refl

  pub decode_error_alias-encode_error :
      (t : String) → decode_error_alias jx (encode_error t) ≡ decoded t
  unfolding decode_error_alias decode_error encode_error
  decode_error_alias-encode_error t =
      let store = store_text jx "error" in
      let need : List String = "error" ∷ [] in
      rw
        (decode_object-walked jx laws "ErrorResponse" need store "" t need
          (field "error" (string t) no_fields)
          (walk-field store need "error" (string t) no_fields "" t [] (store_text-string "error" t)
            ∙ walk-no_fields store need t need)
          refl)
        refl

  pub decode_health-encode_health : (t : String) → decode_health jx (encode_health t) ≡ decoded t
  unfolding decode_health encode_health
  decode_health-encode_health t =
      let store = store_text jx "status" in
      let need : List String = "status" ∷ [] in
      decode_object-walked jx laws "HealthResponse" need store "" t need
        (field "status" (string t) no_fields)
        (walk-field store need "status" (string t) no_fields "" t [] (store_text-string "status" t)
          ∙ walk-no_fields store need t need)
        refl

  module _ (r : CommandResponse) where
    store-command_id :
        (t : String)
        → store_response jx "command_id" (string t) r ≡ decoded (record r { command_id = t })
    unfolding store_response
    store-command_id t = rw (read_string-string jx laws t) refl

    store-status :
        (t : String) → store_response jx "status" (string t) r ≡ decoded (record r { status = t })
    unfolding store_response
    store-status t = rw (read_string-string jx laws t) refl

    store-reference_id :
        (t : String)
        → store_response jx "reference_id" (string t) r
          ≡ decoded (record r { reference_id = some t })
    unfolding store_response
    store-reference_id t = rw (read_string-string jx laws t) refl

  -- A CommandResponse that is encoded decodes to itself.
  pub decode_response-encode_response :
      (r : CommandResponse) → decode_response jx (encode_response r) ≡ decoded r
  unfolding decode_response encode_response encode_response_fields
  decode_response-encode_response r =
      let store = store_response jx in
      let need = required_of_response in
      let f3 = field_if_set "reference_id" string r.reference_id no_fields in
      let f2 = field "status" (string r.status) f3 in
      let r1 = record zero_response { command_id = r.command_id } in
      let r2 = record r1 { status = r.status } in
      let m1 : List String = "command_id" ∷ [] in
      let m2 : List String = "status" ∷ m1 in
      decode_object-walked jx laws "CommandResponse" need store zero_response r m2
        (encode_response_fields r)
        (walk-field store need "command_id" (string r.command_id) f2 zero_response r1 []
            (store-command_id zero_response r.command_id)
          ∙ walk-field store need "status" (string r.status) f3 r1 r2 m1 (store-status r1 r.status)
          ∙ walk-field_if_set store need "reference_id" string r.reference_id no_fields
              (λ o. record r2 { reference_id = o }) m2 refl (λ t e. store-reference_id r2 t)
          ∙ walk-no_fields store need r m2)
        refl

  module _ (l : CommandListResponse v) where
    store-commands :
        (xs : List (CommandStatus v))
        → All (IsCodableStatus jx laws) xs
        → store_list jx "commands" (array (encode_items (encode_status jx) xs)) l
          ≡ decoded (record l { commands = some (map normal_status xs) })
    unfolding store_list decode_array
    store-commands xs h =
        rw
          (
            laws.read-array (encode_items (encode_status jx) xs),
            walk_items-normal (IsCodableStatus jx laws) (encode_status jx) (decode_status jx)
                normal_status (decode_status-encode_status jx laws) xs [] h,
          )
          refl

    store-total :
        (n : ℤ)
        → IsInt64 n
        → store_list jx "total" (jx.write_int n) l ≡ decoded (record l { total = n })
    unfolding store_list
    store-total n h = rw (laws.read-write_int n h) refl

  abbrev pub normal_list : CommandListResponse v → CommandListResponse v
  normal_list l = record l { commands = some (map normal_status (items_of l.commands)) }

  pub decode_list-encode_list :
      (l : CommandListResponse v)
      → All (IsCodableStatus jx laws) (items_of l.commands)
      → IsInt64 l.total
      → decode_list jx (encode_list jx l) ≡ decoded (normal_list l)
  unfolding decode_list encode_list encode_list_fields
  decode_list-encode_list l h n =
      let store = store_list jx in
      let need = required_of_list in
      let f2 = field "total" (jx.write_int l.total) no_fields in
      let l1 = record (zero_list jx) {
        commands = some (map normal_status (items_of l.commands));
      } in
      let m1 : List String = "commands" ∷ [] in
      let m2 : List String = "total" ∷ m1 in
      decode_object-walked jx laws "CommandListResponse" need store (zero_list jx) (normal_list l)
        m2 (encode_list_fields jx l)
        (walk-field store need "commands"
            (array (encode_items (encode_status jx) (items_of l.commands))) f2 (zero_list jx) l1 []
            (store-commands (zero_list jx) (items_of l.commands) h)
          ∙ walk-field store need "total" (jx.write_int l.total) no_fields l1 (normal_list l) m1
              (store-total l1 l.total n)
          ∙ walk-no_fields store need (normal_list l) m2)
        refl
