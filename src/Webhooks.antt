-- ===== src/Webhooks.antt =====
-- webhooks/main.go: the service that delivers webhooks.
pub mod Start
pub mod Delivery
pub mod Success
use burrowcode.Base.{
  ℕ, String, ◌⧺◌, Bool, true, false, ◌||◌, Option, none, some, [], ◌∷◌, ◌==◌, ltb, leb,
  if◌then◌else◌,
}
use burrowcode.Golang.Errors.{Result, ok, err}
use burrowcode.Golang.Numbers.{format_nat}
use burrowcode.Golang.Maps.{Map}
use burrowcode.Json.{Json, Fields, null, object, field, no_fields, same_name, decode_text}
use burrowcode.Os.{Machine, Body, Request, Response, new_request, send}
use burrowcode.Os.Act.{Act, perform, pure, fail, annotate, ◌>>=◌, ◌>>◌}

-- The body is `none` where it is the nil map.
pub record WebhookPayload : Type 0 where
  pub url : String
  pub command_id : String
  pub status : String
  pub body : Option Fields

abbrev pub no_payload : WebhookPayload
no_payload = record { url = ""; command_id = ""; status = ""; body = none }

-- into a `map[string]any`, which takes any value under a key; a second object is added to the first
abbrev append_fields : Fields → Fields → Fields
append_fields no_fields more = more
append_fields (field k v rest) more = field k v (append_fields rest more)

abbrev decode_body : Json → Option Fields → Option Fields × Bool
decode_body (object fs) none = (some fs, true)
decode_body (object fs) (some old) = (some (append_fields old fs), true)
decode_body null old = (none, true)
decode_body _ old = (old, false)

unfoldable pub store_key : WebhookPayload → String → Json → WebhookPayload × Bool
store_key p k v =
    if same_name k "url"
    then (let (x, fits) = decode_text v p.url in (record p { url = x }, fits))
    else if same_name k "command_id"
    then (let (x, fits) = decode_text v p.command_id in (record p { command_id = x }, fits))
    else if same_name k "status"
    then (let (x, fits) = decode_text v p.status in (record p { status = x }, fits))
    else if same_name k "body"
    then (let (x, fits) = decode_body v p.body in (record p { body = x }, fits))
    else (p, true)

unfoldable pub decode_fields : Fields → WebhookPayload → Bool → WebhookPayload × Bool
unfolding store_key
decode_fields no_fields p fine = (p, fine)
decode_fields (field k v rest) p fine =
    let (p', fits) = store_key p k v in decode_fields rest p' (if fits then fine else false)

unfoldable pub decode_payload : Option Json → WebhookPayload × Bool
unfolding decode_fields
decode_payload none = (no_payload, false)
decode_payload (some (object fs)) = decode_fields fs no_payload true
decode_payload (some null) = (no_payload, true)
decode_payload (some _) = (no_payload, false)

abbrev pub body_value : Option Fields → Json
body_value none = null
body_value (some fs) = object fs

-- `remarshal` is what Unmarshal into `any` and Marshal do to a value: keys in order, each once,
-- and numbers in the spelling of a float64.
unfoldable pub delivery : (Json → Json) → WebhookPayload → Request
delivery remarshal p = record {
  method = "POST";
  url = p.url;
  headers = ("Content-Type", "application/json") ∷ [];
  body = Body.json (remarshal (body_value p.body));
}

module _ {m : Machine} where
  unfoldable pub check_status : Response → Act m Unit
  unfolding pure fail
  check_status resp =
      if ltb resp.status 200 || leb 300 resp.status
      then fail ("webhook returned non-2xx status: " ⧺ format_nat resp.status)
      else pure tt

  unfoldable pub unmarshal_payload : Option Json → Act m WebhookPayload
  unfolding decode_payload pure fail
  unmarshal_payload payload =
      let (p, fine) = decode_payload payload in
      if fine then pure p else fail "unmarshal payload: json: cannot unmarshal"

  -- one request, and what its answer means
  unfoldable pub deliver : (Json → Json) → WebhookPayload → Act m Unit
  deliver remarshal p =
      annotate "create request: " (perform (new_request "POST" p.url))
      >> (annotate "http request failed: " (perform (send (delivery remarshal p))) >>= check_status)

  unfoldable pub handle_webhook_deliver : (Json → Json) → Option Json → Act m Unit
  handle_webhook_deliver remarshal payload = unmarshal_payload payload >>= deliver remarshal
