-- ===== src/Contract/Webhook.antt =====
-- What crosses the queue between the worker (worker/main.go) and the webhook service
-- (webhooks/main.go).
use burrowcode.Base.{String, ◌≡◌, refl, true, some, [], ◌∷◌}
use burrowcode.Json.{Json, same_name, decode_text}
use burrowcode.Os.{Values, Body}
use burrowcode.Worker.Request.{CommandRequest, CommandResult, webhook_payload, webhook_body}
use burrowcode.Webhooks.{decode_payload, delivery}

-- The webhook service reads without an error the notice that the worker enqueues, and the request
-- that it sends for it is a POST to the notice's URL, whose body is the worker's, as `any` keeps it.
pub delivery-webhook_payload :
    (v : Values) (remarshal : Json → Json) (url command_id : String) (result : CommandResult v)
    (req : CommandRequest)
    → ((decode_payload (some (webhook_payload v url command_id result req))).1 ≡ true)
      × (delivery remarshal (decode_payload (some (webhook_payload v url command_id result req))).0
          ≡ record {
            method = "POST";
            url = url;
            headers = ("Content-Type", "application/json") ∷ [];
            body = Body.json (remarshal (webhook_body v command_id result req));
          })
unfolding decode_payload webhook_payload same_name decode_text delivery
delivery-webhook_payload v remarshal url command_id result req = (refl, refl)

pub decode_payload-webhook_payload :
    (v : Values) (url command_id : String) (result : CommandResult v) (req : CommandRequest)
    → ((decode_payload (some (webhook_payload v url command_id result req))).1 ≡ true)
      × ((decode_payload (some (webhook_payload v url command_id result req))).0.url ≡ url)
unfolding decode_payload webhook_payload same_name decode_text
decode_payload-webhook_payload v url command_id result req = (refl, refl)
