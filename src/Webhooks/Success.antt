-- ===== src/Webhooks/Success.antt =====
-- A delivery of webhooks/main.go where nothing that it calls fails.
use burrowcode.Base.{◌≡◌, true, false, ◌||◌, Option, nat_eq, ltb, leb, arith}
use burrowcode.Golang.Errors.{ok}
use burrowcode.Json.{Json}
use burrowcode.Os.{Machine, Response, new_request, send}
use burrowcode.Os.Act.{State, perform, pure, ◌>>=◌}
use burrowcode.Os.Gives.{Any, Holds-eq, Gives, Gives-pure, Gives-annotate, Gives-bind, Gives-then}
use burrowcode.Os.Helpful.{IsHelpful}
use burrowcode.Webhooks.{
  WebhookPayload, decode_payload, delivery, check_status, deliver, unmarshal_payload,
  handle_webhook_deliver,
}

fine_status : (n : _) → nat_eq n 200 ≡ true → (ltb n 200 || leb 300 n) ≡ false
fine_status n h = ground arith

module _ {m : Machine} (good : IsHelpful m) (remarshal : Json → Json) where
  check_status-Gives :
      (r : Response) → nat_eq r.status 200 ≡ true → Gives {m = m} Any (check_status r)
  unfolding check_status
  check_status-Gives r h = rw (fine_status r.status h) (Gives-pure tt tt)

  deliver-Gives : (p : WebhookPayload) → Gives {m = m} Any (deliver remarshal p)
  unfolding deliver perform
  deliver-Gives p =
      Gives-then
        (Gives-annotate _ _ (record { at = λ s. good.goes (new_request "POST" p.url) s.world }))
        (λ x.
          Gives-bind _ check_status
            (Gives-annotate _ _
              (record { at = λ s. good.goes (send (delivery remarshal p)) s.world }))
            check_status-Gives)

  -- A notice that decodes is delivered without an error where every call goes well.
  pub handle_webhook_deliver-ends :
      (payload : Option Json) (s : State m)
      → (decode_payload payload).1 ≡ true
      → (handle_webhook_deliver remarshal payload s).0 ≡ ok tt
  unfolding handle_webhook_deliver unmarshal_payload pure ◌>>=◌
  handle_webhook_deliver-ends payload s h =
      rw h (Holds-eq _ ((deliver-Gives (decode_payload payload).0).at s))
