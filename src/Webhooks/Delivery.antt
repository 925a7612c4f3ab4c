-- ===== src/Webhooks/Delivery.antt =====
-- When a delivery counts as done.
use burrowcode.Base.{
  ◌≤◌, ◌<◌, ◌≡◌, refl, ◌∙◌, sym, ap, true, String, [], ◌∷◌, ◌++◌, Option, arith, Bool-cases, inl,
  inr, ltb, leb, ◌||◌,
}
use mathlib.Core.Path.{subst}
use burrowcode.Golang.Errors.{Result, ok, err}
use burrowcode.Json.{Json}
use burrowcode.Os.{Machine, Call, Response, new_request, send}
use burrowcode.Os.Act.{State, Act, perform, annotate, prefixed, pure, fail, ◌>>=◌}
use burrowcode.Os.Outcome.{bind-eq-ok}
use burrowcode.Webhooks.{
  WebhookPayload, decode_payload, delivery, check_status, deliver, unmarshal_payload,
  handle_webhook_deliver,
}

-- One request for the payload was built and sent, and the machine's answer to it had a status of the
-- 200s. The request is sent in the state that building it leaves.
pub record IsSent {m : Machine} (remarshal : Json → Json) (p : WebhookPayload) (s s' : State m)
    : Type 0 where
  pub response : Response
  pub answered :
      (perform (send (delivery remarshal p)) (perform (new_request "POST" p.url) s).1).0
      ≡ ok response
  pub least : 200 ≤ response.status
  pub most : response.status < 300
  pub calls :
      s'.calls ≡ (s.calls ++ new_request "POST" p.url ∷ []) ++ send (delivery remarshal p) ∷ []

-- What a delivery that succeeded did: the payload decoded, and its request was sent.
pub record IsDelivered {m : Machine} (remarshal : Json → Json) (payload : Option Json)
    (s s' : State m) : Type 0 where
  pub decoded : (decode_payload payload).1 ≡ true
  pub sent : IsSent remarshal (decode_payload payload).0 s s'

module _ {m : Machine} where
  annotate-eq-ok :
      {A : Type 0} (p : String) (act : Act m A) (s : State m) (a : A)
      → (annotate p act s).0 ≡ ok a
      → (act s).0 ≡ ok a
  unfolding annotate
  annotate-eq-ok {A} p act s a q = go (act s).0 q
    where
      go : (r : Result A) → prefixed p r ≡ ok a → r ≡ ok a
      go (ok b) e = e
      go (err x) e = absurd (cc e)

  check_status-eq-ok :
      (resp : Response) (s : State m)
      → (check_status resp s).0 ≡ ok tt
      → (200 ≤ resp.status) × (resp.status < 300)
  unfolding check_status pure fail
  check_status-eq-ok resp s q = elim (Bool-cases (ltb resp.status 200 || leb 300 resp.status)) [
    | inl bad ↦ absurd (cc (rw (bad, check_status) at q))
    | inr good ↦ (ground arith, ground arith)
  ]

  unmarshal_payload-eq-ok :
      (payload : Option Json) (s : State m) (p : WebhookPayload)
      → (unmarshal_payload payload s).0 ≡ ok p
      → ((decode_payload payload).1 ≡ true) × ((decode_payload payload).0 ≡ p)
  unfolding unmarshal_payload pure fail
  unmarshal_payload-eq-ok payload s p q = elim (Bool-cases (decode_payload payload).1) [
    | inl fine ↦ (fine, cc (rw (fine, unmarshal_payload) at q))
    | inr bad ↦ absurd (cc (rw (bad, unmarshal_payload) at q))
  ]

  check_status_same : (resp : Response) (s : State m) → (check_status resp s).1 ≡ s
  unfolding check_status pure fail
  check_status_same resp s = elim (Bool-cases (ltb resp.status 200 || leb 300 resp.status)) [
    | inl bad ↦ rw bad
    | inr good ↦ rw good
  ]

  unmarshal_payload_same :
      (payload : Option Json) (s : State m) → (unmarshal_payload payload s).1 ≡ s
  unfolding unmarshal_payload pure fail
  unmarshal_payload_same payload s = elim (Bool-cases (decode_payload payload).1) [
    | inl fine ↦ rw (fine, unmarshal_payload)
    | inr bad ↦ rw (bad, unmarshal_payload)
  ]

  two_calls :
      (c c' : Call) (s : State m)
      → (perform c' (perform c s).1).1.calls ≡ (s.calls ++ c ∷ []) ++ c' ∷ []
  unfolding perform
  two_calls c c' s = refl

  deliver-eq-ok :
      (remarshal : Json → Json) (p : WebhookPayload) (s : State m)
      → (deliver remarshal p s).0 ≡ ok tt
      → IsSent remarshal p s (deliver remarshal p s).1
  unfolding deliver annotate
  deliver-eq-ok remarshal p s q =
      let make = annotate {m = m} "create request: " (perform (new_request "POST" p.url)) in
      let ask_it =
        annotate {m = m} "http request failed: " (perform (send (delivery remarshal p))) in
      let (x, made, rest, st) = bind-eq-ok make (λ _. ask_it >>= check_status) s tt q in
      let t = (make s).1 in
      let (resp, answered, checked, st') = bind-eq-ok ask_it check_status t tt rest in
      let (least, most) = check_status-eq-ok resp (ask_it t).1 checked in
      record {
        response = resp;
        answered =
            annotate-eq-ok "http request failed: " (perform (send (delivery remarshal p))) t resp
              answered;
        least = least;
        most = most;
        calls =
            ap (λ (w : State m). w.calls) (st ∙ st' ∙ check_status_same resp (ask_it t).1)
            ∙ two_calls (new_request "POST" p.url) (send (delivery remarshal p)) s;
      }

-- A delivery that returns no error sent the payload's body to the payload's URL, once, and was
-- answered with a status of at least 200 and below 300.
pub handle_webhook_deliver-IsDelivered :
    {m : Machine} (remarshal : Json → Json) (payload : Option Json) (s : State m)
    → (handle_webhook_deliver remarshal payload s).0 ≡ ok tt
    → IsDelivered remarshal payload s (handle_webhook_deliver remarshal payload s).1
unfolding handle_webhook_deliver
handle_webhook_deliver-IsDelivered {m} remarshal payload s q =
    let (p, read, sent, st) = bind-eq-ok (unmarshal_payload payload) (deliver remarshal) s tt q in
    let (fine, same) = unmarshal_payload-eq-ok payload s p read in
    let t = (unmarshal_payload {m = m} payload s).1 in
    let last = (handle_webhook_deliver {m = m} remarshal payload s).1 in
    let sent_from =
      subst (λ x. IsSent remarshal p t x) (sym st) (deliver-eq-ok remarshal p t sent) in
    let sent_first =
      subst (λ x. IsSent remarshal p x last) (unmarshal_payload_same payload s) sent_from in
    record { decoded = fine; sent = subst (λ x. IsSent remarshal x s last) (sym same) sent_first }
