-- ===== src/Pipeline/Requests.antt =====
-- What a request that the API accepts holds.
use burrowcode.Base.{
  String, ◌≡◌, ◌⊎◌, inl, inr, Option, none, some, Option-cases, if_both, if◌then◌else◌, ◌==◌,
}
use mathlib.Core.Path.{subst}
use burrowcode.Golang.Maps.{Map, HasUniqueKeys}
use burrowcode.Os.{Values}
use burrowcode.Api.Types.{CommandRequest}
use burrowcode.Api.Codec.{Jx, Decoding, decoded, faulty}
use burrowcode.Api.Codec.Walk.{IfSet}
use burrowcode.Api.Codec.Request.{decode_request}
use burrowcode.Api.Codec.Request.Keys.{Yields, HasKeys, Yields-decode_request}
use burrowcode.Api.Http.{
  Incoming, BodyText, unread, empty, malformed, spells, RequestError, bad_media_type, body_required,
  invalid_content_type, is_zero, read_body, request_of, decode_create_command_request,
}
use burrowcode.Contract.{HasKeysOnce}

pub HasKeysOnce-IfSet : (m : Option (Map String)) → IfSet HasUniqueKeys m → HasKeysOnce m
HasKeysOnce-IfSet none h = tt
HasKeysOnce-IfSet (some m) h = h

-- a request, if it is one, has no key twice
record IsKeyed (r : RequestError ⊎ CommandRequest) : Type 0 where
  at : (req : CommandRequest) → r ≡ inr req → HasKeys req

inl-IsKeyed : (e : RequestError) → IsKeyed (inl e)
inl-IsKeyed e = record { at = λ req h. absurd (cc h) }

request_of-IsKeyed : (d : Decoding CommandRequest) → Yields HasKeys d → IsKeyed (request_of d)
request_of-IsKeyed (decoded r) h = record {
  at = λ req e. let same : r ≡ req = cc e in subst HasKeys same h;
}
request_of-IsKeyed (faulty f) h = record { at = λ req e. absurd (cc e) }

module _ {v : Values} (jx : Jx v) where
  read_body-IsKeyed : (b : BodyText) → IsKeyed (read_body jx b)
  read_body-IsKeyed unread = inl-IsKeyed _
  read_body-IsKeyed empty = inl-IsKeyed _
  read_body-IsKeyed malformed = inl-IsKeyed _
  read_body-IsKeyed (spells j) =
      request_of-IsKeyed (decode_request jx j) (Yields-decode_request jx j)

  decode-IsKeyed : (r : Incoming) → IsKeyed (decode_create_command_request jx r)
  unfolding decode_create_command_request
  decode-IsKeyed r = elim (Option-cases r.media_type) [
    | inl e ↦ rw e (inl-IsKeyed bad_media_type)
    | inr (ct, e) ↦ rw e (
        if_both IsKeyed (ct == "application/json")
          (if is_zero r.content_length then inl body_required else read_body jx r.body)
          (inl (invalid_content_type ct))
          (if_both IsKeyed (is_zero r.content_length) (inl body_required) (read_body jx r.body)
            (inl-IsKeyed body_required) (read_body-IsKeyed r.body))
          (inl-IsKeyed (invalid_content_type ct)))
  ]

  -- A request that the API decodes has no key twice in its maps.
  pub decode_create_command_request-HasKeys :
      (r : Incoming) (req : CommandRequest)
      → decode_create_command_request jx r ≡ inr req
      → HasKeys req
  decode_create_command_request-HasKeys r req h = (decode-IsKeyed r).at req h
