-- ===== src/Tests/Contract.antt =====
-- What crosses the queue.
use burrowcode.Base.{◌≡◌, refl, true, none, some, [], ◌∷◌, arith}
use burrowcode.Golang.Maps.{lookup}
use burrowcode.Api.Types.{WorkerCommandRequest, encode_worker_request}
use burrowcode.Os.{Body, Values}
use burrowcode.Worker.Request.{
  CommandResult, no_request, decode_request, webhook_payload, webhook_body,
}
use burrowcode.Webhooks.{decode_payload, delivery}
use burrowcode.Contract.Webhook.{delivery-webhook_payload}
use burrowcode.Worker.Request.{OutputFileInfo, encode_result}
use burrowcode.Golang.Int.{pos}
use burrowcode.Golang.Numbers.{parse_uint, value?, format_nat}
use burrowcode.Api.Result.{decode_result}
use burrowcode.Contract.Result.RoundTrip.{
  IsSendableResult, received_result, decode_result-encode_result,
}
use burrowcode.Tests.Fixture.{whole}
use burrowcode.Contract.{IsReceived, HasKeysOnce, decode_request-encode_worker_request}

abbrev sent : WorkerCommandRequest
sent = record {
  input_files = none;
  output_files = some (("o", "o.mp4") ∷ ("a", "a.png") ∷ []);
  ffmpeg_command = "";
  ffmpeg_commands = "-i {{a}} {{o}}" ∷ [];
  webhook = "http://h/hook";
  reference_id = "";
}

sent-HasKeysOnce : HasKeysOnce sent.output_files
unfolding lookup
sent-HasKeysOnce = (refl, (refl, tt))

decode_request-encode_worker_request_example :
    ((decode_request (some (encode_worker_request sent))).1 ≡ true)
    × IsReceived sent (decode_request (some (encode_worker_request sent))).0
decode_request-encode_worker_request_example =
    decode_request-encode_worker_request sent tt sent-HasKeysOnce

abbrev result : CommandResult whole
result = record {
  output_files = [];
  ffmpeg_command_run_seconds = 3;
  total_processing_seconds = 4;
  completed_at = 9;
  hardware_acceleration = "none";
}

delivery-webhook_payload_example :
    ((decode_payload (some (webhook_payload whole "http://h/hook" "7f3a" result no_request))).1
      ≡ true)
    × (delivery
          (λ j. j)
          (decode_payload (some (webhook_payload whole "http://h/hook" "7f3a" result no_request))).0
        ≡ record {
          method = "POST";
          url = "http://h/hook";
          headers = ("Content-Type", "application/json") ∷ [];
          body = Body.json (webhook_body whole "7f3a" result no_request);
        })
delivery-webhook_payload_example =
    delivery-webhook_payload whole (λ j. j) "http://h/hook" "7f3a" result no_request

-- numbers whose spelling is read back
abbrev counted : Values
counted = record whole { parse_float = parse_uint; parse_time = λ s. value? (parse_uint s) }

abbrev stored : OutputFileInfo counted
stored = record {
  file_id = "f";
  size_mbytes = 2;
  file_type = "video";
  file_format = "mp4";
  storage_url = "http://s/o.mp4";
  width = pos 640;
  height = pos 0;
}

abbrev finished : CommandResult counted
finished = record {
  output_files = ("o", stored) ∷ [];
  ffmpeg_command_run_seconds = 3;
  total_processing_seconds = 14;
  completed_at = 9;
  hardware_acceleration = "cuda";
}

finished-IsSendableResult : IsSendableResult counted finished
unfolding parse_uint format_nat lookup
finished-IsSendableResult = record {
  files = (record { size_mbytes = refl; width = omega arith; height = omega arith }, tt);
  keys = (refl, tt);
  ffmpeg_command_run_seconds = refl;
  total_processing_seconds = refl;
  completed_at = refl;
}

decode_result-encode_result_example :
    decode_result counted (some (encode_result counted finished))
    ≡ some (received_result counted finished)
decode_result-encode_result_example =
    decode_result-encode_result counted finished finished-IsSendableResult
