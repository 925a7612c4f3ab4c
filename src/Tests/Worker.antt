-- ===== src/Tests/Worker.antt =====
-- The worker and the webhook service.
use burrowcode.Base.{String, ◌≡◌, refl, false, ◌⊎◌, some, List, [], ◌∷◌, ◌++◌, All}
use native.Mathlib.Omega.{arith}
use text.Mathlib.TextLemmas.{cons≢nil}
use burrowcode.Golang.Errors.{ok, err}
use burrowcode.Json.{Json, object, field, no_fields, string, same_name, decode_text, decode_map}
use burrowcode.Golang.Maps.{insert, get_text}
use burrowcode.Os.{Call, remove_all}
use burrowcode.Os.Act.{perform, ask, pure, fail, lift, annotate, attempt, deferred, ◌>>=◌}
use burrowcode.Os.Outcome.{IsQuiet}
use burrowcode.Config.{load, get_resource_limits}
use burrowcode.Adapters.{upload}
use burrowcode.Worker.Job.{
  produce, stop_if, check_context, download_inputs, seconds, or_else, find_duration, run_followed,
  execute, report, check_output, run_commands, store_output, store_outputs, commands_of,
  command_args, output_paths,
}
use burrowcode.Worker.Media.{get_media_dimensions, download_file, dimensions_of, input_ext}
use burrowcode.Worker.FileType.{get_file_type}
use burrowcode.System.Progress.{run_ffmpeg, get_media_duration}
use burrowcode.System.Resources.{get_system_memory, check_resources_available, status_of}
use burrowcode.Worker.Request.{decode_request, webhook_payload, encode_result}
use burrowcode.Worker.Handle.{
  is_failure, webhook_task, job_dir_of, notify, publish, enqueue_webhook, within_limits,
  check_limits, unmarshal_request, run_job, in_job_dir, handle_ffmpeg_command,
}
use burrowcode.Golang.Numbers.{format_nat}
use burrowcode.Golang.Filepath.{ext, join, dir}
use burrowcode.Golang.Strings.{fields, trim_prefix}
use burrowcode.Worker.Args.RoundTrip.{quote_all, parse_command_args-quote_all}
use burrowcode.Worker.Handle.Outcomes.{handle_ffmpeg_command-IsQuiet, IsLook}
use burrowcode.Worker.Handle.Published.{handle_ffmpeg_command_cleanup}
use burrowcode.Worker.Handle.Quiet.{IsSilent}
use burrowcode.Os.Emits.{Added}
use burrowcode.Worker.Args.{parse_command_args}
use burrowcode.Worker.Args.NonEmpty.{IsArgument, parse_command_args-IsArgument}
use burrowcode.Webhooks.{
  decode_payload, handle_webhook_deliver, unmarshal_payload, deliver, check_status, delivery,
}
use burrowcode.Webhooks.Delivery.{IsDelivered, handle_webhook_deliver-IsDelivered}
use burrowcode.Worker.Handle.Limits.{check_limits-is_failure}
use burrowcode.Tests.Fixture.{full, whole, host, initial, defaults, store, linux, payload}
use burrowcode.Adapters.File

unfoldable pub worker : Unit {0}
unfolding handle_ffmpeg_command in_job_dir run_job unmarshal_request check_limits within_limits
    enqueue_webhook publish notify job_dir_of webhook_task produce stop_if check_context
    download_inputs seconds or_else find_duration run_followed execute report check_output
    run_commands store_output store_outputs commands_of command_args output_paths
    get_media_dimensions download_file dimensions_of input_ext get_file_type run_ffmpeg
    get_media_duration check_resources_available decode_request webhook_payload encode_result load
    get_resource_limits upload perform ask pure fail lift annotate attempt deferred ◌>>=◌ ext join
    dir trim_prefix File.upload get_system_memory status_of fields same_name decode_text decode_map
    insert get_text
worker = tt

-- A job with an input, an output and a webhook runs to its end.
ends :
    (handle_ffmpeg_command whole defaults store linux "none" "7f3a" (some payload) initial).0
    ≡ ok tt
unfolding worker
ends = refl

-- a payload that is no object
abbrev unreadable : Json
unreadable = string "-i a.mov"

unreadable_refused : (decode_request (some unreadable)).1 ≡ false
unfolding worker
unreadable_refused = refl

handle_ffmpeg_command-IsQuiet_example :
    IsQuiet IsSilent
      (handle_ffmpeg_command {m = host} whole defaults store linux "none" "7f3a" (some unreadable))
handle_ffmpeg_command-IsQuiet_example =
    handle_ffmpeg_command-IsQuiet whole defaults store linux "none" "7f3a" (some unreadable)

handle_ffmpeg_command_cleanup_example :
    Added IsLook initial
      (handle_ffmpeg_command whole defaults store linux "none" "7f3a" (some payload) initial).1
    ⊎ ((before : List Call) × ((handle_ffmpeg_command whole defaults store linux "none" "7f3a"
            (some payload)
            initial).1.calls
          ≡ before ++ remove_all (job_dir_of whole defaults "7f3a") ∷ []))
handle_ffmpeg_command_cleanup_example =
    handle_ffmpeg_command_cleanup whole defaults store linux "none" "7f3a" (some payload) initial

abbrev spaced : List String
spaced = "-i" ∷ "a b" ∷ []

parse_command_args-quote_all_example : parse_command_args (quote_all spaced) ≡ spaced
parse_command_args-quote_all_example = parse_command_args-quote_all spaced (
  (cons≢nil, (omega arith, (omega arith, tt))),
  ((cons≢nil, (omega arith, (omega arith, (omega arith, tt)))), tt),
)

parse_command_args-IsArgument_example : All IsArgument (parse_command_args "-i '' a")
parse_command_args-IsArgument_example = parse_command_args-IsArgument "-i '' a"

abbrev hook : Json
hook = object (
    field "url" (string "http://h/hook")
      (field "body" (object (field "status" (string "SUCCESS") no_fields)) no_fields))

-- A delivery that the receiver answers with status 200.
delivered : (handle_webhook_deliver {m = host} (λ j. j) (some hook) initial).0 ≡ ok tt
unfolding worker handle_webhook_deliver unmarshal_payload deliver check_status delivery
    decode_payload
delivered = refl

handle_webhook_deliver-IsDelivered_example :
    IsDelivered
      (λ j. j)
      (some hook)
      initial
      (handle_webhook_deliver {m = host} (λ j. j) (some hook) initial).1
handle_webhook_deliver-IsDelivered_example =
    handle_webhook_deliver-IsDelivered (λ j. j) (some hook) initial delivered

abbrev short : String
short = "resource limit: memory usage too high: 100%"

put_off : (check_limits whole defaults linux full).0 ≡ err short
unfolding worker format_nat
put_off = refl

check_limits-is_failure_example : is_failure short ≡ false
check_limits-is_failure_example = check_limits-is_failure whole defaults linux full short put_off
