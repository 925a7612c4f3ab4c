-- ===== src/Tests/Client.antt =====
-- The generated client, connected to the server of Tests/Http.
use burrowcode.Base.{String, ◌≡◌, refl, Option, none, some, All, ◌==◌, if◌then◌else◌}
use burrowcode.Golang.Int.{pos}
use burrowcode.Golang.Maps.{lookup}
use burrowcode.Json.{same_name, decode_text}
use burrowcode.Os.Act.{Act}
use burrowcode.Api.Types.{items_of, CommandStatus, success, decode_worker_request}
use burrowcode.Api.Codec.{IsInt64}
use burrowcode.Api.Result.{decode_result, decode_output_files}
use burrowcode.Api.Validate.{validate_status, check_statuses, no_failures}
use burrowcode.Api.Codec.Request.RoundTrip.{with_output_files}
use burrowcode.Api.Codec.Status.RoundTrip.{IsCodableStatus}
use burrowcode.Api.Codec.Replies.RoundTrip.{normal_list}
use burrowcode.Api.Handlers.{create_command}
use burrowcode.Api.Status.{get_command, list_commands, original_request, to_info, task_to_status}
use burrowcode.Api.Http.{Answer, serve}
use burrowcode.Api.Http.Agree.{normal_res, IsReadable}
use burrowcode.Api.Http.Send.{
  Sent, Remote, replied, send_create_command, send_get_command, send_list_commands,
}
use burrowcode.Api.Http.Remote.{
  IsConnected, concat_parts, body_text, local_reply, send_create_command-create_command,
}
use burrowcode.Api.Http.Remote.Reads.{
  send_get_command-get_command, send_list_commands-list_commands,
}
use burrowcode.Tests.Fixture.{whole, host, initial}
use burrowcode.Tests.Coders.{coders, coder_laws}
use burrowcode.Tests.Http.{wanted, wanted-IsCodable, settings, no_url, finished, service}

abbrev any_media : String → Option String
any_media t = if t == "" then none else some "application/json"

abbrev deliver : Sent → Act host Answer
deliver sent = serve service sent.method sent.url (record {
  media_type = any_media sent.content_type;
  content_length = pos 80;
  body = body_text sent.body;
})

abbrev remote : Remote host
remote = record {
  path_encoder = λ t. some t;
  add_path_parts = concat_parts;
  new_request = λ method url. none;
  media_type = any_media;
  do_request = deliver;
}

abbrev connected : IsConnected service remote
connected = record {
  path = λ url. url;
  size = λ body. 80;
  path-add_path_parts = λ parts. refl;
  created = λ method url. refl;
  sized = λ j. refl;
  json_request = refl;
  json_answer = refl;
  carried = λ sent st. refl;
}

send_create_command-create_command_example :
    send_create_command remote coders wanted initial
    ≡ local_reply (create_command settings (with_output_files wanted) initial)
send_create_command-create_command_example =
    send_create_command-create_command service coder_laws remote connected wanted initial
      wanted-IsCodable

abbrev report : CommandStatus whole
report = task_to_status whole no_url finished success

report-IsCodable : IsCodableStatus coders coder_laws report
unfolding task_to_status decode_result same_name decode_output_files decode_text lookup
    original_request decode_worker_request to_info
report-IsCodable = record {
  output_files = record {
    each = (record { size_mbytes = refl; width = tt; height = tt }, tt);
    keys = (refl, tt);
  };
  original_request = record { input_files = tt; output_files = tt; webhook = tt };
  ffmpeg_command_run_seconds = refl;
  total_processing_seconds = refl;
  created_at = tt;
  completed_at = tt;
}

report-IsReadable :
    IsReadable coders coder_laws (get_command whole no_url service.get_task_info "7f3a")
unfolding get_command validate_status decode_result same_name decode_output_files decode_text
    to_info
report-IsReadable = (report-IsCodable, refl)

send_get_command-get_command_example :
    send_get_command remote coders "7f3a" initial
    ≡ (replied (normal_res (get_command whole no_url service.get_task_info "7f3a")), initial)
send_get_command-get_command_example =
    send_get_command-get_command service coder_laws remote connected "7f3a" "7f3a" initial refl refl
      refl report-IsReadable

listed_valid :
    check_statuses coders 0 (items_of (list_commands whole no_url service.listing).commands)
    ≡ no_failures
unfolding list_commands check_statuses decode_result same_name decode_output_files decode_text
    to_info
listed_valid = refl

listed-AreCodable :
    All
      (IsCodableStatus coders coder_laws)
      (items_of (list_commands whole no_url service.listing).commands)
unfolding list_commands
listed-AreCodable = (report-IsCodable, tt)

listed_total : IsInt64 (list_commands whole no_url service.listing).total
unfolding list_commands
listed_total = refl

send_list_commands-list_commands_example : send_list_commands remote coders initial ≡ (
  replied (normal_list coders coder_laws (list_commands whole no_url service.listing)),
  initial,
)
send_list_commands-list_commands_example =
    send_list_commands-list_commands service coder_laws remote connected initial listed-AreCodable
      listed_total listed_valid
