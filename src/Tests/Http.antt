-- ===== src/Tests/Http.antt =====
-- Requests to the API and its answers, with the coders of Tests/Coders.
use burrowcode.Base.{String, ◌≡◌, ◌⊎◌, inr, refl, ap, true, Option, none, some, [], ◌∷◌}
use burrowcode.Golang.Int.{pos}
use burrowcode.Golang.Errors.{ok}
use burrowcode.Golang.Maps.{Map, lookup}
use burrowcode.Json.{object, field, no_fields, string, same_name, decode_text}
use burrowcode.Os.Act.{perform}
use burrowcode.Api.Types.{CommandRequest, OutputFileInfo, CommandStatus, success, pending}
use burrowcode.Api.Codec.{decoded}
use burrowcode.Api.Codec.Request.{decode_request, encode_request}
use burrowcode.Api.Codec.Request.RoundTrip.{
  IsCodable, with_output_files, decode_request-encode_request,
}
use burrowcode.Api.Codec.Status.{decode_status, encode_status}
use burrowcode.Api.Codec.Status.InfoRoundTrip.{IsCodableInfo}
use burrowcode.Api.Codec.Status.RoundTrip.{
  AreCodable, IsCodableStatus, normal_status, decode_status-encode_status,
}
use burrowcode.Api.Codec.Replies.{encode_response}
use burrowcode.Api.Validate.{
  validate_status_text, validate_file_type, validate_status, validate_list,
}
use burrowcode.Worker.FileType.{get_file_type}
use burrowcode.Api.Validate.Reports.{
  IsSoundResult, get_file_type-validate_file_type, task_to_status-validate_status,
}
use burrowcode.Api.Validate.Lists.{list_commands-validate_list}
use burrowcode.Api.Handlers.{Settings}
use burrowcode.Api.Codec.Walk.{IfSet}
use burrowcode.Api.Result.{decode_result, decode_output_files}
use burrowcode.Api.Router.{Operation, serve_http, handled}
use burrowcode.Api.Status.{TaskInfo, completed, task_to_status, result_of, list_commands}
use burrowcode.Api.Http.{
  Incoming, request_of, spells, Service, json_answer, decode_create_command_request, serve,
}
use burrowcode.Api.Http.Effects.{IsEnqueued, serve-calls, serve-created}
use burrowcode.Tests.Fixture.{whole, host, initial}
use burrowcode.Tests.Coders.{coders, coder_laws}

abbrev pub wanted : CommandRequest
wanted = record {
  input_files = some (("a", "http://h/a.mov") ∷ []);
  output_files = some (("o", "o.mp4") ∷ ("p", "p.png") ∷ []);
  ffmpeg_command = some "-i {{a}} {{o}}";
  ffmpeg_commands = none;
  webhook = some "http://h/hook";
  reference_id = none;
}

pub wanted-IsCodable : IsCodable coders coder_laws wanted
unfolding lookup
wanted-IsCodable = record {
  input_files = (refl, tt);
  output_files = (refl, (refl, tt));
  webhook = tt;
}

decode_request-encode_request_example :
    decode_request coders (encode_request coders wanted) ≡ decoded (with_output_files wanted)
decode_request-encode_request_example =
    decode_request-encode_request coders coder_laws wanted wanted-IsCodable

abbrev film : OutputFileInfo whole
film = record {
  file_id = "f";
  size_mbytes = 2;
  file_type = "video";
  file_format = "mp4";
  storage_url = "http://s/o.mp4";
  width = some (pos 6);
  height = some (pos 4);
}

film-IsCodable : IsCodableInfo coders film
film-IsCodable = record { size_mbytes = refl; width = refl; height = refl }

abbrev films : Map (OutputFileInfo whole)
films = ("o", film) ∷ []

films-AreCodable : AreCodable coders films
unfolding lookup
films-AreCodable = record { each = (film-IsCodable, tt); keys = (refl, tt) }

abbrev done : CommandStatus whole
done = record {
  command_id = "7f3a";
  status = success;
  output_files = some films;
  original_request = some wanted;
  ffmpeg_command_run_seconds = some 3;
  total_processing_seconds = some 5;
  error = none;
  created_at = 4;
  completed_at = some 9;
}

done-IsCodable : IsCodableStatus coders coder_laws done
done-IsCodable = record {
  output_files = films-AreCodable;
  original_request = wanted-IsCodable;
  ffmpeg_command_run_seconds = refl;
  total_processing_seconds = refl;
  created_at = tt;
  completed_at = tt;
}

decode_status-encode_status_example :
    decode_status coders (encode_status coders done) ≡ decoded (normal_status done)
decode_status-encode_status_example =
    decode_status-encode_status coders coder_laws done done-IsCodable

get_file_type-validate_file_type_example : validate_file_type (get_file_type "MP4") ≡ none
get_file_type-validate_file_type_example = get_file_type-validate_file_type "MP4"

abbrev pub no_url : String → Option String
no_url text = none

abbrev pub settings : Settings
settings = record { task_max_retry = pos 2; task_timeout_min = pos 30; task_retention_h = pos 24 }

abbrev pub finished : TaskInfo
finished = record {
  id = "7f3a";
  payload = none;
  state = completed;
  last_err = "";
  next_process_at = 8;
  has_result = true;
  result = some (
      object (
        field "output_files"
          (object (field "o" (object (field "file_type" (string "video") no_fields)) no_fields))
          no_fields));
}

finished_sound : IfSet (IsSoundResult coders) (result_of whole no_url finished)
unfolding decode_result same_name decode_output_files decode_text validate_file_type
finished_sound = record {
  output_files = (record { size_mbytes = refl; file_type = refl }, tt);
  ffmpeg_command_run_seconds = refl;
  total_processing_seconds = refl;
}

task_to_status-validate_status_example :
    validate_status coders (task_to_status whole no_url finished success) ≡ none
unfolding validate_status_text
task_to_status-validate_status_example =
    task_to_status-validate_status coders no_url finished success refl finished_sound

abbrev pub service : Service whole
service = record {
  jx = coders;
  settings = settings;
  parse_url = no_url;
  get_task_info = λ id. ok finished;
  listing = record { active = []; pending = []; completed = finished ∷ []; archived = [] };
  path_value = λ t. some t;
  error_handler = λ e. record { status = 400; headers = []; body = none };
  path_not_found = record { status = 404; headers = []; body = none };
}

abbrev pub posted : Incoming
posted = record {
  media_type = some "application/json";
  content_length = pos 80;
  body = spells (encode_request coders wanted);
}

pub posted_request : decode_create_command_request coders posted ≡ inr (with_output_files wanted)
unfolding decode_create_command_request
posted_request = ap request_of decode_request-encode_request_example

serve-calls_example :
    ((serve {m = host} service "POST" "/v1/commands" posted initial).1.calls ≡ initial.calls)
    ⊎ ((serve_http "POST" "/v1/commands" ≡ handled Operation.create_command)
        × IsEnqueued service posted initial
            (serve {m = host} service "POST" "/v1/commands" posted initial).1)
serve-calls_example = serve-calls service posted "POST" "/v1/commands" initial

serve-created_example :
    (serve {m = host} service "POST" "/v1/commands" posted initial).0
    ≡ ok (
        json_answer 202
          (encode_response (record { command_id = "7f3a"; status = pending; reference_id = none })))
unfolding perform
serve-created_example =
    serve-created service posted (with_output_files wanted) initial "7f3a" posted_request refl refl

list_commands-validate_list_example :
    validate_list coders (list_commands whole no_url service.listing) ≡ none
list_commands-validate_list_example =
    list_commands-validate_list coders no_url service.listing tt tt (finished_sound, tt) tt
