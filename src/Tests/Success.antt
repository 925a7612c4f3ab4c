-- ===== src/Tests/Success.antt =====
-- A command on a machine on which nothing fails.
use burrowcode.Base.{String, ◌≡◌, refl, true, some}
use burrowcode.Golang.Errors.{ok}
use burrowcode.Os.{
  Call, mkdir_all, open_file, create_file, stat_file, copy_file, save_body, run_combined, run_piped,
  new_request, send, context_error,
}
use burrowcode.Os.Act.{State}
use burrowcode.Os.Gives.{Any, Gives}
use burrowcode.Os.Helpful.{Went, IsHelpful}
use burrowcode.Adapters.{upload}
use burrowcode.Adapters.File.Success.{upload-Gives}
use burrowcode.Api.Codec.Request.RoundTrip.{with_output_files}
use burrowcode.Worker.Request.{decode_request}
use burrowcode.Worker.Handle.{check_limits, handle_ffmpeg_command}
use burrowcode.Worker.Handle.Reported.{
  IsReported, handle_ffmpeg_command-IsReported, handle_ffmpeg_command-ends,
}
use burrowcode.Pipeline.Fine.{IsFine}
use burrowcode.Pipeline.Answered.{IsAnswered, posted-IsAnswered}
use burrowcode.Tests.Fixture.{whole, host, initial, defaults, store, linux, payload}
use burrowcode.Tests.Http.{wanted, posted, posted_request}
use burrowcode.Tests.Worker.{worker}
use burrowcode.Tests.Pipeline.{deployment}

went : (c : Call) (w : host.World) → Went c (host.answer c w).0
went (mkdir_all path) w = tt
went (open_file path) w = tt
went (create_file path) w = tt
went (stat_file path) w = tt
went (copy_file source dest) w = tt
went (save_body path) w = tt
went (run_combined name args) w = refl
went (run_piped name args) w = refl
went (new_request method url) w = tt
went (send request) w = refl
went context_error w = refl
went _ w = tt

host_helpful : IsHelpful host
host_helpful = record { goes = went }

stores : (source dest : String) → Gives {m = host} Any (upload store source dest)
unfolding upload
stores source dest =
    upload-Gives host_helpful (record { output_dir = "/out"; storage_base_url = "" }) source dest

fits : (s : State host) → (check_limits whole defaults linux s).0 ≡ ok tt
unfolding worker
fits s = refl

payload_read : (decode_request (some payload)).1 ≡ true
unfolding worker
payload_read = refl

handle_ffmpeg_command-ends_example :
    (handle_ffmpeg_command {m = host} whole defaults store linux "none" "7f3a"
      (some payload)
      initial).0
    ≡ ok tt
handle_ffmpeg_command-ends_example =
    handle_ffmpeg_command-ends whole defaults store linux "none" "7f3a" (some payload) initial
      host_helpful stores (fits initial) payload_read

handle_ffmpeg_command-IsReported_example :
    IsReported whole defaults "7f3a"
      (decode_request (some payload)).0
      initial
      (handle_ffmpeg_command {m = host} whole defaults store linux "none" "7f3a"
        (some payload)
        initial).1
handle_ffmpeg_command-IsReported_example =
    handle_ffmpeg_command-IsReported whole defaults store linux "none" "7f3a" (some payload) initial
      (handle_ffmpeg_command-ends whole defaults store linux "none" "7f3a" (some payload) initial
        host_helpful stores (fits initial) payload_read)

nothing_fails : IsFine deployment host
nothing_fails = record { helpful = host_helpful; stores = stores; fits = fits }

posted-IsAnswered_example : IsAnswered deployment posted (with_output_files wanted) "7f3a" initial
posted-IsAnswered_example =
    posted-IsAnswered deployment nothing_fails posted (with_output_files wanted) initial "7f3a"
      posted_request refl refl
