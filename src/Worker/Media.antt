-- ===== src/Worker/Media.antt =====
-- `getMediaDimensions` and `downloadFile` of worker/main.go.
use burrowcode.Base.{
  String, ◌⧺◌, ◌||◌, none, some, List, [], ◌∷◌, ◌==◌, ltb, nat_eq, len, if◌then◌else◌,
}
use burrowcode.Golang.Filepath.{ext}
use burrowcode.Golang.Int.{ℤ, pos}
use burrowcode.Golang.Numbers.{parse_int, value_or_bound, format_nat}
use burrowcode.Golang.Strings.{split, trim_space}
use burrowcode.Os.{
  Machine, Output, run_output, new_request, send, create_file, save_body, Request, Body,
}
use burrowcode.Os.Act.{Act, perform, pure, fail, ask, ◌>>=◌, ◌>>◌}

abbrev two_sides : List String → ℤ × ℤ
two_sides (w ∷ h ∷ []) = (value_or_bound (parse_int w), value_or_bound (parse_int h))
two_sides _ = (pos 0, pos 0)

unfoldable pub dimensions_of : Output → ℤ × ℤ
dimensions_of out = elim out.failure [
  | some e ↦ (pos 0, pos 0)
  | none ↦ two_sides (split (trim_space out.text) b'x')
]

-- the suffix of the local copy of an input
unfoldable pub input_ext : String → String
input_ext url = let e = ext url in if e == "" || ltb 5 (len e) then ".mp4" else e

abbrev pub get_request : String → Request
get_request url = record { method = "GET"; url = url; headers = []; body = Body.empty }

module _ {m : Machine} where
  unfoldable pub get_media_dimensions : String → Act m (ℤ × ℤ)
  get_media_dimensions path = do
    out ← ask (
        run_output "ffprobe" (
          "-v" ∷ "error" ∷ "-select_streams" ∷ "v:0" ∷ "-show_entries" ∷ "stream=width,height"
          ∷ "-of" ∷ "csv=p=0:s=x" ∷ path ∷ []))
    pure (dimensions_of out)

  unfoldable pub download_file : String → String → Act m Unit
  download_file url dest_path = do
    perform (new_request "GET" url)
    resp ← perform (send (get_request url))
    if nat_eq resp.status 200
        then (perform (create_file dest_path) >> perform (save_body dest_path))
        else fail ("status " ⧺ format_nat resp.status)
