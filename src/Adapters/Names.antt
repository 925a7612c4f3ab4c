-- ===== src/Adapters/Names.antt =====
-- What the storage adapters share: `getContentType` of worker/adapters/bunny_storage.go, and the
-- rules by which paths are put behind a prefix.
use burrowcode.Base.{String, ◌⧺◌, [], ◌∷◌, ◌==◌, if◌then◌else◌, one_of}
use burrowcode.Golang.Strings.{to_lower, trim_suffix}
use burrowcode.Golang.Filepath.{ext}

unfoldable pub get_content_type : String → String
unfolding to_lower ext
get_content_type path =
    let e = to_lower (ext path) in
    if one_of e (".jpg" ∷ ".jpeg" ∷ [])
    then "image/jpeg"
    else if e == ".png"
    then "image/png"
    else if e == ".gif"
    then "image/gif"
    else if e == ".webp"
    then "image/webp"
    else if e == ".mp4"
    then "video/mp4"
    else if e == ".mov"
    then "video/quicktime"
    else if e == ".avi"
    then "video/x-msvideo"
    else if e == ".mkv"
    then "video/x-matroska"
    else if e == ".webm"
    then "video/webm"
    else if e == ".mp3"
    then "audio/mpeg"
    else if e == ".wav"
    then "audio/wav"
    else if e == ".aac"
    then "audio/aac"
    else if e == ".flac"
    then "audio/flac"
    else if e == ".ogg"
    then "audio/ogg"
    else "application/octet-stream"

-- a path behind a prefix that may end in a slash
unfoldable pub under : String → String → String
unfolding trim_suffix
under base path = trim_suffix base "/" ⧺ "/" ⧺ path

-- the same where an empty prefix stands for none
unfoldable pub under_prefix : String → String → String
unfolding under
under_prefix base path = if base == "" then path else under base path
