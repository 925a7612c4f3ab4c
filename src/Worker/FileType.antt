-- ===== src/Worker/FileType.antt =====
-- `getFileType` of worker/main.go.
use burrowcode.Base.{String, [], ◌∷◌, if◌then◌else◌, one_of}
use burrowcode.Golang.Strings.{to_lower}

unfoldable pub get_file_type : String → String
unfolding to_lower
get_file_type extension =
    let ext = to_lower extension in
    if one_of ext ("jpg" ∷ "jpeg" ∷ "png" ∷ "gif" ∷ "webp" ∷ "bmp" ∷ "tiff" ∷ [])
    then "image"
    else if one_of ext ("mp4" ∷ "mov" ∷ "avi" ∷ "mkv" ∷ "webm" ∷ "flv" ∷ "wmv" ∷ [])
    then "video"
    else if one_of ext ("mp3" ∷ "wav" ∷ "aac" ∷ "flac" ∷ "ogg" ∷ "m4a" ∷ [])
    then "audio"
    else if one_of ext ("srt" ∷ "vtt" ∷ "ass" ∷ "ssa" ∷ [])
    then "subtitle"
    else "file"
