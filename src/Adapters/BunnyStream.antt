-- ===== src/Adapters/BunnyStream.antt =====
-- worker/adapters/bunny_stream.go
use burrowcode.Base.{
  String, ◌⧺◌, Option, none, some, [], ◌∷◌, ◌==◌, nat_eq, ◌||◌, if◌then◌else◌, Bool, true, false,
}
use burrowcode.Config.{Env}
use burrowcode.Golang.Errors.{Result, ok, err}
use burrowcode.Golang.Numbers.{format_nat}
use burrowcode.Json.{Json, Fields, object, field, no_fields, null, string, same_name, decode_text}
use burrowcode.Os.{Machine, Body, Request, open_file, new_request, send}
use burrowcode.Os.Act.{Act, perform, lift, pure, fail, annotate, ◌>>=◌, ◌>>◌}

pub record BunnyStreamAdapter : Type 0 where
  pub library_id : String
  pub api_key : String

unfoldable pub create_url : BunnyStreamAdapter → String
create_url a = "https://video.bunnycdn.com/library/" ⧺ a.library_id ⧺ "/videos"

unfoldable pub upload_url : BunnyStreamAdapter → String → String
upload_url a guid = "https://video.bunnycdn.com/library/" ⧺ a.library_id ⧺ "/videos/" ⧺ guid

unfoldable pub create_request : BunnyStreamAdapter → String → Request
unfolding create_url
create_request a dest_path = record {
  method = "POST";
  url = create_url a;
  headers = ("AccessKey", a.api_key) ∷ ("Content-Type", "application/json") ∷ [];
  body = Body.json (object (field "title" (string dest_path) no_fields));
}

unfoldable pub upload_request : BunnyStreamAdapter → String → String → Request
unfolding upload_url
upload_request a guid local_path = record {
  method = "PUT";
  url = upload_url a guid;
  headers = ("AccessKey", a.api_key) ∷ ("Content-Type", "application/octet-stream") ∷ [];
  body = Body.file local_path;
}

-- the struct with the one field `guid`
decode_guid_fields : Fields → String → Bool → String × Bool
decode_guid_fields no_fields guid fine = (guid, fine)
decode_guid_fields (field k v rest) guid fine =
    let (t, fits) = if same_name k "guid" then decode_text v guid else (guid, true) in
    decode_guid_fields rest t (if fits then fine else false)

abbrev decode_error : String
decode_error = "json: cannot unmarshal"

abbrev guid_result : String × Bool → Result String
guid_result (guid, true) = ok guid
guid_result (guid, false) = err decode_error

unfoldable pub decode_guid : Option Json → Result String
unfolding decode_guid_fields
decode_guid none = err decode_error
decode_guid (some (object fs)) = guid_result (decode_guid_fields fs "" true)
decode_guid (some null) = ok ""
decode_guid (some _) = err decode_error

module _ {m : Machine} where
  unfoldable pub new_bunny_stream_adapter : Env → Act m BunnyStreamAdapter
  unfolding fail pure
  new_bunny_stream_adapter env =
      if env "BUNNY_STREAM_LIBRARY_ID" == ""
      then fail "BUNNY_STREAM_LIBRARY_ID is required"
      else if env "BUNNY_STREAM_API_KEY" == ""
      then fail "BUNNY_STREAM_API_KEY is required"
      else pure (record {
        library_id = env "BUNNY_STREAM_LIBRARY_ID";
        api_key = env "BUNNY_STREAM_API_KEY";
      })

  unfoldable pub take_guid : Option Json → Act m String
  take_guid value = do
    guid ← annotate "decode response: " (lift (decode_guid value))
    if guid == "" then fail "no guid returned from video creation" else pure guid

  -- step 1: the video's entry, and its identifier
  unfoldable pub create_video : BunnyStreamAdapter → String → Act m String
  create_video a dest_path = do
    annotate "create request: " (perform (new_request "POST" (create_url a)))
    resp ← annotate "create video: " (perform (send (create_request a dest_path)))
    if nat_eq resp.status 200 || nat_eq resp.status 201
        then take_guid resp.value
        else fail ("create video failed (status " ⧺ format_nat resp.status ⧺ "): " ⧺ resp.text)

  -- step 2: the file
  unfoldable pub upload_video : BunnyStreamAdapter → String → String → Act m String
  upload_video a local_path guid = do
    annotate "open file: " (perform (open_file local_path))
    annotate "create upload request: " (perform (new_request "PUT" (upload_url a guid)))
    resp ← annotate "upload: " (perform (send (upload_request a guid local_path)))
    if nat_eq resp.status 200
        then pure guid
        else fail ("upload failed (status " ⧺ format_nat resp.status ⧺ "): " ⧺ resp.text)

  unfoldable pub upload : BunnyStreamAdapter → String → String → Act m String
  upload a local_path dest_path = do guid ← create_video a dest_path; upload_video a local_path guid
