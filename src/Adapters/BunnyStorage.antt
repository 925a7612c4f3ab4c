-- ===== src/Adapters/BunnyStorage.antt =====
-- worker/adapters/bunny_storage.go
use burrowcode.Base.{String, ◌⧺◌, [], ◌∷◌, ◌==◌, nat_eq, ◌||◌, if◌then◌else◌}
use burrowcode.Config.{Env, get_env}
use burrowcode.Golang.Numbers.{format_nat}
use burrowcode.Os.{Machine, Body, Request, open_file, stat_file, new_request, send}
use burrowcode.Os.Act.{Act, perform, pure, fail, annotate, ◌>>=◌, ◌>>◌}
use burrowcode.Adapters.Names.{get_content_type, under, under_prefix}

pub record BunnyStorageAdapter : Type 0 where
  pub storage_zone : String
  pub storage_key : String
  pub storage_endpoint : String
  pub path_prefix : String
  pub pull_zone_url : String

unfoldable pub storage_path : BunnyStorageAdapter → String → String
unfolding under_prefix
storage_path a dest_path = under_prefix a.path_prefix dest_path

unfoldable pub put_url : BunnyStorageAdapter → String → String
unfolding storage_path
put_url a dest_path =
    "https://" ⧺ a.storage_endpoint ⧺ "/" ⧺ a.storage_zone ⧺ "/" ⧺ storage_path a dest_path

-- the pull zone's URL if there is one, else the storage path
unfoldable pub stored_url : BunnyStorageAdapter → String → String
unfolding storage_path under
stored_url a dest_path =
    if a.pull_zone_url == ""
    then storage_path a dest_path
    else under a.pull_zone_url (storage_path a dest_path)

-- The content length is the file's size, which the body's file has too.
unfoldable pub put_request : BunnyStorageAdapter → String → String → Request
unfolding put_url get_content_type
put_request a local_path dest_path = record {
  method = "PUT";
  url = put_url a dest_path;
  headers = ("AccessKey", a.storage_key) ∷ ("Content-Type", get_content_type local_path) ∷ [];
  body = Body.file local_path;
}

module _ {m : Machine} where
  unfoldable pub new_bunny_storage_adapter : Env → Act m BunnyStorageAdapter
  unfolding fail pure get_env
  new_bunny_storage_adapter env =
      if env "BUNNY_STORAGE_ZONE" == ""
      then fail "BUNNY_STORAGE_ZONE is required"
      else if env "BUNNY_STORAGE_KEY" == ""
      then fail "BUNNY_STORAGE_KEY is required"
      else pure (record {
        storage_zone = env "BUNNY_STORAGE_ZONE";
        storage_key = env "BUNNY_STORAGE_KEY";
        storage_endpoint = get_env env "BUNNY_STORAGE_ENDPOINT" "storage.bunnycdn.com";
        path_prefix = get_env env "BUNNY_STORAGE_PATH_PREFIX" "";
        pull_zone_url = get_env env "BUNNY_STORAGE_PULL_ZONE_URL" "";
      })

  unfoldable pub upload : BunnyStorageAdapter → String → String → Act m String
  upload a local_path dest_path = do
    annotate "open file: " (perform (open_file local_path))
    annotate "stat file: " (perform (stat_file local_path))
    annotate "create request: " (perform (new_request "PUT" (put_url a dest_path)))
    resp ← annotate "upload failed: " (perform (send (put_request a local_path dest_path)))
    if nat_eq resp.status 201 || nat_eq resp.status 200
        then pure (stored_url a dest_path)
        else fail ("upload failed (status " ⧺ format_nat resp.status ⧺ "): " ⧺ resp.text)
