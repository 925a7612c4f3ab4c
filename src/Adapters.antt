-- ===== src/Adapters.antt =====
-- worker/adapters: where the worker stores output files.
pub mod File
pub mod BunnyStorage
pub mod BunnyStream
pub mod S3
pub mod Names
use burrowcode.Base.{String, List, [], ◌∷◌, ◌⧺◌, ◌==◌, if◌then◌else◌}
use burrowcode.Golang.Errors.{Result, ok, err}
use burrowcode.Config.{Env, get_env}
use burrowcode.Os.{Machine}
use burrowcode.Os.Act.{Act, State, pure, fail, ◌>>=◌, ◌>>◌}
use File.{FileAdapter, new_file_adapter}
use BunnyStorage.{BunnyStorageAdapter, new_bunny_storage_adapter}
use BunnyStream.{BunnyStreamAdapter, new_bunny_stream_adapter}
use S3.{S3Adapter, new_s3_adapter}

-- A value of the interface `OutputAdapter`.
pub data OutputAdapter : Type 0 where
  file : FileAdapter → OutputAdapter
  bunny_storage : BunnyStorageAdapter → OutputAdapter
  bunny_stream : BunnyStreamAdapter → OutputAdapter
  s3 : S3Adapter → OutputAdapter

unfoldable pub name : OutputAdapter → String
name (file a) = "file"
name (bunny_storage a) = "bunny-storage"
name (bunny_stream a) = "bunny-stream"
name (s3 a) = "s3"

module _ {m : Machine} where
  unfoldable pub upload : OutputAdapter → String → String → Act m String
  upload (file a) = File.upload a
  upload (bunny_storage a) = BunnyStorage.upload a
  upload (bunny_stream a) = BunnyStream.upload a
  upload (s3 a) = S3.upload a

  unfoldable pub new_adapter : Env → Act m OutputAdapter
  new_adapter env =
      let adapter_type = get_env env "STORAGE_ADAPTER" "file" in
      if adapter_type == "file"
      then (do a ← new_file_adapter env; pure (file a))
      else if adapter_type == "bunny-storage"
      then (do a ← new_bunny_storage_adapter env; pure (bunny_storage a))
      else if adapter_type == "bunny-stream"
      then (do a ← new_bunny_stream_adapter env; pure (bunny_stream a))
      else if adapter_type == "s3"
      then (do a ← new_s3_adapter env; pure (s3 a))
      else fail ("unknown storage adapter: " ⧺ adapter_type)
