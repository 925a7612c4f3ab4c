-- ===== src/Adapters/S3.antt =====
-- worker/adapters/s3.go. The AWS client is not part of the repository: loading its configuration
-- and putting an object are calls of the machine.
use burrowcode.Base.{String, ◌⧺◌, ◌==◌, if◌then◌else◌}
use burrowcode.Config.{Env, get_env}
use burrowcode.Golang.Strings.{trim_suffix}
use burrowcode.Os.{Machine, Body, open_file, put_object, load_aws_config}
use burrowcode.Os.Act.{Act, perform, pure, fail, annotate, ◌>>◌}
use burrowcode.Adapters.Names.{get_content_type, under, under_prefix}

pub record S3Adapter : Type 0 where
  pub bucket : String
  pub path_prefix : String
  pub public_url : String
  pub region : String
  pub endpoint : String

unfoldable pub object_key : S3Adapter → String → String
unfolding under_prefix
object_key a dest_path = under_prefix a.path_prefix dest_path

unfoldable pub object_url : S3Adapter → String → String
unfolding object_key under
object_url a dest_path =
    let key = object_key a dest_path in
    if a.public_url == ""
    then (if a.endpoint == ""
        then "https://" ⧺ a.bucket ⧺ ".s3." ⧺ a.region ⧺ ".amazonaws.com/" ⧺ key
        else trim_suffix a.endpoint "/" ⧺ "/" ⧺ a.bucket ⧺ "/" ⧺ key)
    else under a.public_url key

module _ {m : Machine} where
  unfoldable pub load_client : Env → Act m S3Adapter
  load_client env = do
    let region = get_env env "S3_REGION" "us-east-1"
    annotate "load aws config: " (perform (load_aws_config region))
    pure (record {
      bucket = env "S3_BUCKET";
      path_prefix = env "S3_PATH_PREFIX";
      public_url = env "S3_PUBLIC_URL";
      region = region;
      endpoint = env "S3_ENDPOINT";
    })

  unfoldable pub new_s3_adapter : Env → Act m S3Adapter
  unfolding fail load_client
  new_s3_adapter env =
      if env "S3_BUCKET" == ""
      then fail "S3_BUCKET is required"
      else if env "S3_ACCESS_KEY" == ""
      then fail "S3_ACCESS_KEY is required"
      else if env "S3_SECRET_KEY" == ""
      then fail "S3_SECRET_KEY is required"
      else load_client env

  unfoldable pub upload : S3Adapter → String → String → Act m String
  upload a local_path dest_path = do
    annotate "open file: " (perform (open_file local_path))
    annotate "upload to s3: " (
        perform (
          put_object a.bucket (object_key a dest_path) (Body.file local_path)
            (get_content_type local_path)))
    pure (object_url a dest_path)
