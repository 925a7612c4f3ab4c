-- ===== src/Adapters/File.antt =====
-- worker/adapters/file.go
pub mod Success
use burrowcode.Base.{String, ◌⧺◌, ◌==◌, if◌then◌else◌}
use burrowcode.Config.{Env, get_env}
use burrowcode.Golang.Filepath.{join, dir}
use burrowcode.Os.{Machine, mkdir_all, open_file, create_file, copy_file}
use burrowcode.Os.Act.{Act, perform, ask, pure, annotate, ◌>>◌}

pub record FileAdapter : Type 0 where
  pub output_dir : String
  pub storage_base_url : String

-- where the adapter keeps a file, and what it returns for it
unfoldable pub final_path : FileAdapter → String → String
unfolding join
final_path a dest_path = join a.output_dir dest_path

unfoldable pub stored_url : FileAdapter → String → String
unfolding final_path
stored_url a dest_path =
    if a.storage_base_url == ""
    then final_path a dest_path
    else a.storage_base_url ⧺ "/" ⧺ dest_path

module _ {m : Machine} where
  unfoldable pub new_file_adapter : Env → Act m FileAdapter
  new_file_adapter env = do
    let output_dir = get_env env "OUTPUT_DIR" "/tmp/ffmpeg-output"
    ask (mkdir_all output_dir)
    pure (record { output_dir = output_dir; storage_base_url = get_env env "STORAGE_BASE_URL" "" })

  unfoldable pub upload : FileAdapter → String → String → Act m String
  upload a local_path dest_path = do
    annotate "create directory: " (perform (mkdir_all (dir (final_path a dest_path))))
    annotate "open source: " (perform (open_file local_path))
    annotate "create dest: " (perform (create_file (final_path a dest_path)))
    annotate "copy: " (perform (copy_file local_path (final_path a dest_path)))
    pure (stored_url a dest_path)
