-- ===== src/System/Hardware.antt =====
-- worker/system/hardware.go: which hardware encoders there are.
pub mod Checks
pub mod Detection
use burrowcode.Base.{
  String, Bool, true, false, Option, none, some, List, [], ◌∷◌, ◌++◌, ◌==◌, if◌then◌else◌,
}
use burrowcode.Golang.Strings.{contains}
use burrowcode.Os.{Machine, Output, run_output}
use burrowcode.Os.Act.{Act, ask, pure, ◌>>=◌}

pub data HardwareAccelType : Type 0 where
  hw_none hw_nvenc hw_qsv hw_amf hw_vaapi hw_videotoolbox : HardwareAccelType

-- the constant's text
abbrev pub accel_name : HardwareAccelType → String
accel_name hw_none = "none"
accel_name hw_nvenc = "nvenc"
accel_name hw_qsv = "qsv"
accel_name hw_amf = "amf"
accel_name hw_vaapi = "vaapi"
accel_name hw_videotoolbox = "videotoolbox"

pub record HardwareCapabilities : Type 0 where
  pub accel_type : HardwareAccelType
  pub h264_encoder : String
  pub hevc_encoder : String
  pub device_args : List String

-- an output that came without an error and holds a text
abbrev pub shows : Output → String → Bool
shows out text = elim out.failure [ some e ↦ false | none ↦ contains out.text text ]

abbrev pub succeeded : Output → Bool
succeeded out = elim out.failure [ some e ↦ false | none ↦ true ]

module _ {m : Machine} where
  unfoldable pub check_ffmpeg_encoder : String → Act m Bool
  check_ffmpeg_encoder encoder = do
    out ← ask (run_output "ffmpeg" ("-hide_banner" ∷ "-encoders" ∷ []))
    pure (shows out encoder)

  unfoldable pub check_nvidia : Act m Bool
  unfolding check_ffmpeg_encoder
  check_nvidia = do
    out ← ask (run_output "nvidia-smi" ("-L" ∷ []))
    if shows out "GPU" then check_ffmpeg_encoder "h264_nvenc" else pure false

  unfoldable pub check_qsv : String → Act m Bool
  unfolding check_ffmpeg_encoder
  check_qsv goos =
      if goos == "linux"
      then (do
        out ← ask (run_output "ls" ("/dev/dri/" ∷ []))
        if shows out "renderD" then check_ffmpeg_encoder "h264_qsv" else pure false)
      else check_ffmpeg_encoder "h264_qsv"

  unfoldable pub check_amf : Act m Bool
  unfolding check_ffmpeg_encoder
  check_amf = check_ffmpeg_encoder "h264_amf"

  unfoldable pub check_vaapi : String → Act m Bool
  unfolding check_ffmpeg_encoder
  check_vaapi goos =
      if goos == "linux"
      then (do
        out ← ask (run_output "ls" ("/dev/dri/renderD128" ∷ []))
        if succeeded out then check_ffmpeg_encoder "h264_vaapi" else pure false)
      else pure false

  unfoldable pub check_video_toolbox : String → Act m Bool
  unfolding check_ffmpeg_encoder
  check_video_toolbox goos =
      if goos == "darwin" then check_ffmpeg_encoder "h264_videotoolbox" else pure false

-- the capabilities that `detectHardware` returns for each type
unfoldable pub capabilities : HardwareAccelType → HardwareCapabilities
capabilities hw_none = record {
  accel_type = hw_none;
  h264_encoder = "libx264";
  hevc_encoder = "libx265";
  device_args = [];
}
capabilities hw_nvenc = record {
  accel_type = hw_nvenc;
  h264_encoder = "h264_nvenc";
  hevc_encoder = "hevc_nvenc";
  device_args = [];
}
capabilities hw_qsv = record {
  accel_type = hw_qsv;
  h264_encoder = "h264_qsv";
  hevc_encoder = "hevc_qsv";
  device_args = [];
}
capabilities hw_amf = record {
  accel_type = hw_amf;
  h264_encoder = "h264_amf";
  hevc_encoder = "hevc_amf";
  device_args = [];
}
capabilities hw_vaapi = record {
  accel_type = hw_vaapi;
  h264_encoder = "h264_vaapi";
  hevc_encoder = "hevc_vaapi";
  device_args = "-vaapi_device" ∷ "/dev/dri/renderD128" ∷ [];
}
capabilities hw_videotoolbox = record {
  accel_type = hw_videotoolbox;
  h264_encoder = "h264_videotoolbox";
  hevc_encoder = "hevc_videotoolbox";
  device_args = [];
}

module _ {m : Machine} where
  -- `if check() { return … }`, and what comes next
  unfoldable pub first_found :
      Act m Bool → HardwareAccelType → Act m HardwareCapabilities → Act m HardwareCapabilities
  first_found check accel next = do found ← check; if found then pure (capabilities accel) else next

  unfoldable pub detect_hardware : String → Act m HardwareCapabilities
  unfolding first_found check_nvidia check_qsv check_amf check_vaapi check_video_toolbox
  detect_hardware goos =
      let fallback = pure (capabilities hw_none) in
      if goos == "darwin"
      then first_found (check_video_toolbox goos) hw_videotoolbox fallback
      else if goos == "linux"
      then first_found check_nvidia hw_nvenc (
          first_found (check_qsv goos) hw_qsv
            (first_found check_amf hw_amf (first_found (check_vaapi goos) hw_vaapi fallback)))
      else if goos == "windows"
      then first_found check_nvidia hw_nvenc
          (first_found (check_qsv goos) hw_qsv (first_found check_amf hw_amf fallback))
      else fallback

  -- `detectedHardware` with its `sync.Once`: `none` until the first detection
  unfoldable pub detect_hardware_acceleration :
      String
      → Option HardwareCapabilities
      → Act m (HardwareCapabilities × Option HardwareCapabilities)
  unfolding detect_hardware
  detect_hardware_acceleration goos (some hw) = pure (hw, some hw)
  detect_hardware_acceleration goos none = do hw ← detect_hardware goos; pure (hw, some hw)

unfoldable pub reset_hardware_detection : Option HardwareCapabilities → Option HardwareCapabilities
reset_hardware_detection cached = none

abbrev pub accel_flags : HardwareAccelType → List String
accel_flags hw_nvenc = "-hwaccel" ∷ "cuda" ∷ []
accel_flags hw_qsv = "-hwaccel" ∷ "qsv" ∷ []
accel_flags hw_vaapi = "-hwaccel" ∷ "vaapi" ∷ "-hwaccel_output_format" ∷ "vaapi" ∷ []
accel_flags hw_videotoolbox = "-hwaccel" ∷ "videotoolbox" ∷ []
accel_flags _ = []

-- The codec is not looked at.
unfoldable pub get_hardware_accel_args : HardwareCapabilities → String → List String
get_hardware_accel_args hw codec = elim hw.accel_type [
  | hw_none ↦ []
  | accel ↦ hw.device_args ++ accel_flags accel
]
