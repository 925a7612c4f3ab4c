-- ===== src/Tests/System.antt =====
-- The worker's look at its host, and the progress of ffmpeg.
use burrowcode.Base.{String, ◌≡◌, refl, true, Option, none, some, List, [], ◌∷◌, All}
use burrowcode.Golang.Int.{pos}
use burrowcode.System.Progress.{FFmpegRunner, no_progress, parse_progress}
use burrowcode.System.Progress.Percent.{IsCapped, parse_progress-IsCapped}
use burrowcode.System.Resources.{get_linux_memory}
use burrowcode.System.Resources.Meminfo.{sizes_of, get_linux_memory-sizes_of}
use burrowcode.Os.{read_file}
use burrowcode.Golang.Errors.{ok}
use burrowcode.Os.Act.{perform, ◌>>=◌}
use burrowcode.Golang.Strings.{contains, fields}
use burrowcode.Golang.Numbers.{parse_uint}
use burrowcode.System.Hardware.{
  HardwareCapabilities, capabilities, hw_none, detect_hardware, detect_hardware_acceleration,
}
use burrowcode.System.Hardware.Detection.{
  IsDetected, probes, detect_hardware-IsDetected, detect_hardware_acceleration_once,
}
use burrowcode.Tests.Fixture.{whole, host, initial}

abbrev runner : FFmpegRunner whole
runner = record { duration_ms = pos 1000; on_progress = true }

abbrev printed : List String
printed = "out_time_us=2000000" ∷ "progress=continue" ∷ "progress=end" ∷ []

parse_progress-IsCapped_example :
    All (IsCapped whole) (parse_progress whole runner (no_progress whole) printed)
parse_progress-IsCapped_example = parse_progress-IsCapped whole runner printed refl refl

get_linux_memory-sizes_of_example :
    (get_linux_memory {m = host} initial).0
    ≡ ok (sizes_of (perform (read_file "/proc/meminfo") initial).0)
get_linux_memory-sizes_of_example = get_linux_memory-sizes_of initial

abbrev meminfo : List String
meminfo = "MemTotal: 16 kB" ∷ "MemFree: 5 kB" ∷ "Buffers: 3 kB" ∷ "MemFree:" ∷ []

meminfo_read : sizes_of (ok meminfo) ≡ (16384, 8192)
unfolding fields parse_uint
meminfo_read = refl

detect_hardware-IsDetected_example :
    IsDetected "linux" (probes "linux") (detect_hardware {m = host} "linux") initial
detect_hardware-IsDetected_example = detect_hardware-IsDetected "linux" initial

abbrev software : HardwareCapabilities × Option HardwareCapabilities
software = (capabilities hw_none, some (capabilities hw_none))

software_found : (detect_hardware_acceleration {m = host} "linux" none initial).0 ≡ ok software
unfolding detect_hardware_acceleration contains ◌>>=◌
software_found = refl

detect_hardware_acceleration_once_example :
    ((detect_hardware_acceleration {m = host} "linux" software.1 initial).0 ≡ ok software)
    × ((detect_hardware_acceleration {m = host} "linux" software.1 initial).1 ≡ initial)
detect_hardware_acceleration_once_example =
    detect_hardware_acceleration_once "linux" "linux" initial initial software software_found
