-- ===== src/System/Resources/Meminfo.antt =====
-- What worker/system/resources.go reads in /proc/meminfo.
use burrowcode.Base.{
  ℕ, ◌+◌, ◌%◌, ◌^◌, String, ◌≡◌, refl, ap, Bool, true, false, List, ltb, if◌then◌else◌,
}
use burrowcode.Golang.Errors.{Result, ok, err}
use burrowcode.Os.{Machine, read_file}
use burrowcode.Os.Act.{State, perform, pure}
use burrowcode.System.Resources.Lines.{total_of, read_lines-IsUpdate}
use burrowcode.System.Resources.{read_lines, no_info, available_memory, memory_of, get_linux_memory}

-- the bytes in all, and those available: where the lines give none as available, those that are
-- free, in buffers or cached
abbrev pub sizes_of : Result (List String) → ℕ × ℕ
sizes_of (err e) = (0, 0)
sizes_of (ok lines) = (
  total_of "MemTotal:" lines,
  if ltb 0 (total_of "MemAvailable:" lines)
      then total_of "MemAvailable:" lines
      else (total_of "MemFree:" lines + total_of "Buffers:" lines + total_of "Cached:" lines)
        % 2 ^ 64,
)

pair_if :
    (b : Bool) (x y z : ℕ) → ◌≡◌ {A = ℕ × ℕ} (if b then (x, y) else (x, z)) (x, if b then y else z)
pair_if true x y z = refl
pair_if false x y z = refl

sizes_read :
    (lines : List String) → available_memory (read_lines no_info lines) ≡ sizes_of (ok lines)
unfolding available_memory
sizes_read lines =
    let u = read_lines-IsUpdate no_info lines in
    rw (u.total, u.available, u.free, u.buffers, u.cached) (pair_if _ _ _ _)

read_sizes : (r : Result (List String)) → memory_of r ≡ sizes_of r
read_sizes (err e) = refl
read_sizes (ok lines) = sizes_read lines

-- The sizes of the host's memory on Linux are those that /proc/meminfo gives, in bytes: of each
-- name, the number of the last line with that name and a number, times 1024 in 64 bits. The memory
-- available is that of its name, or, where that is 0 or missing, the sum of the free memory, the
-- buffers and the cache in 64 bits. Where the file cannot be read, both sizes are 0.
pub get_linux_memory-sizes_of :
    {m : Machine} (s : State m)
    → (get_linux_memory s).0 ≡ ok (sizes_of (perform (read_file "/proc/meminfo") s).0)
unfolding get_linux_memory pure
get_linux_memory-sizes_of s = ap ok (read_sizes (perform (read_file "/proc/meminfo") s).0)
