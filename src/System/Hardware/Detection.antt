-- ===== src/System/Hardware/Detection.antt =====
-- What the detection of the hardware ends with, and that it is done once.
use burrowcode.Base.{
  ◌⊎◌, String, ◌≡◌, refl, sym, ap, ◌∙◌, Bool, true, false, Bool-cases, inl, inr, Option, none, some,
  List, [], ◌∷◌, ◌==◌, if◌then◌else◌,
}
use mathlib.Core.Path.{subst}
use burrowcode.Golang.Errors.{Result, ok, err}
use burrowcode.Os.{Machine}
use burrowcode.Os.Act.{State, Act, continue, pure, ◌>>=◌}
use burrowcode.System.Hardware.{
  HardwareAccelType, hw_none, hw_nvenc, hw_qsv, hw_amf, hw_vaapi, hw_videotoolbox,
  HardwareCapabilities, capabilities, check_nvidia, check_qsv, check_amf, check_vaapi,
  check_video_toolbox, first_found, detect_hardware, detect_hardware_acceleration,
}
use burrowcode.System.Hardware.Checks.{
  IsListed, HasDevice, IsChecked, check_nvidia-IsChecked, check_qsv-IsChecked, check_amf-IsChecked,
  check_vaapi-IsChecked, check_video_toolbox-IsChecked,
}

module _ {m : Machine} where
  -- The checks of a list are made in order, up to the first that finds its type, of which the
  -- capabilities are given; those of software encoding, where none does. A type that is passed
  -- over lacks its device or its encoder.
  pub data Detects (goos : String)
      : List (Act m Bool × HardwareAccelType)
        → State m
        → HardwareCapabilities
        → State m
        → Type 0 where
    software : (st : State m) → Detects goos [] st (capabilities hw_none) st
    this_one :
        (check : Act m Bool) (accel : HardwareAccelType)
        (more : List (Act m Bool × HardwareAccelType)) (st : State m)
        → (check st).0 ≡ ok true
        → HasDevice goos accel st
        → IsListed (capabilities accel).h264_encoder true (check st).1
        → Detects goos ((check, accel) ∷ more) st (capabilities accel) (check st).1
    another :
        (check : Act m Bool) (accel : HardwareAccelType)
        (more : List (Act m Bool × HardwareAccelType)) (st st' : State m)
        (hw : HardwareCapabilities)
        → (check st).0 ≡ ok false
        → (¬ HasDevice goos accel st)
          ⊎ IsListed (capabilities accel).h264_encoder false (check st).1
        → Detects goos more (check st).1 hw st'
        → Detects goos ((check, accel) ∷ more) st hw st'

  -- the checks of a platform, in order
  abbrev pub probes : String → List (Act m Bool × HardwareAccelType)
  probes goos =
      if goos == "darwin"
      then (check_video_toolbox goos, hw_videotoolbox) ∷ []
      else if goos == "linux"
      then (check_nvidia, hw_nvenc)
        ∷ (check_qsv goos, hw_qsv)
        ∷ (check_amf, hw_amf)
        ∷ (check_vaapi goos, hw_vaapi)
        ∷ []
      else if goos == "windows"
      then (check_nvidia, hw_nvenc) ∷ (check_qsv goos, hw_qsv) ∷ (check_amf, hw_amf) ∷ []
      else []

  -- A run that ends without an error, by the checks of a list.
  pub record IsDetected (goos : String) (checks : List (Act m Bool × HardwareAccelType))
      (detect : Act m HardwareCapabilities) (st : State m) : Type 0 where
    pub hw : HardwareCapabilities
    pub found : (detect st).0 ≡ ok hw
    pub run : Detects goos checks st hw (detect st).1

  module _ (goos : String) where
    software-IsDetected : (st : State m) → IsDetected goos [] (pure (capabilities hw_none)) st
    unfolding pure
    software-IsDetected st = record { hw = capabilities hw_none; found = refl; run = software st }

    detected :
        (checks : List (Act m Bool × HardwareAccelType)) (detect : Act m HardwareCapabilities)
        (st st' : State m) (hw : HardwareCapabilities)
        → detect st ≡ (ok hw, st')
        → Detects goos checks st hw st'
        → IsDetected goos checks detect st
    detected checks detect st st' hw same run = record {
      hw = hw;
      found = ap (λ (x : Result HardwareCapabilities × State m). x.0) same;
      run =
          subst (λ x. Detects goos checks st hw x)
            (sym (ap (λ (x : Result HardwareCapabilities × State m). x.1) same)) run;
    }

    first_found-IsDetected :
        (check : Act m Bool) (accel : HardwareAccelType)
        (more : List (Act m Bool × HardwareAccelType)) (next : Act m HardwareCapabilities)
        → ((st : State m) → IsChecked goos accel check st)
        → ((st : State m) → IsDetected goos more next st)
        → (st : State m) → IsDetected goos ((check, accel) ∷ more) (first_found check accel next) st
    unfolding first_found ◌>>=◌ pure
    first_found-IsDetected check accel more next h k st =
        let all : List (Act m Bool × HardwareAccelType) = (check, accel) ∷ more in
        elim (Bool-cases (h st).answer) [
          | inl found ↦
              let ends : (check st).0 ≡ ok true = (h st).ends ∙ ap ok found in
              let same : first_found check accel next st ≡ (ok (capabilities accel), (check st).1) =
                rw ends refl in
              detected all (first_found check accel next) st (check st).1 (capabilities accel) same
                (this_one check accel more st ends ((h st).device found) ((h st).listed found))
          | inr missing ↦
              let ends : (check st).0 ≡ ok false = (h st).ends ∙ ap ok missing in
              let rest = k (check st).1 in
              let same : first_found check accel next st ≡ next (check st).1 = rw ends refl in
              detected all (first_found check accel next) st (next (check st).1).1 rest.hw
                (same ∙ ap (λ r. (r, (next (check st).1).1)) rest.found)
                (another check accel more st (next (check st).1).1 rest.hw ends
                  ((h st).missing missing) rest.run)
        ]

  -- the three checks that Linux and Windows share, before others
  shared_first-IsDetected :
      (goos : String) (more : List (Act m Bool × HardwareAccelType))
      (next : Act m HardwareCapabilities)
      → ((st : State m) → IsDetected goos more next st)
      → (st : State m)
      → IsDetected goos
          ((check_nvidia, hw_nvenc) ∷ (check_qsv goos, hw_qsv) ∷ (check_amf, hw_amf) ∷ more)
          (first_found check_nvidia hw_nvenc
            (first_found (check_qsv goos) hw_qsv (first_found check_amf hw_amf next)))
          st
  shared_first-IsDetected goos more next k =
      let amf = first_found check_amf hw_amf next in
      first_found-IsDetected goos check_nvidia hw_nvenc _ (first_found (check_qsv goos) hw_qsv amf)
        (check_nvidia-IsChecked goos)
        (first_found-IsDetected goos (check_qsv goos) hw_qsv _ amf (check_qsv-IsChecked goos)
          (first_found-IsDetected goos check_amf hw_amf more next (check_amf-IsChecked goos) k))

  -- the checks of a platform with its run, and those of the others
  by_platform :
      (goos : String) (b : Bool) (l l' : List (Act m Bool × HardwareAccelType))
      (a a' : Act m HardwareCapabilities) (st : State m)
      → IsDetected goos l a st
      → IsDetected goos l' a' st
      → IsDetected goos (if b then l else l') (if b then a else a') st
  by_platform goos true l l' a a' st h k = h
  by_platform goos false l l' a a' st h k = k

  -- On every machine the detection ends without an error. It makes the checks of the platform in
  -- their order and ends with the first type of which the host shows the device and ffmpeg the
  -- H.264 encoder, or with software encoding, where every type lacks one of them.
  pub detect_hardware-IsDetected :
      (goos : String) (st : State m) → IsDetected goos (probes goos) (detect_hardware goos) st
  unfolding detect_hardware
  detect_hardware-IsDetected goos st =
      by_platform goos (goos == "darwin") _ _ _ _ st
        (first_found-IsDetected goos (check_video_toolbox goos) hw_videotoolbox []
          (pure (capabilities hw_none)) (check_video_toolbox-IsChecked goos)
          (software-IsDetected goos) st)
        (by_platform goos (goos == "linux") _ _ _ _ st
          (shared_first-IsDetected goos ((check_vaapi goos, hw_vaapi) ∷ [])
            (first_found (check_vaapi goos) hw_vaapi (pure (capabilities hw_none)))
            (first_found-IsDetected goos (check_vaapi goos) hw_vaapi []
              (pure (capabilities hw_none)) (check_vaapi-IsChecked goos) (software-IsDetected goos))
            st)
          (by_platform goos (goos == "windows") _ _ _ _ st
            (shared_first-IsDetected goos [] (pure (capabilities hw_none))
              (software-IsDetected goos) st)
            (software-IsDetected goos st)))

  -- what is kept is what was found
  cached :
      (r : Result HardwareCapabilities) (s : State m)
      (found : HardwareCapabilities × Option HardwareCapabilities)
      → (continue r (λ hw. pure (hw, some hw)) s).0 ≡ ok found
      → (hw : HardwareCapabilities) × (found ≡ (hw, some hw))
  unfolding pure
  cached (ok hw) s found h = (hw, cc h)
  cached (err e) s found h = absurd (cc h)

  -- Once a detection has ended, every later one gives what it found and makes no call.
  pub detect_hardware_acceleration_once :
      (goos later : String) (st st' : State m)
      (found : HardwareCapabilities × Option HardwareCapabilities)
      → (detect_hardware_acceleration goos none st).0 ≡ ok found
      → ((detect_hardware_acceleration later found.1 st').0 ≡ ok found)
        × ((detect_hardware_acceleration later found.1 st').1 ≡ st')
  unfolding detect_hardware_acceleration ◌>>=◌ pure
  detect_hardware_acceleration_once goos later st st' found h =
      let (hw, same) = cached (detect_hardware goos st).0 (detect_hardware goos st).1 found h in
      rw same (refl, refl)
