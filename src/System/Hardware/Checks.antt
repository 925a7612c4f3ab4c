-- ===== src/System/Hardware/Checks.antt =====
-- What the checks of worker/system/hardware.go find.
use burrowcode.Base.{
  ◌⊎◌, inl, inr, String, ◌≡◌, refl, Bool, true, false, [], ◌∷◌, ◌==◌, if◌then◌else◌, if_cases,
}
use burrowcode.Golang.Errors.{ok}
use burrowcode.Os.{Machine, Call, run_output}
use burrowcode.Os.Act.{State, Act, ask, perform, pure, ◌>>=◌}
use burrowcode.System.Hardware.{
  HardwareAccelType, hw_nvenc, hw_qsv, hw_amf, hw_vaapi, hw_videotoolbox, capabilities, shows,
  succeeded, check_ffmpeg_encoder, check_nvidia, check_qsv, check_amf, check_vaapi,
  check_video_toolbox,
}

abbrev pub list_encoders : Call
list_encoders = run_output "ffmpeg" ("-hide_banner" ∷ "-encoders" ∷ [])

-- what a missing device means, for a check that has its encoder looked for only with one
without : {A B C : Type 0} → (A → ¬ B) → A ⊎ C → (¬ B) ⊎ C
without f (inl a) = inl (f a)
without f (inr c) = inr c

module _ {m : Machine} where
  -- The last call asked ffmpeg for its encoders, and the answer has this one, or has it not.
  pub record IsListed (encoder : String) (found : Bool) (st' : State m) : Type 0 where
    pub before : State m
    pub shown : shows (perform list_encoders before).0 encoder ≡ found
    pub last : st' ≡ (perform list_encoders before).1

  -- the device of a type, by the platform and by what the host answers in a state
  abbrev pub HasDevice : String → HardwareAccelType → State m → Type 0
  HasDevice goos hw_nvenc st =
      shows (perform (run_output "nvidia-smi" ("-L" ∷ [])) st).0 "GPU" ≡ true
  HasDevice goos hw_qsv st =
      (goos == "linux") ≡ true
      → shows (perform (run_output "ls" ("/dev/dri/" ∷ [])) st).0 "renderD" ≡ true
  HasDevice goos hw_vaapi st =
      ((goos == "linux") ≡ true)
      × (succeeded (perform (run_output "ls" ("/dev/dri/renderD128" ∷ [])) st).0 ≡ true)
  HasDevice goos hw_videotoolbox st = (goos == "darwin") ≡ true
  HasDevice goos _ st = Unit

  -- A check that ended without an error; where it found its type, the host has the device, and
  -- ffmpeg the encoder, and where it did not, one of them is missing.
  pub record IsChecked (goos : String) (accel : HardwareAccelType) (check : Act m Bool)
      (st : State m) : Type 0 where
    pub answer : Bool
    pub ends : (check st).0 ≡ ok answer
    pub device : answer ≡ true → HasDevice goos accel st
    pub listed : answer ≡ true → IsListed (capabilities accel).h264_encoder true (check st).1
    pub missing :
        answer ≡ false
        → (¬ HasDevice goos accel st)
          ⊎ IsListed (capabilities accel).h264_encoder false (check st).1

  -- an encoder that is looked for only on some condition
  encoder_if-IsListed :
      (b : Bool) (encoder : String) (st : State m)
      → (answer : Bool) × (((if b then check_ffmpeg_encoder encoder else pure false) st).0
          ≡ ok answer)
        × (answer ≡ true → b ≡ true)
        × (answer ≡ true
            → IsListed encoder true ((if b then check_ffmpeg_encoder encoder else pure false) st).1)
        × (answer ≡ false
            → (b ≡ false)
              ⊎ IsListed encoder false
                  ((if b then check_ffmpeg_encoder encoder else pure false) st).1)
  unfolding check_ffmpeg_encoder ◌>>=◌ ask pure
  encoder_if-IsListed true encoder st =
      let out = (perform list_encoders st).0 in
      (
        shows out encoder,
        refl,
        λ e. refl,
        λ e. record { before = st; shown = e; last = refl },
        λ e. inr (record { before = st; shown = e; last = refl }),
      )
  encoder_if-IsListed false encoder st = (false, refl, λ e. e, λ e. absurd (cc e), λ e. inl refl)

  pub check_nvidia-IsChecked :
      (goos : String) (st : State m) → IsChecked goos hw_nvenc check_nvidia st
  unfolding check_nvidia ◌>>=◌ ask capabilities
  check_nvidia-IsChecked goos st =
      let (out, st') = perform (run_output "nvidia-smi" ("-L" ∷ [])) st in
      let (answer, ends, has, listed, lacking) =
        encoder_if-IsListed (shows out "GPU") "h264_nvenc" st' in
      record {
        answer = answer;
        ends = ends;
        device = has;
        listed = listed;
        missing = λ e. without (λ no h. absurd (cc (no, h))) (lacking e);
      }

  -- an encoder that is looked for without a condition
  check_ffmpeg_encoder-IsChecked :
      (goos : String) (accel : HardwareAccelType) (st : State m)
      → HasDevice goos accel st
      → IsChecked goos accel (check_ffmpeg_encoder (capabilities accel).h264_encoder) st
  check_ffmpeg_encoder-IsChecked goos accel st d =
      let (answer, ends, has, listed, lacking) =
        encoder_if-IsListed true (capabilities accel).h264_encoder st in
      record {
        answer = answer;
        ends = ends;
        device = λ e. d;
        listed = listed;
        missing = λ e. without (λ no. absurd (cc no)) (lacking e);
      }

  pub check_qsv-IsChecked :
      (goos : String) (st : State m) → IsChecked goos hw_qsv (check_qsv goos) st
  unfolding check_qsv ◌>>=◌ ask capabilities
  check_qsv-IsChecked goos st =
      let (out, st') = perform (run_output "ls" ("/dev/dri/" ∷ [])) st in
      if_cases (λ (act : Act m Bool). IsChecked goos hw_qsv act st) (goos == "linux")
        (ask (run_output "ls" ("/dev/dri/" ∷ [])) >>= λ out.
          if shows out "renderD" then check_ffmpeg_encoder "h264_qsv" else pure false)
        (check_ffmpeg_encoder "h264_qsv")
        (λ linux.
          let (answer, ends, has, listed, lacking) =
            encoder_if-IsListed (shows out "renderD") "h264_qsv" st' in
          record {
            answer = answer;
            ends = ends;
            device = λ e l. has e;
            listed = listed;
            missing =
                λ e. without (λ no h. let shown = h linux in absurd (cc (no, shown))) (lacking e);
          })
        (λ other.
          check_ffmpeg_encoder-IsChecked goos hw_qsv st (λ linux. absurd (cc (other, linux))))

  pub check_amf-IsChecked : (goos : String) (st : State m) → IsChecked goos hw_amf check_amf st
  unfolding check_amf capabilities
  check_amf-IsChecked goos st = check_ffmpeg_encoder-IsChecked goos hw_amf st tt

  pub check_vaapi-IsChecked :
      (goos : String) (st : State m) → IsChecked goos hw_vaapi (check_vaapi goos) st
  unfolding check_vaapi ◌>>=◌ ask pure capabilities
  check_vaapi-IsChecked goos st =
      let (out, st') = perform (run_output "ls" ("/dev/dri/renderD128" ∷ [])) st in
      if_cases (λ (act : Act m Bool). IsChecked goos hw_vaapi act st) (goos == "linux")
        (ask (run_output "ls" ("/dev/dri/renderD128" ∷ [])) >>= λ out.
          if succeeded out then check_ffmpeg_encoder "h264_vaapi" else pure false)
        (pure false)
        (λ linux.
          let (answer, ends, has, listed, lacking) =
            encoder_if-IsListed (succeeded out) "h264_vaapi" st' in
          record {
            answer = answer;
            ends = ends;
            device = λ e. (linux, has e);
            listed = listed;
            missing = λ e. without (λ no h. let shown = h.1 in absurd (cc (no, shown))) (lacking e);
          })
        (λ other. record {
          answer = false;
          ends = refl;
          device = λ e. absurd (cc e);
          listed = λ e. absurd (cc e);
          missing = λ e. inl (λ h. let linux = h.0 in absurd (cc (other, linux)));
        })

  pub check_video_toolbox-IsChecked :
      (goos : String) (st : State m) → IsChecked goos hw_videotoolbox (check_video_toolbox goos) st
  unfolding check_video_toolbox capabilities
  check_video_toolbox-IsChecked goos st =
      let (answer, ends, has, listed, lacking) =
        encoder_if-IsListed (goos == "darwin") "h264_videotoolbox" st in
      record {
        answer = answer;
        ends = ends;
        device = has;
        listed = listed;
        missing = λ e. without (λ no h. absurd (cc (no, h))) (lacking e);
      }
