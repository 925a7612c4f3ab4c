-- ===== src/Worker/Handle/Published.antt =====
-- The calls of a run of `handleFFmpegCommand`: the result, and the removal of the directory.
use burrowcode.Base.{◌≡◌, ◌⊎◌, inl, inr, refl, ap, ◌∙◌, String, Option, List, [], ◌∷◌, ◌++◌}
use burrowcode.Golang.Errors.{ok}
use burrowcode.Json.{Json}
use burrowcode.Config.{Config}
use burrowcode.Adapters.{OutputAdapter}
use burrowcode.System.Resources.{Runtime}
use burrowcode.Os.{Values, Machine, Call, mkdir_all, remove_all, write_result}
use burrowcode.Os.Act.{State, perform, ask, deferred, ◌>>=◌}
use burrowcode.Os.Emits.{Added-eq, Added, Added-trans, Emits-ask, Emits-map}
use burrowcode.Os.Outcome.{bind-eq-ok, bind-cases}
use burrowcode.Worker.Request.{CommandRequest, CommandResult, encode_result}
use burrowcode.Worker.Job.{produce}
use burrowcode.Worker.Handle.{
  notify, publish, check_limits, unmarshal_request, run_job, job_dir_of, in_job_dir,
  handle_ffmpeg_command,
}
use burrowcode.Worker.Handle.Quiet.{IsSilent, produce-Emits}
use burrowcode.Worker.Handle.Outcomes.{
  IsLook, IsNoResult, IsSilent-IsLook, IsNoResult-IsSilent, check_limits-Emits,
  unmarshal_request-Emits, notify-Emits,
}

-- What the calls are of a run that returned no error: `before`, of which none writes a result, then
-- the result, and last the removal of the job's directory.
pub record IsPublished {m : Machine} (v : Values) (dir : String) (s s' : State m) : Type 0 where
  pub middle : State m
  pub result : CommandResult v
  pub before : Added IsNoResult s middle
  pub calls :
      s'.calls ≡ (middle.calls ++ write_result (encode_result v result) ∷ []) ++ remove_all dir ∷ []

module _ {m : Machine} (v : Values) (cfg : Config v) (id : String) (req : CommandRequest) where
  run_job-eq-ok :
      (a : OutputAdapter) (accel dir : String) (s : State m)
      → (run_job v cfg a accel id dir req s).0 ≡ ok tt
      → (t : State m) × (r : CommandResult v) × Added IsNoResult s t
        × ((run_job v cfg a accel id dir req s).1.calls
            ≡ t.calls ++ write_result (encode_result v r) ∷ [])
  unfolding run_job publish ask
  run_job-eq-ok a accel dir s q =
      let act = produce {m = m} v a accel id dir req in
      let (r, done, rest, st) = bind-eq-ok act (publish v cfg id req) s tt q in
      let t = (act s).1 in
      let (x, noted, written, st') =
        bind-eq-ok (notify v cfg id req r) (λ _. ask (write_result (encode_result v r))) t tt
          rest in
      let u = (notify {m = m} v cfg id req r t).1 in
      (
        u,
        r,
        Added-trans s t u
            ((Emits-map IsSilent IsNoResult act IsNoResult-IsSilent
                (produce-Emits v a accel id dir req)).at
              s)
            ((notify-Emits v cfg id req r).at t),
        ap (λ (w : State m). w.calls) (st ∙ st'),
      )

  in_job_dir-eq-ok :
      (a : OutputAdapter) (accel : String) (s : State m)
      → (in_job_dir v cfg a accel id req s).0 ≡ ok tt
      → IsPublished v (job_dir_of v cfg id) s (in_job_dir v cfg a accel id req s).1
  unfolding in_job_dir deferred perform
  in_job_dir-eq-ok a accel s q =
      let dir = job_dir_of v cfg id in
      let job = run_job {m = m} v cfg a accel id dir req in
      let make = ask {m = m} (mkdir_all dir) in
      let (x, made, ran, st) =
        bind-eq-ok make (λ _. deferred job (perform (remove_all dir))) s tt q in
      let (u, r, added, calls) = run_job-eq-ok a accel dir (make s).1 ran in
      record {
        middle = u;
        result = r;
        before = Added-trans s (make s).1 u ((Emits-ask (mkdir_all dir) tt).at s) added;
        calls = ap (λ (w : State m). w.calls) st ∙ ap (λ l. l ++ remove_all dir ∷ []) calls;
      }

module _ {m : Machine} (v : Values) (cfg : Config v) (a : OutputAdapter) (rt : Runtime)
    (accel id : String) (payload : Option Json) where
  -- A run that returns no error has written exactly one result, behind everything else that it did
  -- but the removal of the job's directory, which is its last call.
  pub handle_ffmpeg_command-IsPublished :
      (s : State m)
      → (handle_ffmpeg_command v cfg a rt accel id payload s).0 ≡ ok tt
      → IsPublished v
          (job_dir_of v cfg id)
          s
          (handle_ffmpeg_command v cfg a rt accel id payload s).1
  unfolding handle_ffmpeg_command
  handle_ffmpeg_command-IsPublished s q =
      let check = check_limits {m = m} v cfg rt in
      let read = unmarshal_request {m = m} v payload in
      let (x, checked, rest, st) =
        bind-eq-ok check (λ _. read >>= in_job_dir v cfg a accel id) s tt q in
      let (req, decoded, ran, st') =
        bind-eq-ok read (in_job_dir v cfg a accel id) (check s).1 tt rest in
      let t = (read (check s).1).1 in
      let p = in_job_dir-eq-ok v cfg id req a accel t ran in
      record {
        middle = p.middle;
        result = p.result;
        before =
            Added-trans s (check s).1 p.middle
              ((Emits-map IsLook IsNoResult check
                  (λ c h. IsNoResult-IsSilent c (IsSilent-IsLook c h))
                  (check_limits-Emits v cfg rt)).at
                s)
              (Added-trans (check s).1 t p.middle
                ((unmarshal_request-Emits v payload).at (check s).1) p.before);
        calls = ap (λ (w : State m). w.calls) (st ∙ st') ∙ p.calls;
      }

  in_job_dir-calls :
      (req : CommandRequest) (s : State m)
      → (before : List Call) × ((in_job_dir v cfg a accel id req s).1.calls
          ≡ before ++ remove_all (job_dir_of v cfg id) ∷ [])
  unfolding in_job_dir deferred perform ask ◌>>=◌
  in_job_dir-calls req s = (
    (run_job {m = m} v cfg a accel id (job_dir_of v cfg id) req
        (ask (mkdir_all (job_dir_of v cfg id)) s).1).1.calls,
    refl,
  )

  -- However a run ends, either it only looked at the host's memory, or its last call removes the
  -- job's directory.
  pub handle_ffmpeg_command_cleanup :
      (s : State m)
      → Added IsLook s (handle_ffmpeg_command v cfg a rt accel id payload s).1
        ⊎ ((before : List Call) × ((handle_ffmpeg_command v cfg a rt accel id payload s).1.calls
              ≡ before ++ remove_all (job_dir_of v cfg id) ∷ []))
  unfolding handle_ffmpeg_command
  handle_ffmpeg_command_cleanup s =
      let check = check_limits {m = m} v cfg rt in
      let read = unmarshal_request {m = m} v payload in
      let t = (check s).1 in
      let looked = (check_limits-Emits v cfg rt).at s in
      let unread = (unmarshal_request-Emits v {P = IsLook} payload).at t in
      elim (bind-cases check (λ _. read >>= in_job_dir v cfg a accel id) s) [
        | inl e ↦ inl (Added-eq s t _ looked e)
        | inr (x, e) ↦ elim (bind-cases read (in_job_dir v cfg a accel id) t) [
          | inl e' ↦
              inl (Added-eq s (read t).1 _ (Added-trans s t (read t).1 looked unread) (e ∙ e'))
          | inr (req, e') ↦
              let (before, last) = in_job_dir-calls req (read t).1 in
              inr (before, ap (λ (w : State m). w.calls) (e ∙ e') ∙ last)
        ]
      ]
