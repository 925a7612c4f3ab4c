-- ===== src/Worker/Handle/Reported.antt =====
-- What a job leaves behind, and that a job which nothing fails ends. A run of `handleFFmpegCommand`
-- of worker/main.go.
use burrowcode.Base.{
  String, ◌≡◌, refl, sym, ap, ◌∙◌, true, inl, inr, Bool-cases, Option, List, [], ◌∷◌, ◌++◌, ◌==◌,
  if◌then◌else◌, if_both,
}
use mathlib.Core.List.{append-nil}
use mathlib.Core.Path.{subst}
use burrowcode.Golang.Errors.{Result, ok, err}
use burrowcode.Json.{Json}
use burrowcode.Config.{Config}
use burrowcode.Adapters.{OutputAdapter, upload}
use burrowcode.System.Resources.{Runtime}
use burrowcode.Os.{Values, Machine, Call, mkdir_all, remove_all, enqueue, write_result}
use burrowcode.Os.Act.{State, Act, perform, pure, fail, ask, attempt, deferred, ◌>>=◌}
use burrowcode.Os.Emits.{Added, Added-trans, Emits-ask, Emits-map}
use burrowcode.Os.Helpful.{IsHelpful}
use burrowcode.Os.Gives.{
  Any, Holds-eq, Gives, Gives-pure, Gives-ask, Gives-attempted, Gives-then, Gives-if,
  Gives-deferred,
}
use burrowcode.Os.Outcome.{bind-eq-ok}
use burrowcode.Worker.Request.{CommandRequest, CommandResult, decode_request, encode_result}
use burrowcode.Worker.Job.{produce}
use burrowcode.Worker.Job.Success.{produce-Gives}
use burrowcode.Worker.Handle.{
  webhook_task, notify, enqueue_webhook, publish, check_limits, unmarshal_request, run_job,
  job_dir_of, in_job_dir, handle_ffmpeg_command,
}
use burrowcode.Worker.Handle.Quiet.{IsSilent, produce-Emits}
use burrowcode.Worker.Handle.Outcomes.{
  IsLook, IsSilent-IsLook, check_limits-Emits, unmarshal_request-Emits,
}

-- the notice of a result, where the request has a webhook
abbrev pub notices : (v : Values) → Config v → String → CommandRequest → CommandResult v → List Call
notices v cfg id req result =
    if req.webhook == "" then [] else enqueue (webhook_task v cfg req.webhook id result req) ∷ []

-- The calls of a run: some that neither write a result nor enqueue a task, then the notice of a
-- result, the result itself, and the removal of the job's directory.
pub record IsReported {m : Machine} (v : Values) (cfg : Config v) (id : String)
    (req : CommandRequest) (s s' : State m) : Type 0 where
  pub middle : State m
  pub result : CommandResult v
  pub silent : Added IsSilent s middle
  pub calls :
      s'.calls
      ≡ ((middle.calls ++ notices v cfg id req result)
          ++ write_result (encode_result v result) ∷ [])
        ++ remove_all (job_dir_of v cfg id) ∷ []

module _ {m : Machine} (v : Values) (cfg : Config v) (id : String) (req : CommandRequest) where
  notify-calls :
      (r : CommandResult v) (s : State m)
      → ((notify v cfg id req r s).0 ≡ ok tt)
        × ((notify v cfg id req r s).1.calls ≡ s.calls ++ notices v cfg id req r)
  unfolding notify enqueue_webhook pure attempt perform ◌>>=◌
  notify-calls r s = elim (Bool-cases (req.webhook == "")) [
    | inl e ↦ rw e (refl, sym (append-nil s.calls))
    | inr e ↦ rw e (refl, refl)
  ]

  publish-calls :
      (r : CommandResult v) (s : State m)
      → (publish v cfg id req r s).1.calls
        ≡ (s.calls ++ notices v cfg id req r) ++ write_result (encode_result v r) ∷ []
  unfolding publish ask perform ◌>>=◌
  publish-calls r s =
      let (fine, calls) = notify-calls r s in
      rw fine (ap (λ l. l ++ write_result (encode_result v r) ∷ []) calls)

  publish-Gives : (r : CommandResult v) → Gives {m = m} Any (publish v cfg id req r)
  unfolding publish notify enqueue_webhook
  publish-Gives r =
      let notice = webhook_task v cfg req.webhook id r req in
      Gives-then {act = notify v cfg id req r}
        (Gives-if (req.webhook == "") _ _ (Gives-pure tt tt)
          (Gives-then (Gives-attempted (perform (enqueue notice))) (λ y. Gives-pure tt tt)))
        (λ z. Gives-ask (write_result (encode_result v r)) Any (λ w. tt))

  module _ (a : OutputAdapter) (accel : String) where
    run_job-IsReported :
        (dir : String) (s : State m)
        → (run_job v cfg a accel id dir req s).0 ≡ ok tt
        → (t : State m) × (r : CommandResult v) × Added IsSilent s t
          × ((run_job v cfg a accel id dir req s).1.calls
              ≡ (t.calls ++ notices v cfg id req r) ++ write_result (encode_result v r) ∷ [])
    unfolding run_job
    run_job-IsReported dir s q =
        let act = produce {m = m} v a accel id dir req in
        let (r, done, rest, st) = bind-eq-ok act (publish v cfg id req) s tt q in
        let t = (act s).1 in
        (
          t,
          r,
          (produce-Emits v a accel id dir req).at s,
          ap (λ (w : State m). w.calls) st ∙ publish-calls r t,
        )

    in_job_dir-IsReported :
        (s : State m)
        → (in_job_dir v cfg a accel id req s).0 ≡ ok tt
        → IsReported v cfg id req s (in_job_dir v cfg a accel id req s).1
    unfolding in_job_dir deferred perform
    in_job_dir-IsReported s q =
        let dir = job_dir_of v cfg id in
        let job = run_job {m = m} v cfg a accel id dir req in
        let make = ask {m = m} (mkdir_all dir) in
        let (x, made, ran, st) =
          bind-eq-ok make (λ _. deferred job (perform (remove_all dir))) s tt q in
        let (t, r, added, calls) = run_job-IsReported dir (make s).1 ran in
        record {
          middle = t;
          result = r;
          silent = Added-trans s (make s).1 t ((Emits-ask (mkdir_all dir) tt).at s) added;
          calls = ap (λ (w : State m). w.calls) st ∙ ap (λ l. l ++ remove_all dir ∷ []) calls;
        }

    run_job-Gives :
        (dir : String)
        → IsHelpful m
        → ((source dest : String) → Gives {m = m} Any (upload a source dest))
        → Gives {m = m} Any (run_job v cfg a accel id dir req)
    unfolding run_job
    run_job-Gives dir good stores =
        Gives-then (produce-Gives good v a stores accel id dir req) publish-Gives

    in_job_dir-Gives :
        IsHelpful m
        → ((source dest : String) → Gives {m = m} Any (upload a source dest))
        → Gives {m = m} Any (in_job_dir v cfg a accel id req)
    unfolding in_job_dir
    in_job_dir-Gives good stores =
        Gives-then (Gives-ask (mkdir_all (job_dir_of v cfg id)) Any (λ w. tt)) (λ x.
          Gives-deferred (run_job v cfg a accel id (job_dir_of v cfg id) req) _
            (run_job-Gives (job_dir_of v cfg id) good stores))

abbrev value_or {ℓ} : {A : Type ℓ} → A → Result A → A
value_or a (ok b) = b
value_or a (err e) = a

module _ {m : Machine} (v : Values) (cfg : Config v) (a : OutputAdapter) (rt : Runtime)
    (accel id : String) (payload : Option Json) where
  unmarshal_request-ok :
      (s : State m) (req : CommandRequest)
      → (unmarshal_request v payload s).0 ≡ ok req
      → req ≡ (decode_request payload).0
  unfolding unmarshal_request pure fail
  unmarshal_request-ok s req =
      let read = (decode_request payload).0 in
      if_both (λ (act : Act m CommandRequest). (act s).0 ≡ ok req → req ≡ read)
        (decode_request payload).1 (pure read) (fail "unmarshal: json: cannot unmarshal")
        (λ q. sym (ap (value_or req) q)) (λ q. absurd (cc q))

  -- A job that ends without an error has first done what leaves no trace on the queue, then enqueued
  -- the notice of its result, where the request has a webhook, then written that result, and last
  -- removed its directory.
  pub handle_ffmpeg_command-IsReported :
      (s : State m)
      → (handle_ffmpeg_command v cfg a rt accel id payload s).0 ≡ ok tt
      → IsReported v cfg id
          (decode_request payload).0
          s
          (handle_ffmpeg_command v cfg a rt accel id payload s).1
  unfolding handle_ffmpeg_command
  handle_ffmpeg_command-IsReported s q =
      let check = check_limits {m = m} v cfg rt in
      let read = unmarshal_request {m = m} v payload in
      let (x, checked, rest, st) =
        bind-eq-ok check (λ _. read >>= in_job_dir v cfg a accel id) s tt q in
      let (req, decoded, ran, st') =
        bind-eq-ok read (in_job_dir v cfg a accel id) (check s).1 tt rest in
      let t = (read (check s).1).1 in
      let p = in_job_dir-IsReported v cfg id req a accel t ran in
      let last = (handle_ffmpeg_command {m = m} v cfg a rt accel id payload s).1 in
      subst (λ r. IsReported v cfg id r s last) (unmarshal_request-ok (check s).1 req decoded)
        (record {
          middle = p.middle;
          result = p.result;
          silent =
              Added-trans s (check s).1 p.middle
                ((Emits-map IsLook IsSilent check IsSilent-IsLook (check_limits-Emits v cfg rt)).at
                  s)
                (Added-trans (check s).1 t p.middle
                  ((unmarshal_request-Emits v payload).at (check s).1) p.silent);
          calls = ap (λ (w : State m). w.calls) (st ∙ st') ∙ p.calls;
        })

  -- Where every call goes well, the adapter stores what it is given, the host has the memory, and the
  -- payload is that of a request, the job ends without an error.
  pub handle_ffmpeg_command-ends :
      (s : State m)
      → IsHelpful m
      → ((source dest : String) → Gives {m = m} Any (upload a source dest))
      → (check_limits v cfg rt s).0 ≡ ok tt
      → (decode_request payload).1 ≡ true
      → (handle_ffmpeg_command v cfg a rt accel id payload s).0 ≡ ok tt
  unfolding handle_ffmpeg_command unmarshal_request pure ◌>>=◌
  handle_ffmpeg_command-ends s good stores fits reads =
      let t = (check_limits v cfg rt s).1 in
      rw fits (
        rw reads (
          Holds-eq _
            ((in_job_dir-Gives v cfg id (decode_request payload).0 a accel good stores).at t)))
