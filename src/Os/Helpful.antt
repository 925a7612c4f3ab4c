-- ===== src/Os/Helpful.antt =====
-- A machine on which nothing fails.
use burrowcode.Base.{◌≡◌, true, none, nat_eq}
use burrowcode.Os.{
  Machine, Call, Reply, Piped, Response, mkdir_all, open_file, create_file, stat_file, copy_file,
  save_body, run_combined, run_piped, new_request, send, context_error,
}
use burrowcode.Os.Gives.{Holds, Any}

-- The call went well: a file is there, an answer has status 200, a command ends without an error, and
-- the context is not cancelled.
abbrev pub Went : (c : Call) → Reply c → Type 0
Went (mkdir_all path) r = Holds Any r
Went (open_file path) r = Holds Any r
Went (create_file path) r = Holds Any r
Went (stat_file path) r = Holds Any r
Went (copy_file source dest) r = Holds Any r
Went (save_body path) r = Holds Any r
Went (run_combined name args) r = r.failure ≡ none
Went (run_piped name args) r = Holds (λ (p : Piped). p.failure ≡ none) r
Went (new_request method url) r = Holds Any r
Went (send request) r = Holds (λ (a : Response). nat_eq a.status 200 ≡ true) r
Went context_error r = r ≡ none
Went _ r = Unit

-- Whatever is called goes well.
pub record IsHelpful (m : Machine) : Type 0 where
  pub goes : (c : Call) (w : m.World) → Went c (m.answer c w).0
