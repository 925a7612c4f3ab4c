-- ===== src/Adapters/File/Success.antt =====
-- The upload of worker/adapters/file.go where nothing that it calls fails.
use burrowcode.Base.{String}
use burrowcode.Golang.Filepath.{dir}
use burrowcode.Os.{Machine, mkdir_all, open_file, create_file, copy_file}
use burrowcode.Os.Act.{perform}
use burrowcode.Os.Gives.{Any, Gives, Gives-pure, Gives-annotate, Gives-then}
use burrowcode.Os.Helpful.{IsHelpful}
use burrowcode.Adapters.File.{FileAdapter, final_path, upload}

module _ {m : Machine} (good : IsHelpful m) where
  -- The file adapter stores what it is given.
  pub upload-Gives :
      (a : FileAdapter) (source dest : String) → Gives {m = m} Any (upload a source dest)
  unfolding upload perform
  upload-Gives a source dest =
      let path = final_path a dest in
      Gives-then
        (Gives-annotate _ _ (record { at = λ s. good.goes (mkdir_all (dir path)) s.world }))
        (λ w.
          Gives-then
            (Gives-annotate _ _ (record { at = λ s. good.goes (open_file source) s.world }))
            (λ x.
              Gives-then
                (Gives-annotate _ _ (record { at = λ s. good.goes (create_file path) s.world }))
                (λ y.
                  Gives-then
                    (Gives-annotate _ _
                      (record { at = λ s. good.goes (copy_file source path) s.world }))
                    (λ z. Gives-pure _ tt))))
