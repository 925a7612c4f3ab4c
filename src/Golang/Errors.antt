-- ===== src/Golang/Errors.antt =====
-- A Go result that comes with an error: the value, or the error's message.
use burrowcode.Base.{String}

pub data Result {ℓ} (A : Type ℓ) : Type ℓ where
  ok : A → Result A
  err : String → Result A
