-- ===== src/Effect.antt =====
-- How the code's effects are passed on: `FSResult`, `?`, panics and the exclusive borrow `&mut D`
-- of a state, all as one result type. A function that also changes `self` returns the new value.
pub mod Returns
pub mod Keeps
pub mod Ends
pub mod Agrees
pub mod Leaves
pub mod Unless
use ferris_file_system.Prelude.{ℕ, Bool, true, false, if◌then◌else◌}
use ferris_file_system.FsError.{FsError}

-- `Ok`, `Err`, both with the state that they leave behind, or a panic or a loop that never ends.
pub data Run (S A : Type 0) : Type 0 where
  ok : A → S → Run S A
  err : FsError → S → Run S A
  panic : Run S A

abbrev pub Op : Type 0 → Type 0 → Type 0
Op S A = S → Run S A

module _ {S : Type 0} where
  abbrev pub pure : {A : Type 0} → A → Op S A
  pure a s = ok a s

  abbrev pub fail : {A : Type 0} → FsError → Op S A
  fail e s = err e s

  abbrev pub crash : {A : Type 0} → Op S A
  crash s = panic

  module _ {A B : Type 0} where
    abbrev pub and_then : Run S A → (A → Op S B) → Run S B
    and_then (ok a s) k = k a s
    and_then (err e s) k = err e s
    and_then panic k = panic

    infixl 5 ◌>>=◌ ◌>>◌
    abbrev pub ◌>>=◌ : Op S A → (A → Op S B) → Op S B
    m >>= k = λ s. and_then (m s) k

    abbrev pub ◌>>◌ : Op S A → Op S B → Op S B
    m >> n = m >>= λ _. n
