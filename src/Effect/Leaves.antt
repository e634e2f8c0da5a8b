-- ===== src/Effect/Leaves.antt =====
-- The state after an operation, whether it succeeded or failed.
use ferris_file_system.FsError.{FsError}
use ferris_file_system.Effect.{Run, ok, err}
use ferris_file_system.Effect.Keeps.{Keeps, kept, kept_err, kept_panic}

pub data Leaves {S A : Type 0} : Run S A → S → Type 0 where
  with_result : {a : A} {s : S} → Leaves (ok a s) s
  with_error : {e : FsError} {s : S} → Leaves (err e s) s

pub Keeps-Leaves :
    {S A : Type 0} {I : S → Type 0} {r : Run S A} {s : S} → Keeps I r → Leaves r s → I s
Keeps-Leaves (kept i) with_result = i
Keeps-Leaves kept_panic left = elim left [ ]
Keeps-Leaves (kept_err i) with_error = i
