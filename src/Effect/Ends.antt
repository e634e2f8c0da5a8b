-- ===== src/Effect/Ends.antt =====
-- Operations that end without a panic: in an error, or with a result that meets a postcondition.
use ferris_file_system.FsError.{FsError}
use ferris_file_system.Effect.{Run, ok, err, Op, and_then}

pub data Ends {S A : Type 0} (P : A → S → Type 0) : Run S A → Type 0 where
  ends_ok : {a : A} {s : S} → P a s → Ends P (ok a s)
  ends_err : {e : FsError} {s : S} → Ends P (err e s)

pub bind :
    {S A B : Type 0} {P : A → S → Type 0} {Q : B → S → Type 0} {r : Run S A} {k : A → Op S B}
    → Ends P r
    → ((a : A) (s : S) → P a s → Ends Q (k a s))
    → Ends Q (and_then r k)
bind (ends_ok p) next = next _ _ p
bind ends_err next = ends_err
