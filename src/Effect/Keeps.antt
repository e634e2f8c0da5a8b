-- ===== src/Effect/Keeps.antt =====
-- A property of the state that an operation leaves, in whatever way it ends.
use ferris_file_system.FsError.{FsError}
use ferris_file_system.Effect.{Run, ok, err, panic, Op, and_then}

-- Both a result and an error leave a state in which `I` holds.
pub data Keeps {S A : Type 0} (I : S → Type 0) : Run S A → Type 0 where
  kept : {a : A} {s : S} → I s → Keeps I (ok a s)
  kept_err : {e : FsError} {s : S} → I s → Keeps I (err e s)
  kept_panic : Keeps I panic

pub bind :
    {S A B : Type 0} {I : S → Type 0} {r : Run S A} {k : A → Op S B}
    → Keeps I r
    → ((a : A) (s : S) → I s → Keeps I (k a s))
    → Keeps I (and_then r k)
bind (kept i) next = next _ _ i
bind (kept_err i) next = kept_err i
bind kept_panic next = kept_panic

-- The property may be another one behind the first operation.
pub chain :
    {S A B : Type 0} {I J : S → Type 0} {r : Run S A} {k : A → Op S B}
    → Keeps I r
    → ((s : S) → I s → J s)
    → ((a : A) (s : S) → I s → Keeps J (k a s))
    → Keeps J (and_then r k)
chain (kept i) weaken next = next _ _ i
chain (kept_err i) weaken next = kept_err (weaken _ i)
chain kept_panic weaken next = kept_panic
