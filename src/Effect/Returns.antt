-- ===== src/Effect/Returns.antt =====
-- Total correctness of a run: it ends in `Ok`, and its value and state meet a postcondition, or it
-- ends in a given `Err`, and its state meets one.
use ferris_file_system.FsError.{FsError}
use ferris_file_system.Effect.{Run, ok, err, Op, and_then}

pub data Returns {S A : Type 0} (P : A → S → Type 0) : Run S A → Type 0 where
  returns : {a : A} {s : S} → P a s → Returns P (ok a s)

pub data Fails {S A : Type 0} (e : FsError) (Q : S → Type 0) : Run S A → Type 0 where
  fails : {s : S} → Q s → Fails e Q (err e s)

module _ {S A : Type 0} {P : A → S → Type 0} where
  pub bind :
      {B : Type 0} {Q : B → S → Type 0} {r : Run S A} {k : A → Op S B}
      → Returns P r
      → ((a : A) (s : S) → P a s → Returns Q (k a s))
      → Returns Q (and_then r k)
  bind (returns p) next = next _ _ p

  pub mono :
      {Q : A → S → Type 0} {r : Run S A}
      → Returns P r
      → ((a : A) (s : S) → P a s → Q a s)
      → Returns Q r
  mono (returns p) weaken = returns (weaken _ _ p)

  -- A step that succeeds, before one that fails.
  pub bind-Fails :
      {B : Type 0} {e : FsError} {Q : S → Type 0} {r : Run S A} {k : A → Op S B}
      → Returns P r
      → ((a : A) (s : S) → P a s → Fails e Q (k a s))
      → Fails e Q (and_then r k)
  bind-Fails (returns p) next = next _ _ p
