-- ===== src/Effect/Unless.antt =====
-- Runs that succeed exactly if nothing is short.
use ferris_file_system.FsError.{FsError}
use ferris_file_system.Effect.{Run, ok, err, panic, Op, and_then}
use ferris_file_system.Effect.Returns.{Returns, returns}

-- The run ends in `Ok` and meets `P`, or `F` holds, and it ends in an error or a panic.
pub data Unless {S A : Type 0} (F : Type 0) (P : A → S → Type 0) : Run S A → Type 0 where
  returned : {a : A} {s : S} → P a s → Unless F P (ok a s)
  failed : {e : FsError} {s : S} → F → Unless F P (err e s)
  panicked : F → Unless F P panic

module _ {S A : Type 0} {F : Type 0} {P : A → S → Type 0} where
  pub bind :
      {B : Type 0} {Q : B → S → Type 0} {r : Run S A} {k : A → Op S B}
      → Unless F P r
      → ((a : A) (s : S) → P a s → Unless F Q (k a s))
      → Unless F Q (and_then r k)
  bind (returned p) next = next _ _ p
  bind (failed f) next = failed f
  bind (panicked f) next = panicked f

  pub mono :
      {Q : A → S → Type 0} {r : Run S A}
      → Unless F P r
      → ((a : A) (s : S) → P a s → Q a s)
      → Unless F Q r
  mono (returned p) weaken = returned (weaken _ _ p)
  mono (failed f) weaken = failed f
  mono (panicked f) weaken = panicked f

  -- `F` may be another condition that it implies.
  pub weaken :
      {G : Type 0} {Q : A → S → Type 0} {r : Run S A}
      → Unless F P r
      → (F → G)
      → ((a : A) (s : S) → P a s → Q a s)
      → Unless G Q r
  weaken (returned p) less more = returned (more _ _ p)
  weaken (failed f) less more = failed (less f)
  weaken (panicked f) less more = panicked (less f)

  pub Returns-Unless : {r : Run S A} → Returns P r → Unless F P r
  Returns-Unless (returns p) = returned p
