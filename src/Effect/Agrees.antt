-- ===== src/Effect/Agrees.antt =====
-- The answer of a run that ends in `Ok` or in `Err`, and what holds of its state in both cases.
use ferris_file_system.Prelude.{◌≡◌, refl, ◌⊎◌, inl, inr}
use ferris_file_system.FsError.{FsError}
use ferris_file_system.Effect.{Op, Run, ok, err, and_then}
use ferris_file_system.Effect.Returns.{Returns, returns}

-- An error or a value.
abbrev pub Answer : Type 0 → Type 0
Answer A = FsError ⊎ A

-- A run ends as an answer says, and what it leaves satisfies `P`.
pub data Agrees {D A : Type 0} (P : D → Type 0) : Answer A → Run D A → Type 0 where
  agreed : {a : A} {d : D} → P d → Agrees P (inr a) (ok a d)
  refused : {e : FsError} {d : D} → P d → Agrees P (inl e) (err e d)

abbrev pub answer_then : {A B : Type 0} → Answer A → (A → Answer B) → Answer B
answer_then (inl e) next = inl e
answer_then (inr a) next = next a

module _ {D A B : Type 0} {P : D → Type 0} where
  pub Agrees-bind :
      {x : Answer A} {r : Run D A} {g : A → Answer B} {k : A → Op D B}
      → Agrees P x r
      → ((a : A) (s : D) → x ≡ inr a → P s → Agrees P (g a) (k a s))
      → Agrees P (answer_then x g) (and_then r k)
  Agrees-bind (agreed p) next = next _ _ refl p
  Agrees-bind (refused p) next = refused p

  pub Returns-Agrees :
      {Q : A → D → Type 0} {x : Answer B} {r : Run D A} {k : A → Op D B}
      → Returns Q r
      → ((a : A) (s : D) → Q a s → Agrees P x (k a s))
      → Agrees P x (and_then r k)
  Returns-Agrees (returns q) next = next _ _ q
