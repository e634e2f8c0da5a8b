-- ===== src/CachedDevice/Entries.antt =====
-- The map of src/device/cached_device.rs: what an update or a removal leaves of the other entries.
use ferris_file_system.Prelude.{
  ℕ, ◌≡◌, refl, inl, inr, Option, none, some, [], ◌∷◌, arith, ◌==◌, if◌then◌else◌, Bool-cases,
}
use ferris_file_system.CachedDevice.{CachedBlock, Entries, find, change_at, remove}

abbrev pub on_some : (CachedBlock → CachedBlock) → Option CachedBlock → Option CachedBlock
on_some f none = none
on_some f (some e) = some (f e)

pub find-change_at :
    (j k : ℕ) (f : CachedBlock → CachedBlock) (xs : Entries)
    → find j (change_at k f xs) ≡ (if j == k then on_some f (find j xs) else find j xs)
unfolding find change_at
find-change_at j k f [] = elim (Bool-cases (j == k)) [ inl e ↦ rw e refl | inr e ↦ rw e refl ]
find-change_at j k f ((i, e) ∷ xs) = ground (arith, find-change_at j k f xs)

pub find-remove :
    (j k : ℕ) (xs : Entries) → find j (remove k xs) ≡ (if j == k then none else find j xs)
unfolding find remove
find-remove j k [] = elim (Bool-cases (j == k)) [ inl e ↦ rw e refl | inr e ↦ rw e refl ]
find-remove j k ((i, e) ∷ xs) = ground (arith, find-remove j k xs)
