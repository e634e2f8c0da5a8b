-- ===== src/OpenFiles.antt =====
-- src/formats/v1/file.rs: what the format keeps of an open file, and the table of them, a
-- `HashMap<u32, FileMetadata>`, as a function.
use ferris_file_system.Prelude.{
  ℕ, ◌≡◌, refl, fun_ext, inl, inr, true, Option, none, some, ◌==◌, if◌then◌else◌, arith, Bool-cases,
}

pub data OpenFileMode : Type 0 where
  read_only write_only read_write : OpenFileMode

pub record FileMetadata : Type 0 where
  pub inode : ℕ
  pub offset : ℕ
  pub mode : OpenFileMode

abbrev pub new : ℕ → OpenFileMode → FileMetadata
new inode mode = record { inode = inode; offset = 0; mode = mode }

abbrev pub Table : Type 0
Table = ℕ → Option FileMetadata

abbrev pub empty : Table
empty id = none

unfoldable pub insert : ℕ → FileMetadata → Table → Table
insert id metadata table j = if id == j then some metadata else table j

unfoldable pub remove : ℕ → Table → Table
remove id table j = if id == j then none else table j

pub insert_self : (id : ℕ) (x : FileMetadata) (t : Table) → insert id x t id ≡ some x
unfolding insert
insert_self id x t = let self : (id == id) ≡ true = ground arith in rw self refl

pub insert-insert :
    (id : ℕ) (x y : FileMetadata) (t : Table) → insert id x (insert id y t) ≡ insert id x t
unfolding insert
insert-insert id x y t =
    fun_ext λ j. elim (Bool-cases (id == j)) [ inl e ↦ rw e refl | inr e ↦ rw e refl ]

pub insert_known : (id : ℕ) (x : FileMetadata) (t : Table) → t id ≡ some x → insert id x t ≡ t
unfolding insert
insert_known id x t known = fun_ext λ j. elim (Bool-cases (id == j)) [
  | inl e ↦ let same : j ≡ id = ground (arith, e) in rw (e, same, known) refl
  | inr e ↦ rw e refl
]
