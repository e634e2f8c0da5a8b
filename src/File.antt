-- ===== src/File.antt =====
-- src/file.rs: the type of a file, and its byte on the disk.
use ferris_file_system.Prelude.{ℕ, ◌≡◌, refl, Bool, true, ◌==◌, if◌then◌else◌}

pub data FileType : Type 0 where
  file directory symlink unknown : FileType

-- `to_le_bytes`
abbrev pub to_byte : FileType → ℕ
to_byte file = 0
to_byte directory = 1
to_byte symlink = 2
to_byte unknown = 3

-- `from_le_bytes`
abbrev pub from_byte : ℕ → FileType
from_byte b =
    if b == 0 then file else if b == 1 then directory else if b == 2 then symlink else unknown

-- The derived `PartialEq`.
abbrev pub is : FileType → FileType → Bool
is a b = to_byte a == to_byte b

pub is-eq : (a b : FileType) → is a b ≡ true → a ≡ b
is-eq file file h = refl
is-eq directory directory h = refl
is-eq symlink symlink h = refl
is-eq unknown unknown h = refl
is-eq file directory h = cc
is-eq file symlink h = cc
is-eq file unknown h = cc
is-eq directory file h = cc
is-eq directory symlink h = cc
is-eq directory unknown h = cc
is-eq symlink file h = cc
is-eq symlink directory h = cc
is-eq symlink unknown h = cc
is-eq unknown file h = cc
is-eq unknown directory h = cc
is-eq unknown symlink h = cc

pub from_byte-to_byte : (t : FileType) → from_byte (to_byte t) ≡ t
from_byte-to_byte file = refl
from_byte-to_byte directory = refl
from_byte-to_byte symlink = refl
from_byte-to_byte unknown = refl
