-- ===== src/Tests/Errors.antt =====
-- The theorems on src/fs_error.rs at concrete errors.
use ferris_file_system.Prelude.{◌≡◌, some}
use ferris_file_system.FsError.{InvalidDirKind, invalid_dir}
use ferris_file_system.FsError.Codes.{category, code}
use ferris_file_system.FsError.Code.{kind_of_error, category-code}

category-code_example :
    category (code (invalid_dir InvalidDirKind.none 3 16))
    ≡ some (kind_of_error (invalid_dir InvalidDirKind.none 3 16))
category-code_example = category-code (invalid_dir InvalidDirKind.none 3 16)
