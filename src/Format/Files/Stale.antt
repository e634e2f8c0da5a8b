-- ===== src/Format/Files/Stale.antt =====
-- Handles of src/formats/v1/format.rs that were closed.
use ferris_file_system.Prelude.{
  ℕ, ◌+◌, ◌<◌, ◌≡◌, ◌≢◌, refl, true, false, none, List, [], arith, ◌==◌, by_cases, add32, u32_mod,
}
use ferris_file_system.FsError.{file_not_open}
use ferris_file_system.Effect.{Run, err}
use ferris_file_system.Effect.Keeps.{Keeps, kept, kept_err, chain}
use ferris_file_system.Effect.Leaves.{Leaves, Keeps-Leaves}
use ferris_file_system.Device.{BlockDevice}
use ferris_file_system.File.{file}
use ferris_file_system.File
use ferris_file_system.Bitmap.{is_allocated}
use ferris_file_system.InodeTable.{read_inode}
use ferris_file_system.OpenFiles.{FileMetadata, Table, insert, remove}
use ferris_file_system.Format.{Volume}
use ferris_file_system.Format.Files.{
  SeekFrom, create_handle, open_file_from_inode, close_file, read, write, seek, truncate,
}
use ferris_file_system.Format.Files.Handles.{
  on_device_keeps, read_keeps, write_keeps, seek_keeps, truncate_keeps,
}
use ferris_file_system.Format.Files.Sessions.{
  FileStep, opening, closing, reading, writing, seeking, truncating, FileSteps, stop, step,
  closed_handle,
}

-- The handle was given out, and is not open.
abbrev Closed : ℕ → ℕ → Table → Type 0
Closed id next t = (t id ≡ none) × (id < next)

insert_other :
    (id j next : ℕ) (t : Table) (md : FileMetadata)
    → j ≢ id
    → Closed id next t
    → Closed id next (insert j md t)
unfolding insert
insert_other id j next t md ne (none_there, lt) =
    let other : (j == id) ≡ false = ground (arith, ne) in (rw other none_there, lt)

remove-Closed : (id j next : ℕ) (t : Table) → Closed id next t → Closed id next (remove j t)
unfolding remove
remove-Closed id j next t (none_there, lt) =
    by_cases (j == id) (λ e. (rw e refl, lt)) λ e. (rw e none_there, lt)

module _ {D : Type 0} (dev : BlockDevice D) (id : ℕ) where
  abbrev IsClosed : Volume D → Type 0
  IsClosed v = Closed id v.format.next_file_id v.format.open_files

  abbrev WithNext : ℕ → Table → Type 0
  WithNext next t = Closed id next t × (next + 1 < u32_mod)

  -- A handle that is given out is a new one.
  open_file-IsClosed :
      (inode_ind : ℕ) (v : Volume D)
      → v.format.next_file_id + 1 < u32_mod
      → IsClosed v
      → Keeps IsClosed (open_file_from_inode dev inode_ind v)
  unfolding open_file_from_inode create_handle
  open_file-IsClosed inode_ind v small closed =
      chain
        (on_device_keeps WithNext (is_allocated dev v.format.inode_allocator inode_ind) v
          (closed, small))
        (λ s (k, _). k)
        λ allocated v1 (k1, small1).
          by_cases allocated
            (λ e. rw e (
              chain
                (on_device_keeps WithNext (read_inode dev v.format.inode_handler inode_ind) v1
                  (k1, small1))
                (λ s (k, _). k)
                λ inode v2 (k2, small2).
                  by_cases (File.is inode.file_type file)
                    (λ e'. rw e' (
                      let at : add32 v2.format.next_file_id 1 ≡ v2.format.next_file_id + 1 =
                        omega (arith, small2) in
                      let (none_there, _) =
                        insert_other id v2.format.next_file_id v2.format.next_file_id
                          v2.format.open_files _ (λ e. omega (arith, e, k2.1)) k2 in
                      kept (rw at (none_there, omega (arith, k2.1)))))
                    λ e'. rw e' (kept_err k2)))
            λ e. rw e (kept_err k1)

  -- An operation on a handle: on another one, or on this one, where nothing is done.
  on_handle :
      {A : Type 0} (j : ℕ) (v v' : Volume D) (r : Run (Volume D) A)
      → IsClosed v
      → (j ≢ id → Keeps IsClosed r)
      → (v.format.open_files j ≡ none → r ≡ err (file_not_open j) v)
      → Leaves r v'
      → IsClosed v'
  on_handle j v v' r closed other_case closed_case left =
      by_cases (j == id)
        (λ e.
          let same : j ≡ id = ground (arith, e) in
          let shut = closed_case (rw same closed.0) in
          Keeps-Leaves {I = IsClosed} (rw shut (kept_err closed)) left)
        λ e. Keeps-Leaves (other_case (ground (arith, e))) left

  step-IsClosed : {v v' : Volume D} → FileStep dev v v' → IsClosed v → IsClosed v'
  unfolding close_file
  step-IsClosed {v = v} (opening i small left) closed =
      Keeps-Leaves (open_file-IsClosed i v small closed) left
  step-IsClosed {v = v} (closing j left) closed =
      Keeps-Leaves {I = IsClosed}
        (kept (remove-Closed id j v.format.next_file_id v.format.open_files closed)) left
  step-IsClosed {v = v} {v' = v'} (reading j buf left) closed =
      on_handle j v v' (read dev j buf v) closed
        (λ ne.
          read_keeps dev (Closed id) j (λ next t md. insert_other id j next t md ne) buf v closed)
        (λ e. (closed_handle dev j v e 0 0 buf (SeekFrom.start 0)).0) left
  step-IsClosed {v = v} {v' = v'} (writing j now buf left) closed =
      on_handle j v v' (write dev now j buf v) closed
        (λ ne.
          write_keeps dev (Closed id) j (λ next t md. insert_other id j next t md ne) now buf v
            closed)
        (λ e. (closed_handle dev j v e now 0 buf (SeekFrom.start 0)).1.0) left
  step-IsClosed {v = v} {v' = v'} (seeking j pos left) closed =
      on_handle j v v' (seek dev j pos v) closed
        (λ ne.
          seek_keeps dev (Closed id) j (λ next t md. insert_other id j next t md ne) pos v closed)
        (λ e. (closed_handle dev j v e 0 0 [] pos).1.1.0) left
  step-IsClosed {v = v} {v' = v'} (truncating j now size left) closed =
      on_handle j v v' (truncate dev now j size v) closed
        (λ ne.
          truncate_keeps dev (Closed id) j (λ next t md. insert_other id j next t md ne) now size v
            closed)
        (λ e. (closed_handle dev j v e now size [] (SeekFrom.start 0)).1.1.1) left

  steps-IsClosed : {v v' : Volume D} → FileSteps dev v v' → IsClosed v → IsClosed v'
  steps-IsClosed stop closed = closed
  steps-IsClosed (step s rest) closed = steps-IsClosed rest (step-IsClosed s closed)

  close_file-IsClosed :
      (v : Volume D) {w : Volume D}
      → id < v.format.next_file_id
      → Leaves (close_file id v) w
      → IsClosed w
  unfolding close_file remove
  close_file-IsClosed v lt left =
      let self : (id == id) ≡ true = ground arith in
      Keeps-Leaves {I = IsClosed} (kept (rw self refl, lt)) left

  -- A handle that was closed stays closed. After `close_file` of a handle that was given out, and after
  -- any sequence of opening, closing, reading, writing, seeking and truncating, on it or on other handles,
  -- whether these succeed or fail, as long as the handles do not run out, `read`, `write`, `seek` and
  -- `truncate` on it fail with `FileNotOpen` and change nothing.
  pub stale_handle :
      (v : Volume D) {w v' : Volume D}
      → id < v.format.next_file_id
      → Leaves (close_file id v) w
      → FileSteps dev w v'
      → (now size : ℕ) (buf : List ℕ) (pos : SeekFrom)
      → (read dev id buf v' ≡ err (file_not_open id) v')
        × ((write dev now id buf v' ≡ err (file_not_open id) v')
            × ((seek dev id pos v' ≡ err (file_not_open id) v')
                × (truncate dev now id size v' ≡ err (file_not_open id) v')))
  stale_handle v {v' = v'} lt left steps now size buf pos =
      let closed = steps-IsClosed steps (close_file-IsClosed v lt left) in
      closed_handle dev id v' closed.0 now size buf pos
