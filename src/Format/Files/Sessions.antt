-- ===== src/Format/Files/Sessions.antt =====
-- Sequences of operations on open files.
use ferris_file_system.Prelude.{
  ℕ, ◌+◌, ◌<◌, ◌≤◌, ◌≡◌, refl, false, none, List, [], arith, ltb, ◌==◌, by_cases, add32, u32_mod,
}
use ferris_file_system.FsError.{file_not_open}
use ferris_file_system.Effect.{Run, err}
use ferris_file_system.Effect.Keeps.{Keeps, kept, kept_err, chain}
use ferris_file_system.Effect.Leaves.{Leaves, Keeps-Leaves}
use ferris_file_system.Device.{BlockDevice}
use ferris_file_system.File.{file}
use ferris_file_system.File
use ferris_file_system.Bitmap.{is_allocated}
use ferris_file_system.InodeTable.{read_inode}
use ferris_file_system.OpenFiles.{FileMetadata, Table, insert, remove}
use ferris_file_system.Format.{Volume}
use ferris_file_system.Format.Files.{
  SeekFrom, opened, create_handle, open_file_from_inode, close_file, read, write, seek, truncate,
}
use ferris_file_system.Format.Files.Handles.{
  on_device_keeps, read_keeps, write_keeps, seek_keeps, truncate_keeps,
}

-- Handles are given out in order: none from the next one on is in use.
abbrev pub Below : ℕ → Table → Type 0
Below next t = (id : ℕ) → next ≤ id → t id ≡ none

insert-Below :
    (next : ℕ) (t : Table) (id : ℕ) (md : FileMetadata)
    → Below next t
    → id < next
    → Below next (insert id md t)
unfolding insert
insert-Below next t id md below lt j le =
    let other : (id == j) ≡ false = ground (arith, lt, le) in rw other (below j le)

remove-Below : (next : ℕ) (t : Table) (id : ℕ) → Below next t → Below next (remove id t)
unfolding remove
remove-Below next t id below j le = by_cases (id == j) (λ e. rw e refl) (λ e. rw e (below j le))

next-Below :
    (next : ℕ) (t : Table) (md : FileMetadata) → Below next t → Below (next + 1) (insert next md t)
unfolding insert
next-Below next t md below j le =
    let other : (next == j) ≡ false = ground (arith, le) in rw other (below j (omega (arith, le)))

moves :
    (id next : ℕ) (t : Table) (md : FileMetadata)
    → Below next t × (id < next)
    → Below next (insert id md t) × (id < next)
moves id next t md (below, lt) = (insert-Below next t id md below lt, lt)

module _ {D : Type 0} (dev : BlockDevice D) where
  -- One operation, whether it succeeds or fails. A handle is a `u32`, and there is a next one.
  pub data FileStep : Volume D → Volume D → Type 0 where
    opening :
        {v v' : Volume D} (inode_ind : ℕ)
        → v.format.next_file_id + 1 < u32_mod
        → Leaves (open_file_from_inode dev inode_ind v) v'
        → FileStep v v'
    closing : {v v' : Volume D} (id : ℕ) → Leaves (close_file id v) v' → FileStep v v'
    reading :
        {v v' : Volume D} (id : ℕ) (buf : List ℕ) → Leaves (read dev id buf v) v' → FileStep v v'
    writing :
        {v v' : Volume D} (id now : ℕ) (buf : List ℕ)
        → Leaves (write dev now id buf v) v'
        → FileStep v v'
    seeking :
        {v v' : Volume D} (id : ℕ) (pos : SeekFrom) → Leaves (seek dev id pos v) v' → FileStep v v'
    truncating :
        {v v' : Volume D} (id now size : ℕ) → Leaves (truncate dev now id size v) v' → FileStep v v'

  pub data FileSteps : Volume D → Volume D → Type 0 where
    stop : {v : Volume D} → FileSteps v v
    step : {v v' v'' : Volume D} → FileStep v v' → FileSteps v' v'' → FileSteps v v''

  module _ (id : ℕ) (v : Volume D) (closed : v.format.open_files id ≡ none) where
    closed_lem : opened id v ≡ err (file_not_open id) v
    unfolding opened
    closed_lem = rw (opened, closed) refl

    -- `read`, `write`, `seek` and `truncate` on a handle that is not open fail with `FileNotOpen` and
    -- change nothing.
    pub closed_handle :
        (now size : ℕ) (buf : List ℕ) (pos : SeekFrom)
        → (read dev id buf v ≡ err (file_not_open id) v)
          × ((write dev now id buf v ≡ err (file_not_open id) v)
              × ((seek dev id pos v ≡ err (file_not_open id) v)
                  × (truncate dev now id size v ≡ err (file_not_open id) v)))
    unfolding read write seek truncate
    closed_handle now size buf pos =
        (rw closed_lem refl, (rw closed_lem refl, (rw closed_lem refl, rw closed_lem refl)))

  abbrev pub HandlesBelow : Volume D → Type 0
  HandlesBelow v = Below v.format.next_file_id v.format.open_files

  -- Either the handle is one that was given out, or nothing is done.
  through_handle :
      {A : Type 0} (id : ℕ) (v v' : Volume D) (r : Run (Volume D) A)
      → HandlesBelow v
      → (id < v.format.next_file_id
          → Keeps
              (λ w. Below w.format.next_file_id w.format.open_files × (id < w.format.next_file_id))
              r)
      → (v.format.open_files id ≡ none → r ≡ err (file_not_open id) v)
      → Leaves r v'
      → HandlesBelow v'
  through_handle id v v' r below open_case closed_case left =
      by_cases (ltb id v.format.next_file_id)
        (λ e. (Keeps-Leaves (open_case (ground (arith, e))) left).0)
        λ e.
          let shut = closed_case (below id (ground (arith, e))) in
          Keeps-Leaves {I = HandlesBelow} (rw shut (kept_err below)) left

  abbrev WithNext : ℕ → Table → Type 0
  WithNext next t = Below next t × (next + 1 < u32_mod)

  open_file-HandlesBelow :
      (inode_ind : ℕ) (v : Volume D)
      → v.format.next_file_id + 1 < u32_mod
      → HandlesBelow v
      → Keeps HandlesBelow (open_file_from_inode dev inode_ind v)
  unfolding open_file_from_inode create_handle
  open_file-HandlesBelow inode_ind v lt below =
      chain
        (on_device_keeps WithNext (is_allocated dev v.format.inode_allocator inode_ind) v
          (below, lt))
        (λ s (k, _). k)
        λ allocated v1 (k1, lt1).
          by_cases allocated
            (λ e. rw e (
              chain
                (on_device_keeps WithNext (read_inode dev v.format.inode_handler inode_ind) v1
                  (k1, lt1))
                (λ s (k, _). k)
                λ inode v2 (k2, lt2).
                  by_cases (File.is inode.file_type file)
                    (λ e'. rw e' (
                      let at : add32 v2.format.next_file_id 1 ≡ v2.format.next_file_id + 1 =
                        omega (arith, lt2) in
                      kept (rw at (next-Below _ _ _ k2))))
                    λ e'. rw e' (kept_err k2)))
            λ e. rw e (kept_err k1)

  step-HandlesBelow : {v v' : Volume D} → FileStep v v' → HandlesBelow v → HandlesBelow v'
  unfolding close_file
  step-HandlesBelow {v = v} (opening i lt left) below =
      Keeps-Leaves (open_file-HandlesBelow i v lt below) left
  step-HandlesBelow {v = v} (closing id left) below =
      Keeps-Leaves {I = HandlesBelow} (kept (remove-Below _ _ id below)) left
  step-HandlesBelow {v = v} {v' = v'} (reading id buf left) below =
      through_handle id v v' (read dev id buf v) below
        (λ lt. read_keeps dev _ id (moves id) buf v (below, lt))
        (λ e. (closed_handle id v e 0 0 buf (SeekFrom.start 0)).0) left
  step-HandlesBelow {v = v} {v' = v'} (writing id now buf left) below =
      through_handle id v v' (write dev now id buf v) below
        (λ lt. write_keeps dev _ id (moves id) now buf v (below, lt))
        (λ e. (closed_handle id v e now 0 buf (SeekFrom.start 0)).1.0) left
  step-HandlesBelow {v = v} {v' = v'} (seeking id pos left) below =
      through_handle id v v' (seek dev id pos v) below
        (λ lt. seek_keeps dev _ id (moves id) pos v (below, lt))
        (λ e. (closed_handle id v e 0 0 [] pos).1.1.0) left
  step-HandlesBelow {v = v} {v' = v'} (truncating id now size left) below =
      through_handle id v v' (truncate dev now id size v) below
        (λ lt. truncate_keeps dev _ id (moves id) now size v (below, lt))
        (λ e. (closed_handle id v e now size [] (SeekFrom.start 0)).1.1.1) left

  -- After any sequence of opening, closing, reading, writing, seeking and truncating, whether these
  -- succeed or fail, no handle from the next one on is in use, if none was before and the handles did
  -- not run out.
  pub steps-HandlesBelow : {v v' : Volume D} → FileSteps v v' → HandlesBelow v → HandlesBelow v'
  steps-HandlesBelow stop below = below
  steps-HandlesBelow (step s rest) below = steps-HandlesBelow rest (step-HandlesBelow s below)
