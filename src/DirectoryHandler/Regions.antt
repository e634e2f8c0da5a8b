-- ===== src/DirectoryHandler/Regions.antt =====
-- A block of entries, some bytes of which are changed.
use ferris_file_system.Prelude.{
  ℕ, ◌+◌, ◌-◌, ◌<◌, ◌≤◌, ◌≡◌, ◌≢◌, refl, sym, ap, ◌∙◌, min, Option, none, some, List, [], ◌∷◌, ◌++◌,
  arith, get_or, get_or-replicate, take, replicate, ltb, by_cases, All,
}
use ferris_file_system.Device.{Block, IsBlock}
use ferris_file_system.Codec.{write_at, slice, write_fields, read_field, from_le_bytes}
use ferris_file_system.Codec.Slices.{write_at-IsBlock, slice-byte}
use ferris_file_system.Codec.Fields.{write_fields-IsBlock}
use ferris_file_system.Directory.{
  DirEntry, is_free, free_fields, entry_fields, fill, serialize, deserialize,
}
use ferris_file_system.DirectoryHandler.Layouts.{Layout, whole, more}

-- A block, if there is any.
data Blocks : Option Block → Type 0 where
  gone : Blocks none
  block : {b : Block} → IsBlock b → Blocks (some b)

Blocks-some : {b : Block} → Blocks (some b) → IsBlock b
Blocks-some (block ib) = ib

zeros-byte : (n i : ℕ) → get_or (replicate n 0) i 0 < 256
zeros-byte n i = rw (get_or-replicate {A = ℕ} n i 0) (omega arith)

take-byte :
    (xs : List ℕ) (n : ℕ) → ((i : ℕ) → get_or xs i 0 < 256) → (i : ℕ) → get_or (take n xs) i 0 < 256
unfolding slice
take-byte xs n bytes = slice-byte xs 0 n bytes

fill-Blocks : (e : DirEntry) (i : ℕ) (buf : Block) (o : ℕ) → IsBlock buf → Blocks (fill e i buf o)
unfolding fill
fill-Blocks e i buf o ib =
    by_cases (ltb (i + e.record_len) o) (λ t. rw t gone)
      λ t.
        by_cases (ltb 256 (i + e.record_len)) (λ t'. rw (t, t') gone)
          λ t'. rw (t, t') (block (write_at-IsBlock buf o _ ib (zeros-byte (i + e.record_len - o))))

serialize-Blocks :
    (e : DirEntry) (buf : Block) (o : ℕ)
    → IsBlock buf
    → ((i : ℕ) → get_or e.name i 0 < 256)
    → Blocks (serialize e buf o)
unfolding serialize
serialize-Blocks e buf o ib bytes =
    by_cases (is_free e)
      (λ t. rw t (
        fill-Blocks e o (write_fields buf o (free_fields e)) (o + 6)
          (write_fields-IsBlock (free_fields e) buf o ib)))
      λ t.
        by_cases (ltb 64 e.name_len) (λ t'. rw (t, t') gone)
          λ t'.
            rw (t, t')
              (fill-Blocks e o
                (write_at (write_fields buf o (entry_fields e)) (o + 9) (take e.name_len e.name))
                (o + 9 + e.name_len)
                (write_at-IsBlock _ (o + 9) (take e.name_len e.name)
                  (write_fields-IsBlock (entry_fields e) buf o ib)
                  (take-byte e.name e.name_len bytes)))

pub serialize-IsBlock :
    (e : DirEntry) (buf : Block) (o : ℕ) (image : Block)
    → IsBlock buf
    → ((i : ℕ) → get_or e.name i 0 < 256)
    → serialize e buf o ≡ some image
    → IsBlock image
serialize-IsBlock e buf o image ib bytes at =
    let blocks : Blocks (some image) = rw⁻¹ at (serialize-Blocks e buf o ib bytes) in
    Blocks-some blocks

-- What stands from an offset on is read from the bytes from there on.
pub deserialize_suffix :
    (buf buf' : Block) (o : ℕ)
    → ((p k : ℕ) → o ≤ p → slice buf' p k ≡ slice buf p k)
    → deserialize buf' o ≡ deserialize buf o
unfolding deserialize read_field
deserialize_suffix buf buf' o same =
    rw
      (
        same o 4 (omega arith),
        same (o + 4) 2 (omega arith),
        same (o + 6) 2 (omega arith),
        same (o + 8) 1 (omega arith),
        same (o + 9) (min (min (from_le_bytes (slice buf (o + 6) 2)) (256 - (o + 9))) 64)
            (omega arith),
      )
      refl

name_len_of : Option DirEntry → ℕ → ℕ
name_len_of none n = n
name_len_of (some e) n = e.name_len

name_len_lem :
    (buf : Block) (o : ℕ) (e : DirEntry)
    → deserialize buf o ≡ some e
    → from_le_bytes (slice buf (o + 6) 2) ≡ e.name_len
unfolding deserialize read_field name_len_of
name_len_lem buf o e at =
    let n = from_le_bytes (slice buf (o + 6) 2) in
    let read : name_len_of (deserialize buf o) n ≡ n =
      by_cases (ltb 256 (o + 9)) (λ t. rw t refl) λ t. rw t refl in
    sym read ∙ ap (λ x. name_len_of x n) at

-- An entry whose name fits its record is read from the bytes of the record.
pub deserialize_prefix :
    (buf buf' : Block) (o : ℕ) (e : DirEntry)
    → deserialize buf o ≡ some e
    → 9 + e.name_len ≤ e.record_len
    → ((p k : ℕ) → p + k ≤ o + e.record_len → slice buf' p k ≡ slice buf p k)
    → deserialize buf' o ≡ some e
unfolding deserialize read_field
deserialize_prefix buf buf' o e at tight same =
    let n = from_le_bytes (slice buf (o + 6) 2) in
    let name_len = name_len_lem buf o e at in
    rw
      (
        same o 4 (omega (arith, tight)),
        same (o + 4) 2 (omega (arith, tight)),
        same (o + 6) 2 (omega (arith, tight)),
        same (o + 8) 1 (omega (arith, tight)),
        same (o + 9) (min (min n (256 - (o + 9))) 64) (omega (arith, tight, name_len)),
      )
      at

pub Layout-suffix :
    (buf buf' : Block) (o : ℕ) (entries : List (DirEntry × ℕ))
    → Layout buf o entries
    → ((p k : ℕ) → o ≤ p → slice buf' p k ≡ slice buf p k)
    → Layout buf' o entries
Layout-suffix buf buf' _ [] whole same = whole
Layout-suffix buf buf' o ((e, _) ∷ rest) (more at pos fits next) same =
    more (deserialize_suffix buf buf' o same ∙ at) pos fits
      (Layout-suffix buf buf' (o + e.record_len) rest next λ p k le. same p k (omega (arith, le)))

-- The name of an entry fits its record.
abbrev pub IsTight : DirEntry × ℕ → Type 0
IsTight (e, offset) = 9 + e.name_len ≤ e.record_len

middle-le :
    (buf : Block) (o at : ℕ) (before after : List (DirEntry × ℕ)) (e : DirEntry)
    → Layout buf o (before ++ (e, at) ∷ after)
    → o ≤ at
middle-le buf o at [] after e (more _ pos fits next) = omega arith
middle-le buf o at ((e', _) ∷ before) after e (more _ pos fits next) =
    omega (arith, middle-le buf (o + e'.record_len) at before after e next)

-- The entries from one of them on.
Layout-middle :
    (buf : Block) (o at : ℕ) (before after : List (DirEntry × ℕ)) (e : DirEntry)
    → Layout buf o (before ++ (e, at) ∷ after)
    → Layout buf at ((e, at) ∷ after)
Layout-middle buf o at [] after e (more got pos fits next) = more got pos fits next
Layout-middle buf o at ((e', _) ∷ before) after e (more _ pos fits next) =
    Layout-middle buf (o + e'.record_len) at before after e next

-- New entries from the offset of one entry on, when the bytes before it stay.
pub Layout-replace :
    (buf buf' : Block) (o at : ℕ) (before after new : List (DirEntry × ℕ)) (e : DirEntry)
    → Layout buf o (before ++ (e, at) ∷ after)
    → All IsTight before
    → ((p k : ℕ) → p + k ≤ at → slice buf' p k ≡ slice buf p k)
    → Layout buf' at new
    → Layout buf' o (before ++ new)
Layout-replace buf buf' o at [] after new e (more _ pos fits next) tight same layout = layout
Layout-replace buf buf' o at ((e', _) ∷ before) after new e (more got pos fits next) tight same
      layout =
    let le = middle-le buf (o + e'.record_len) at before after e next in
    more (deserialize_prefix buf buf' o e' got tight.0 λ p k lt. same p k (omega (arith, lt, le)))
      pos fits
      (Layout-replace buf buf' (o + e'.record_len) at before after new e next tight.1 same layout)

-- What the first entry of a layout satisfies.
pub record First (buf : Block) (o : ℕ) (e : DirEntry) (rest : List (DirEntry × ℕ)) : Type 0 where
  pub got : deserialize buf o ≡ some e
  pub positive : e.record_len ≢ 0
  pub fits : o + e.record_len ≤ 256
  pub next : Layout buf (o + e.record_len) rest

Layout-First :
    (buf : Block) (o at : ℕ) (e : DirEntry) (rest : List (DirEntry × ℕ))
    → Layout buf o ((e, at) ∷ rest)
    → First buf o e rest
Layout-First buf o _ e rest (more got pos fits next) = record {
  got = got;
  positive = pos;
  fits = fits;
  next = next;
}

pub middle-First :
    (buf : Block) (o at : ℕ) (before after : List (DirEntry × ℕ)) (e : DirEntry)
    → Layout buf o (before ++ (e, at) ∷ after)
    → First buf at e after
middle-First buf o at before after e layout =
    Layout-First buf at at e after (Layout-middle buf o at before after e layout)
