-- ===== src/Tests/Bitmaps.antt =====
-- The theorems on src/formats/v1/bitmap_allocator.rs at a device of three blocks.
use ferris_file_system.Prelude.{
  ℕ, zero, suc, ◌*◌, ◌<◌, ◌≤◌, ◌≡◌, refl, true, false, not, ◌&&◌, if◌then◌else◌, [], ◌∷◌, arith,
  length, take, count, ltb,
}
use ferris_file_system.Prelude.Bits.{test_bit}
use ferris_file_system.FsError.{StorageFullKind, storage_full}
use ferris_file_system.Effect.Returns.{Returns, Fails}
use ferris_file_system.Device.Memory.{memory_device}
use ferris_file_system.Device.Memory.Laws.{Holds, memory-IsLawful}
use ferris_file_system.Bitmap.{
  BitmapAllocator, allocate, deallocate, is_allocated, find_free, find_allocate, count_allocated,
}
use ferris_file_system.Bitmap.View.{bit_of}
use ferris_file_system.Bitmap.Modify.{
  IsPlaced, Marked, Advanced, allocate-Marked, deallocate-Marked, is_allocated-bit_of,
}
use ferris_file_system.Bitmap.ScanBits.{taken_in}
use ferris_file_system.Bitmap.Find.{candidates, find_free-candidates}
use ferris_file_system.Bitmap.Free.{in_gap, Chosen, find_free-Chosen, find_free_gap}
use ferris_file_system.Bitmap.First.{Taken, find_allocate-Taken, find_allocate_full}
use ferris_file_system.Bitmap.Counting.{allocated, count_allocated-tally}
use ferris_file_system.Tests.{disk, disk_store, disk-Holds}

-- A bitmap in the first two blocks.
abbrev map_ : BitmapAllocator
map_ = record { start = 0; size = 2; max_index = 3000; last_alloc = 7 }

-- One that ends with the full byte.
abbrev full_map : BitmapAllocator
full_map = record map_ { max_index = 8 }

map_-IsPlaced : IsPlaced map_ 3
map_-IsPlaced = record { fits = omega arith; small = omega arith }

full_map-IsPlaced : IsPlaced full_map 3
full_map-IsPlaced = record { fits = omega arith; small = omega arith }

first_bits : (j : ℕ) → j < 8 → bit_of disk_store 0 j ≡ true
unfolding bit_of test_bit
first_bits zero lt = refl
first_bits (suc zero) lt = refl
first_bits (suc (suc zero)) lt = refl
first_bits (suc (suc (suc zero))) lt = refl
first_bits (suc (suc (suc (suc zero)))) lt = refl
first_bits (suc (suc (suc (suc (suc zero))))) lt = refl
first_bits (suc (suc (suc (suc (suc (suc zero)))))) lt = refl
first_bits (suc (suc (suc (suc (suc (suc (suc zero))))))) lt = refl
first_bits (suc (suc (suc (suc (suc (suc (suc (suc j)))))))) lt = absurd (omega arith)

allocate-Marked_example :
    Returns
      (λ a' d'.
        (g : _) × Holds d' g 3
        × Marked memory-IsLawful map_ 3 map_-IsPlaced true (9 ∷ 2100 ∷ []) disk_store g
        × Advanced memory-IsLawful map_ 3 map_-IsPlaced (9 ∷ 2100 ∷ []) a')
      (allocate memory_device map_ (9 ∷ 2100 ∷ []) disk)
allocate-Marked_example =
    allocate-Marked memory-IsLawful map_ 3 map_-IsPlaced (9 ∷ 2100 ∷ []) disk disk_store disk-Holds
      (omega arith, (omega arith, tt))

deallocate-Marked_example :
    Returns
      (λ _ d'.
        (g : _) × Holds d' g 3
        × Marked memory-IsLawful map_ 3 map_-IsPlaced false (3 ∷ 2100 ∷ []) disk_store g)
      (deallocate memory_device map_ (3 ∷ 2100 ∷ []) disk)
deallocate-Marked_example =
    deallocate-Marked memory-IsLawful map_ 3 map_-IsPlaced (3 ∷ 2100 ∷ []) disk disk_store
      disk-Holds (omega arith, (omega arith, tt))

is_allocated-bit_of_example :
    Returns
      (λ yes_no d'.
        Holds d' disk_store 3 × (yes_no ≡ (if ltb 3000 5 then false else bit_of disk_store 0 5)))
      (is_allocated memory_device map_ 5 disk)
is_allocated-bit_of_example =
    is_allocated-bit_of memory-IsLawful map_ 3 map_-IsPlaced 5 disk disk_store disk-Holds
      (omega arith)

find_allocate-Taken_example :
    Returns
      (Taken memory-IsLawful map_ 3 map_-IsPlaced disk_store 8)
      (find_allocate memory_device map_ disk)
unfolding bit_of test_bit
find_allocate-Taken_example =
    find_allocate-Taken memory-IsLawful map_ 3 map_-IsPlaced 8 disk disk_store disk-Holds
      (omega arith) (omega arith) (omega arith) refl first_bits

find_allocate_full_example :
    Fails
      (storage_full StorageFullKind.none 1 0)
      (λ d'. Holds d' disk_store 3)
      (find_allocate memory_device full_map disk)
find_allocate_full_example =
    find_allocate_full memory-IsLawful full_map 3 full_map-IsPlaced disk disk_store disk-Holds
      (omega arith) (λ j _ lt. first_bits j lt)

find_free-Chosen_example :
    Returns
      (λ res d'.
        Holds d' disk_store 3
        × (length res ≤ 5)
        × ((i : ℕ)
            → 0 < count i res
            → Chosen memory-IsLawful map_ 3 map_-IsPlaced disk_store i res))
      (find_free memory_device map_ 5 disk)
find_free-Chosen_example =
    find_free-Chosen memory-IsLawful map_ 3 map_-IsPlaced disk_store 5 disk disk-Holds (omega arith)
      (omega arith)

find_free-candidates_example :
    Returns
      (λ res d'.
        Holds d' disk_store 3
        × (res ≡ take 5 (candidates memory-IsLawful map_ 3 map_-IsPlaced disk_store)))
      (find_free memory_device map_ 5 disk)
find_free-candidates_example =
    find_free-candidates memory-IsLawful map_ 3 map_-IsPlaced disk_store 5 disk disk-Holds
      (omega arith) (omega arith)

-- The last allocation was index 20: the free indices 8 to 15 are not found.
abbrev later_map : BitmapAllocator
later_map = record full_map { max_index = 24; last_alloc = 20 }

later_map-IsPlaced : IsPlaced later_map 3
later_map-IsPlaced = record { fits = omega arith; small = omega arith }

find_free_gap_example :
    Returns
      (λ res d'.
        length res < 20
        → (i : ℕ)
        → count i res ≡ (
            if ltb i (2 * 2048)
              && not (in_gap memory-IsLawful later_map 3 later_map-IsPlaced disk_store i)
              && not (taken_in 24 disk_store 0 i)
            then 1
            else 0))
      (find_free memory_device later_map 20 disk)
find_free_gap_example =
    find_free_gap memory-IsLawful later_map 3 later_map-IsPlaced disk_store 20 disk disk-Holds
      (omega arith) (omega arith)

count_allocated-tally_example :
    Returns
      (λ r d'.
        Holds d' disk_store 3
        × (r ≡ allocated memory-IsLawful map_ 3 map_-IsPlaced disk_store 0 (2 * 2048)))
      (count_allocated memory_device map_ disk)
count_allocated-tally_example =
    count_allocated-tally memory-IsLawful map_ 3 map_-IsPlaced disk_store disk disk-Holds
      (omega arith)
