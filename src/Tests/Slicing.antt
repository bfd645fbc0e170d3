-- ===== src/Tests/Slicing.antt =====
-- A file of five bytes in two parts.
use resumable_upload.Prelude.{
  ◌+◌, ◌-◌, ◌≤◌, ◌≡◌, refl, [], ◌∷◌, Bytes, length, take, drop, min, arith,
}
use resumable_upload.Client.Protocol.{split_boundaries, split_from}
use resumable_upload.Client.Protocol.Ranges.{Covers, split_boundaries-Covers}
use resumable_upload.Client.FileSlice.{open_slice, readinto}
use resumable_upload.Client.FileSlice.Slices.{
  slices, slices-split_boundaries, IsPlaced, readinto_lem,
}

abbrev file : Bytes
file = 1 ∷ 2 ∷ 3 ∷ 4 ∷ 5 ∷ []

two_parts : split_boundaries 5 2 ≡ (0, 2) ∷ (2, 5) ∷ []
unfolding split_boundaries split_from
two_parts = refl

split_boundaries-Covers_example :
    Covers 0 (split_boundaries 5 2) 5 × (length (split_boundaries 5 2) ≤ 2)
split_boundaries-Covers_example = split_boundaries-Covers 5 2 (omega arith) (omega arith)

slices-split_boundaries_example : slices file (split_boundaries (length file) 2) ≡ file
slices-split_boundaries_example = slices-split_boundaries file 2 (omega arith) (omega arith)

readinto_lem_example :
    let (bytes, s') = readinto 2 (open_slice file 2 3) in
    (bytes ≡ take (min 2 (3 - 0)) (drop 0 (drop 2 file)))
    × (s'.here ≡ 0 + length bytes)
    × IsPlaced s'
readinto_lem_example = readinto_lem 2 (open_slice file 2 3) (refl, omega arith)
