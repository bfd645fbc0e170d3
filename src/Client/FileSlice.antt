-- ===== src/Client/FileSlice.antt =====
-- resumable_upload/client/_fileslice.py: a view of a byte range of a file.
pub mod Slices
use resumable_upload.Prelude.{
  ℕ, ◌+◌, ◌-◌, ◌≤◌, ◌≡◌, List, [], ◌∷◌, ◌++◌, if◌then◌else◌, leb, ltb, Option, none, some, min,
  Bytes, length, take, drop, ℤ, pos, negsuc,
}

-- `position` is that of the file descriptor, which the view shares with nobody.
pub record FileSlice : Type 0 where
  pub file : Bytes
  pub lo : ℕ
  pub size : ℕ
  pub here : ℕ
  pub position : ℕ

-- FileSlice(path, lo, length)
abbrev pub open_slice : Bytes → ℕ → ℕ → FileSlice
open_slice file lo size = record { file = file; lo = lo; size = size; here = 0; position = lo }

-- max(0, min(new, self._length))
abbrev pub clamp : ℤ → ℕ → ℕ
clamp (pos n) size = min n size
clamp (negsuc _) size = 0

-- seek(pos) from the start of the slice
unfoldable pub seek : ℤ → FileSlice → ℕ × FileSlice
seek new s = let n = clamp new s.size in (n, record s { here = n; position = s.lo + n })

-- io.SEEK_SET, io.SEEK_CUR, io.SEEK_END and any other number
pub data Whence : Type 0 where
  seek_set seek_cur seek_end other_whence : Whence

-- base + pos
abbrev pub shifted : ℕ → ℤ → ℤ
shifted base (pos n) = pos (base + n)
shifted base (negsuc n) = if ltb n base then pos (base - n - 1) else negsuc (n - base)

-- seek(pos, whence); `none` is a ValueError.
unfoldable pub seek_from : Whence → ℤ → FileSlice → Option ℕ × FileSlice
unfolding seek
seek_from seek_set new s = let (n, s') = seek new s in (some n, s')
seek_from seek_cur new s = let (n, s') = seek (shifted s.here new) s in (some n, s')
seek_from seek_end new s = let (n, s') = seek (shifted s.size new) s in (some n, s')
seek_from other_whence new s = (none, s)

-- self._f.read(n)
abbrev read_at : Bytes → ℕ → ℕ → Bytes
read_at file position n = take n (drop position file)

-- readinto(b) for a buffer of `n` bytes: what it puts into the buffer.
unfoldable pub readinto : ℕ → FileSlice → Bytes × FileSlice
readinto n s =
    if leb s.size s.here
    then ([], s)
    else let bytes = read_at s.file s.position (min n (s.size - s.here)) in
      (bytes, record s { here = s.here + length bytes; position = s.position + length bytes })
