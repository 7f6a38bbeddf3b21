-- ===== src/Qcow2.antt =====
-- components/server/qcow2.go: the test for QCOW2 volumes. A file is its bytes, and a read of a
-- regular file fills the buffer as far as the file goes.
pub mod Accepts
use Prim.Native.Nat.{min}
use corectl.Base.{
  ℕ, zero, suc, ◌+◌, ◌*◌, ◌-◌, ◌^◌, Bool, true, false, not, ◌&&◌, Option, none, some, List, [], ◌∷◌,
  ◌++◌, Text, ◌=t◌, length, take, drop, ltb, leb, ◌==◌, if◌then◌else◌,
}

-- `ErrFileIsNotQCOW2`, the error of a read, and the one for a short read
pub data Qcow2Error : Type 0 where
  not_qcow2 read_error short_read : Qcow2Error

abbrev pub magic : Text
magic = 0x51 ∷ 0x46 ∷ 0x49 ∷ 0xfb ∷ []

abbrev pub v2_header_size : ℕ
v2_header_size = 72

-- `104 - V2HeaderSize` in the library
abbrev pub v3_header_size : ℕ
v3_header_size = 32

unfoldable pub zeros : ℕ → Text
zeros zero = []
zeros (suc n) = 0 ∷ zeros n

-- `fh.Read(buf)` for a buffer of `n` bytes: how many it reads, or end of file.
unfoldable pub read_size : ℕ → Text → Option ℕ
read_size n rest =
    if n == 0 then some 0 else if length rest == 0 then none else some (min n (length rest))

-- The buffer after the first read: what the file does not fill stays zero.
unfoldable pub fill : ℕ → Text → Text
unfolding zeros
fill n file = take n (file ++ zeros n)

-- `be32` of the bytes from an offset; bytes are below 256.
be32_of : Text → ℕ
be32_of (a ∷ b ∷ c ∷ d ∷ s) = ((a * 256 + b) * 256 + c) * 256 + d
be32_of _ = 0

unfoldable pub be32 : ℕ → Text → ℕ
unfolding be32_of
be32 offset buf = be32_of (drop offset buf)

-- The last read: the header's own length once more.
unfoldable pub read_extension : ℕ → Text → Option Qcow2Error
unfolding read_size
read_extension header_length rest = elim (read_size header_length rest) [
  | none ↦ some read_error
  | some size ↦ if ltb size header_length then some short_read else none
]

-- The part for version 3, and what follows it.
unfoldable pub validate_v3 : Text → Option Qcow2Error
unfolding read_size read_extension
validate_v3 rest = elim (read_size v3_header_size rest) [
  | none ↦ some read_error
  | some size ↦
      if ltb size v3_header_size
      then some short_read
      else read_extension (be32 28 rest) (drop v3_header_size rest)
]

-- The test of the magic number and what follows it, once `size` bytes are read.
check_header : ℕ → Text → Text → Option Qcow2Error
unfolding read_extension validate_v3
check_header size buf file =
    if leb v2_header_size size && not (take 4 buf =t magic)
    then some not_qcow2
    else if be32 4 buf == 3
    then validate_v3 (drop v2_header_size file)
    else read_extension v2_header_size (drop v2_header_size file)

on_read : Text → Option ℕ → Option Qcow2Error
unfolding check_header
on_read file none = some read_error
on_read file (some size) = check_header size (fill v2_header_size file) file

-- `ValidateQcow2`
unfoldable pub validate_qcow2 : Text → Option Qcow2Error
unfolding on_read read_size
validate_qcow2 file = on_read file (read_size v2_header_size file)
