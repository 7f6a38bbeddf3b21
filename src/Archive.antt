-- ===== src/Archive.antt =====
-- components/host/darwin/misc/image/image.go: archives in the cpio format. A reader is what `Next`
-- answers call by call; a writer is what the cpio library makes of the writes.
pub mod Copies
use corectl.Base.{
  ℕ, Bool, true, false, ◌&&◌, Option, none, some, List, [], ◌∷◌, ◌++◌, Text, codes, ◌=t◌, length,
  if◌then◌else◌, Result, ok, err,
}
use corectl.Daemon.{Error, other}

-- `cpio.Header`. `type` is `TYPE_DIR`, `TYPE_REG` or another one.
pub data FileType : Type 0 where
  dir reg special : FileType

pub record Header : Type 0 where
  pub name : Text
  pub mode : ℕ
  pub mtime : ℕ
  pub size : ℕ
  pub file_type : FileType

-- What can be read of a member's content, and the error that ends it, if one does.
pub record Member : Type 0 where
  pub header : Header
  pub content : Text
  pub broken : Option Error

abbrev pub is_dir : FileType → Bool
is_dir dir = true
is_dir _ = false

-- `NewReader` and `Close` of a reader, given what the gzip library answers.
unfoldable pub new_reader : {Z R : Type 0} → (Z → R) → Result Error Z → Result Error R
new_reader reader (err e) = err e
new_reader reader (ok z) = ok (reader z)

-- `Writer.Close`: the archive, and then the compressed stream. What was closed, and the error.
unfoldable pub close_writer : Option Error → Option Error → (Bool × Bool) × Option Error
close_writer (some e) gzip = ((true, false), some e)
close_writer none gzip = ((true, true), gzip)

-- The two calls of the cpio library, for a writer in `D`; `is_trailer` is `Header.IsTrailer`.
module _ {D : Type 0} (write_header : Header → D → D × Option Error)
    (write : Text → D → D × Option Error) where
  abbrev then_do : D × Option Error → (D → D × Option Error) → D × Option Error
  then_do (d, none) f = f d
  then_do (d, some e) f = (d, some e)

  -- `io.Copy`: all that can be read is written, and then an error of the reader shows.
  abbrev copy_content : Member → D → D × Option Error
  copy_content m d = then_do (write m.content d) λ d'. (d', m.broken)

  -- The loop of `Copy`, up to the trailer. After the last member `Next` fails with `io.EOF`.
  unfoldable pub copy_members : (Header → Bool) → List (Result Error Member) → D → D × Option Error
  copy_members is_trailer [] d = (d, some other)
  copy_members is_trailer (err e ∷ ms) d = (d, some e)
  copy_members is_trailer (ok m ∷ ms) d =
      let rest = copy_members is_trailer ms in
      if is_trailer m.header
      then (d, none)
      else if is_dir m.header.file_type
      then (if m.header.name =t codes "." then rest d else then_do (write_header m.header d) rest)
      else then_do (then_do (write_header m.header d) (copy_content m)) rest

  -- `WriteToFile` at a time
  unfoldable pub write_to_file : ℕ → Text → Text → ℕ → D → D × Option Error
  write_to_file now content name mode d =
      let h : Header = record {
        name = name;
        mode = mode;
        mtime = now;
        size = length content;
        file_type = reg;
      } in
      then_do (write_header h d) (write content)

  -- `WriteDir` at a time
  unfoldable pub write_dir : ℕ → Text → ℕ → D → D × Option Error
  write_dir now name mode d =
      write_header (record { name = name; mode = mode; mtime = now; size = 0; file_type = dir }) d
