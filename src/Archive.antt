-- ===== src/Archive.antt =====
-- planck-c/archive.c: JAR files, on top of libzip.
use planck.Prelude.{
  ℕ, ◌+◌, Bool, true, false, not, Option, none, some, Bytes, codes, ◌++◌, take, if◌then◌else◌,
}

-- What libzip answers for the archive at a path: whether `zip_open` succeeds, the size and the
-- time that `zip_stat` finds for a name, whether `zip_fopen` succeeds, what the block holds after
-- a `zip_fread` that does not fail, and `zip_strerror`. `malloc` tells whether a block of a size
-- is to be had.
pub record Zip : Type 0 where
  pub opens : Bool
  pub stat : Bytes → Option (ℕ × ℕ)
  pub fopen : Bytes → Bool
  pub malloc : ℕ → Bool
  pub fread : Bytes → ℕ → Option Bytes
  pub strerror : Bytes

-- `contents_zip_t` (its length is that of the payload, without the zero behind it), and what the
-- two pointers among the arguments are set to: `none` where they are left alone.
pub record Zipped : Type 0 where
  pub payload : Option Bytes
  pub last_modified : Option ℕ
  pub error_msg : Option Bytes

abbrev failed : Option ℕ → Option Bytes → Zipped
failed t message = record { payload = none; last_modified = t; error_msg = message }

abbrev in_block : Zip → Bytes → Option Bytes
in_block zip message = if zip.malloc 1024 then some (take 1023 message) else none

-- Whether there is an archive, and the message.
unfoldable pub open_archive : Zip → Bytes → Bool × Option Bytes
open_archive zip path =
    if zip.opens then (true, none) else (false, in_block zip (codes "Could not open " ++ path))

unfoldable pub format_zip_error : Bytes → Zip → Option Bytes
format_zip_error prefix zip = in_block zip (prefix ++ (codes ": " ++ zip.strerror))

abbrev after_fread : Option Bytes → ℕ → Zip → Zipped
after_fread none mtime zip = failed (some mtime) (format_zip_error (codes "zip_fread") zip)
after_fread (some bytes) mtime zip = record {
  payload = some bytes;
  last_modified = some mtime;
  error_msg = none;
}

abbrev after_stat : Option (ℕ × ℕ) → Zip → Bytes → Zipped
after_stat none zip name = failed none none
after_stat (some (size, mtime)) zip name =
    if not (zip.fopen name)
    then failed none (format_zip_error (codes "zip_fopen") zip)
    else if zip.malloc (size + 1)
    then after_fread (zip.fread name size) mtime zip
    else failed (some mtime) (some (codes "zip malloc"))

unfoldable pub get_contents_zip : Zip → Bytes → Zipped
unfolding format_zip_error
get_contents_zip zip name = after_stat (zip.stat name) zip name
