-- ===== src/Io/Copy.antt =====
-- io.c: `copy_file_loop`, and the copy that replaces an existing file.
pub mod Complete
use planck.Prelude.{
  ℕ, zero, suc, ◌+◌, ◌-◌, Bool, true, false, not, ◌&&◌, Option, none, some, List, [], ◌∷◌, ◌++◌,
  Bytes, ◌==◌, ltb, if◌then◌else◌, length, take, drop,
}

-- What `read` delivers: blocks of at most 4096 bytes, never empty, and then 0 or -1.
pub data Reads : Type 0 where
  data_block : Bytes → Reads → Reads
  end_of_file read_error : Reads

-- What `write` returns: a count, or -1 with EINTR or another error.
pub data Written : Type 0 where
  wrote : ℕ → Written
  interrupted write_error : Written

-- The inner loop, with the bytes of the block that are left and those that the file holds. The
-- number counts the calls. The flag is `false` at `goto out_error`; `none` is the end of the fuel.
pub record Progress : Type 0 where
  pub calls : ℕ
  pub file : Bytes

module _ (write : ℕ → ℕ → Written) where
  abbrev account : Written → Bytes → Progress → Bytes × Progress × Bool
  account (wrote n) block p =
      (drop n block, record { calls = p.calls + 1; file = p.file ++ take n block }, true)
  account interrupted block p = (block, record p { calls = p.calls + 1 }, true)
  account write_error block p = (block, record p { calls = p.calls + 1 }, false)

  abbrev continue_block :
      Bytes × Progress × Bool
      → (Bytes → Progress → Option (Progress × Bool))
      → Option (Progress × Bool)
  continue_block (left, p, false) loop = some (p, false)
  continue_block ([], p, true) loop = some (p, true)
  continue_block (c ∷ left, p, true) loop = loop (c ∷ left) p

  unfoldable pub write_block : ℕ → Bytes → Progress → Option (Progress × Bool)
  write_block zero block p = none
  write_block (suc fuel) block p =
      continue_block (account (write p.calls (length block)) block p) (write_block fuel)

  abbrev next_block :
      Option (Progress × Bool) → (Progress → Option (Progress × Bool)) → Option (Progress × Bool)
  next_block none loop = none
  next_block (some (p, false)) loop = some (p, false)
  next_block (some (p, true)) loop = loop p

  -- The outer loop; `close` tells whether `close(fd_to)` succeeds.
  unfoldable pub copy_loop : ℕ → Bool → Reads → Progress → Option (Progress × Bool)
  copy_loop fuel close end_of_file p = some (p, close)
  copy_loop fuel close read_error p = some (p, false)
  copy_loop fuel close (data_block block rest) p =
      next_block (write_block fuel block p) (copy_loop fuel close rest)

-- The result of opening the copy with O_CREAT and O_EXCL.
pub data Opened : Type 0 where
  opened : Opened
  already_exists : Opened
  not_opened : Opened

-- What the copy holds at the end, and the result: 0, or -1 with EEXIST or another error.
pub data Copied : Type 0 where
  success : Bytes → Copied
  exists : Copied
  failure : Option Bytes → Copied

abbrev copied : Option (Progress × Bool) → Option Copied
copied none = none
copied (some (p, true)) = some (success p.file)
copied (some (p, false)) = some (failure (some p.file))

-- `source` is `none` where the original cannot be opened.
unfoldable pub copy_file_loop : ℕ → (ℕ → ℕ → Written) → Bool → Option Reads → Opened → Option Copied
copy_file_loop fuel write close none to = some (failure none)
copy_file_loop fuel write close (some reads) opened =
    copied (copy_loop write fuel close reads (record { calls = 0; file = [] }))
copy_file_loop fuel write close (some reads) already_exists = some exists
copy_file_loop fuel write close (some reads) not_opened = some (failure none)

-- `unlinks` tells whether the existing file can be removed, and `again` what opening the copy
-- then gives.
abbrev replace_existing : Option Copied → Bool → Option Copied → Option Copied
replace_existing (some exists) true second = second
replace_existing (some exists) false second = some (failure none)
replace_existing first unlinks second = first

unfoldable pub copy_file_loop_unlinking :
    ℕ → (ℕ → ℕ → Written) → Bool → Option Reads → Opened → Bool → Opened → Option Copied
copy_file_loop_unlinking fuel write close source to unlinks again =
    replace_existing (copy_file_loop fuel write close source to) unlinks
      (copy_file_loop fuel write close source again)
