-- ===== src/Files/Info.antt =====
-- functions.c: what ClojureScript learns of a file, and the functions that make, copy and remove
-- files through io.c.
use planck.Memory.{c_string}
use planck.Javascript.{Value, string, null, boolean}
use planck.Prelude.{
  ℕ, ◌*◌, ◌/◌, ◌%◌, Bool, true, false, not, Option, none, some, List, [], ◌∷◌, ◌++◌, Bytes, codes,
  ◌==◌, if◌then◌else◌,
}

-- The fields of `struct stat` that are read. Times are seconds; the status change stands for the
-- creation but on macOS. A name is what `getpwuid` or `getgrgid` finds for a number.
pub record Stat : Type 0 where
  pub st_mode : ℕ
  pub st_rdev : ℕ
  pub st_ino : ℕ
  pub st_nlink : ℕ
  pub st_uid : ℕ
  pub uname : Option Bytes
  pub st_gid : ℕ
  pub gname : Option Bytes
  pub st_size : ℕ
  pub birthtime : ℕ
  pub st_mtime : ℕ

-- The type of the file in `st_mode`, in the bits of S_IFMT.
unfoldable pub format : ℕ → ℕ
format st_mode = st_mode / 4096 % 16

unfoldable pub type_of : ℕ → Bytes
unfolding format
type_of st_mode =
    if format st_mode == 4
    then codes "directory"
    else if format st_mode == 8
    then codes "file"
    else if format st_mode == 10
    then codes "symbolic-link"
    else if format st_mode == 12
    then codes "socket"
    else if format st_mode == 1
    then codes "fifo"
    else if format st_mode == 2
    then codes "character-special"
    else if format st_mode == 6
    then codes "block-special"
    else codes "unknown"

-- A property of the result.
pub data Property : Type 0 where
  text : Bytes → Bytes → Property
  num : Bytes → ℕ → Property

abbrev unless_zero : Bytes → ℕ → List Property
unless_zero name n = if n == 0 then [] else num name n ∷ []

abbrev if_known : Bytes → Option Bytes → List Property
if_known name none = []
if_known name (some s) = text name s ∷ []

-- The properties in the order in which they are set.
unfoldable pub properties : Stat → List Property
unfolding type_of
properties s =
    text (codes "type") (type_of s.st_mode)
    ∷ (unless_zero (codes "device-id") s.st_rdev
        ++ (unless_zero (codes "file-number") s.st_ino
            ++ (num (codes "permissions") (s.st_mode % 512)
                ∷ num (codes "reference-count") s.st_nlink
                ∷ num (codes "uid") s.st_uid
                ∷ (if_known (codes "uname") s.uname
                    ++ (num (codes "gid") s.st_gid
                        ∷ (if_known (codes "gname") s.gname
                            ++ (num (codes "file-size") s.st_size
                                ∷ num (codes "created") (1000 * s.birthtime)
                                ∷ num (codes "modified") (1000 * s.st_mtime)
                                ∷ [])))))))

abbrev described : Option Stat → Option (List Property)
described none = none
described (some s) = some (properties s)

-- `lstat` finds a file or fails; `none` is null.
unfoldable pub function_fstat : (Bytes → Option Stat) → List Value → Option (List Property)
unfolding properties
function_fstat lstat (string path ∷ []) = described (lstat (c_string path))
function_fstat lstat _ = none

abbrev is_dir : Option Stat → Bool
is_dir none = false
is_dir (some s) = format s.st_mode == 4

unfoldable pub function_is_directory : (Bytes → Option Stat) → List Value → Value
unfolding format
function_is_directory stat (string path ∷ []) = boolean (is_dir (stat (c_string path)))
function_is_directory stat _ = null

-- The three calls are those of io.c and `remove`; a call that does not fit is ignored.
module _ {S : Type 0} where
  abbrev made : S × Bool → S × Value
  made (s, ok) = (s, boolean ok)

  unfoldable pub function_mkdirs : (Bytes → S → S × Bool) → List Value → S → S × Value
  function_mkdirs mkdir_parents (string path ∷ []) s = made (mkdir_parents (c_string path) s)
  function_mkdirs mkdir_parents _ s = (s, boolean true)

  unfoldable pub function_delete_file : (Bytes → S → S) → List Value → S → S × Value
  function_delete_file remove (string path ∷ []) s = (remove (c_string path) s, null)
  function_delete_file remove _ s = (s, null)

  -- `true` is the exception with the error number.
  unfoldable pub function_copy_file : (Bytes → Bytes → S → S × Bool) → List Value → S → S × Bool
  function_copy_file copy_file (string src ∷ string dst ∷ []) s =
      let (s', ok) = copy_file (c_string src) (c_string dst) s in (s', not ok)
  function_copy_file copy_file _ s = (s, false)
