-- ===== src/System/Environment.antt =====
-- functions.c: the environment, and what kind of file a descriptor is.
use planck.Memory.{c_string}
use planck.Prelude.{
  ◌≡◌, refl, ap, ℕ, Bool, true, false, Option, none, some, List, [], ◌∷◌, Bytes, ◌==◌,
  if◌then◌else◌, str_eq, map,
}
use planck.Prelude.Int.{ℤ, pos, negsuc}

-- `strsep` at "=": the name, and what is behind it, or a null pointer.
unfoldable pub strsep : Bytes → Bytes × Option Bytes
strsep [] = ([], none)
strsep (c ∷ cs) = let rest = strsep cs in if c == b'=' then ([], some cs) else (c ∷ rest.0, rest.1)

-- With no argument: the properties that are set on the object, in order. The value of an entry
-- without "=" is made from a null pointer.
unfoldable pub function_getenv_all : List Bytes → List (Bytes × Option Bytes)
unfolding strsep
function_getenv_all environ = map strsep environ

abbrev pub nonempty_text : Option Bytes → Option Bytes
nonempty_text none = none
nonempty_text (some []) = none
nonempty_text (some (c ∷ cs)) = some (c ∷ cs)

abbrev after_name : Option Bytes → Option Bytes → Option Bytes
after_name none rest = rest
after_name (some v) rest = some v

abbrev if_named : Bool → Option Bytes → Option Bytes
if_named true v = v
if_named false v = none

-- `getenv` of the C library: what is behind the name and "=" in the first entry that begins so.
unfoldable pub getenv : List Bytes → Bytes → Option Bytes
unfolding strsep str_eq
getenv [] name = none
getenv (entry ∷ environ) name =
    after_name (if_named (str_eq (strsep entry).0 name) (strsep entry).1) (getenv environ name)

-- One name; `none` is null.
unfoldable pub function_getenv_one : List Bytes → Bytes → Option Bytes
unfolding getenv c_string
function_getenv_one environ name = nonempty_text (getenv environ (c_string name))

-- `isatty`, which may set `errno` to EBADF; `none` is null.
abbrev pub known_descriptor : Bool → Bool → Option Bool
known_descriptor ebadf result = if ebadf then none else some result

unfoldable pub function_isatty : (ℕ → Bool × Bool) → ℤ → Option Bool
function_isatty isatty (pos fd) = known_descriptor (isatty fd).1 (isatty fd).0
function_isatty isatty (negsuc fd) = none

abbrev pub first_named : Bytes → List (Bytes × Option Bytes) → Option Bytes
first_named name [] = none
first_named name ((n, v) ∷ properties) =
    after_name (if_named (str_eq n name) v) (first_named name properties)

-- The value of one name is the first of that name in the object, or null if that is empty.
pub function_getenv_lem :
    (environ : List Bytes) (name : Bytes)
    → function_getenv_one environ name
      ≡ nonempty_text (first_named (c_string name) (function_getenv_all environ))
unfolding function_getenv_one function_getenv_all
function_getenv_lem environ name = ap nonempty_text (same environ)
  where
    same :
        (entries : List Bytes)
        → getenv entries (c_string name) ≡ first_named (c_string name) (map strsep entries)
    same [] = refl
    same (entry ∷ entries) =
        ap (after_name (if_named (str_eq (strsep entry).0 (c_string name)) (strsep entry).1))
          (same entries)
