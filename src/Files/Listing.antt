-- ===== src/Files/Listing.antt =====
-- functions.c: the files of a directory, collected in an array that grows.
pub mod Complete
use planck.Prelude.{
  ℕ, ◌+◌, ◌*◌, Bool, true, false, not, ◌&&◌, Option, none, some, List, [], ◌∷◌, ◌++◌, Bytes, codes,
  ◌==◌, ltb, str_eq, if◌then◌else◌, length, take, get_elem?, ◌-◌,
}

-- `paths`, `count` and `capacity`: the array holds the paths in order and has room for `capacity`.
pub record Paths : Type 0 where
  pub capacity : ℕ
  pub paths : List Bytes

-- `paths[count++] = path`, with the array doubled once it is full; `none` is a write outside it.
unfoldable pub add_path : Bytes → Paths → Option Paths
add_path path p =
    if ltb (length p.paths) p.capacity
    then some (record {
      capacity = if length p.paths + 1 == p.capacity then p.capacity * 2 else p.capacity;
      paths = p.paths ++ path ∷ [];
    })
    else none

-- The path as `opendir` has been given it, without its last byte if that is a slash.
unfoldable pub cut_slash : Bytes → Bytes
cut_slash [] = []
cut_slash (c ∷ []) = if c == b'/' then [] else c ∷ []
cut_slash (c ∷ d ∷ cs) = c ∷ cut_slash (d ∷ cs)

-- Whether a name is neither "." nor "..".
unfoldable pub is_listed : Bytes → Bool
unfolding str_eq
is_listed name = not (str_eq name (codes ".")) && not (str_eq name (codes ".."))

-- `buf_len` bytes hold the path, the slash, the name and the zero; `snprintf` cuts nothing off.
unfoldable pub path_in : Bytes → Bytes → Bytes
path_in path name =
    let buf_len = length path + length name + 2 in take (buf_len - 1) (path ++ b'/' ∷ name)

abbrev then_add : Option Paths → (Paths → Option Paths) → Option Paths
then_add none loop = none
then_add (some p) loop = loop p

-- The loop over what `readdir` returns.
unfoldable pub list_loop : Bytes → List Bytes → Paths → Option Paths
list_loop path [] p = some p
list_loop path (name ∷ names) p =
    if is_listed name
    then then_add (add_path (path_in path name) p) (list_loop path names)
    else list_loop path names p

abbrev of_directory : Bytes → Option (List Bytes) → Option Paths
of_directory path none = some (record { capacity = 32; paths = [] })
of_directory path (some names) =
    list_loop (cut_slash path) names (record { capacity = 32; paths = [] })

abbrev paths_of : Option Paths → Option (List Bytes)
paths_of none = none
paths_of (some p) = some p.paths

-- `opendir` knows the names in a directory, or fails.
unfoldable pub function_list_files : (Bytes → Option (List Bytes)) → Bytes → Option (List Bytes)
unfolding list_loop
function_list_files opendir path = paths_of (of_directory path (opendir path))
