-- ===== src/Shell/Search.antt =====
-- shell.c: the search for a program along PATH, as it is done on macOS.
pub mod Path
pub mod Found
use planck.Shell.{Errno, e_acces, e_perm, e_noent, e_notdir, e_nametoolong, e_other}
use planck.Prelude.{
  ℕ, zero, suc, ◌+◌, Bool, true, false, not, ◌||◌, Option, none, some, List, [], ◌∷◌, ◌++◌, Bytes,
  codes, ◌==◌, leb, if◌then◌else◌, length,
}

abbrev pub get_path : Option Bytes → Bytes
get_path none = codes ":/bin:/usr/bin"
get_path (some path) = path

unfoldable pub count_occurrences : Bytes → ℕ → ℕ
count_occurrences [] c = 0
count_occurrences (x ∷ s) c = (if x == c then 1 else 0) + count_occurrences s c

-- The loop of `q`: the bytes from `p` to the colon or the end, and what is behind the colon.
unfoldable pub up_to_colon : Bytes → Bytes × Bytes
up_to_colon [] = ([], [])
up_to_colon (x ∷ s) =
    let rest = up_to_colon s in if x == b':' then ([], s) else (x ∷ rest.0, rest.1)

abbrev pub ends_with_slash : Bytes → Bool
ends_with_slash [] = false
ends_with_slash (x ∷ []) = x == b'/'
ends_with_slash (x ∷ y ∷ s) = ends_with_slash (y ∷ s)

abbrev pub dir_of : Bytes → Bytes
dir_of [] = codes "./"
dir_of (x ∷ s) = (x ∷ s) ++ (if ends_with_slash (x ∷ s) then [] else codes "/")

-- The loop of `i`.
unfoldable pub split_loop : ℕ → Bytes → List Bytes
unfolding up_to_colon
split_loop zero p = []
split_loop (suc rounds) p =
    let (piece, behind) = up_to_colon p in dir_of piece ∷ split_loop rounds behind

unfoldable pub split_path : Bytes → List Bytes
unfolding count_occurrences split_loop
split_path path = split_loop (count_occurrences path b':' + 1) path

-- `execve` does not return where it runs the program.
pub data Exec : Type 0 where
  runs_program : Bytes → Exec
  returns : Errno → Exec

-- PATH_MAX of macOS.
abbrev pub path_max : ℕ
path_max = 1024

abbrev pub contains : ℕ → Bytes → Bool
contains c [] = false
contains c (x ∷ s) = x == c || contains c s

abbrev pub at_end : Bool → Errno → Exec
at_end true errno = returns e_acces
at_end false errno = returns errno

-- The `switch` behind an `execve`, with the rest of the loop for a new `sticky_errno` and `errno`.
abbrev pub switch : Exec → Bool → (Bool → Errno → Exec) → Exec
switch (runs_program p) sticky loop = runs_program p
switch (returns e_acces) sticky loop = loop true e_acces
switch (returns e_noent) sticky loop = loop sticky e_noent
switch (returns e_notdir) sticky loop = loop sticky e_notdir
switch (returns e) sticky loop = returns e

module _ (execve : Bytes → Exec) where
  unfoldable pub search_loop : Bytes → List Bytes → Bool → Errno → Exec
  search_loop file [] sticky errno = at_end sticky errno
  search_loop file (dir ∷ dirs) sticky errno =
      let long = search_loop file dirs sticky e_nametoolong in
      let tried = switch (execve (dir ++ file)) sticky (search_loop file dirs) in
      if leb path_max (length file + length dir + 1) then long else tried

  -- `path` is the variable PATH, `errno` its value before.
  unfoldable pub planck_execvpe : Bytes → Option Bytes → Errno → Exec
  unfolding search_loop split_path
  planck_execvpe file path errno =
      if contains b'/' file
      then execve file
      else search_loop file (split_path (get_path path)) false errno
