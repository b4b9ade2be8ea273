-- ===== src/Files/Temporary.antt =====
-- functions.c: a new temporary file or directory.
pub mod Named
use planck.Memory.{c_string}
use planck.Text.{str_has_suffix}
use planck.Prelude.{
  ℕ, ◌+◌, ◌-◌, Bool, true, false, ◌&&◌, Option, none, some, List, [], ◌∷◌, ◌++◌, Bytes, codes,
  if◌then◌else◌, length, take,
}

-- `PATH_MAX`.
abbrev pub path_max : ℕ
path_max = 4096

abbrev pub or_tmp : Option Bytes → Bytes
or_tmp none = codes "/tmp"
or_tmp (some tmpdir) = tmpdir

abbrev pub below : Bool → Bytes → Bytes → Bytes
below true dir name = dir ++ name
below false dir name = dir ++ b'/' ∷ name

-- `template`, which `snprintf` cuts off so that its zero has a place.
unfoldable pub template : Option Bytes → Bytes → Bytes → Bytes
unfolding str_has_suffix
template tmpdir prefix suffix =
    let dir = or_tmp tmpdir in
    take (path_max - 1)
      (below (str_has_suffix dir (codes "/")) dir (prefix ++ (codes "XXXXXX" ++ suffix)))

-- `mkdtemp` and `mkstemps` with the length of the suffix: the template as they have changed it,
-- or a failure; and whether `close` succeeds.
pub record Temp : Type 0 where
  pub mkdtemp : Bytes → Option Bytes
  pub mkstemps : Bytes → ℕ → Option Bytes
  pub close : Bool

abbrev pub if_closed : Bool → Option Bytes → Option Bytes
if_closed true name = name
if_closed false name = none

-- `none` is the exception with the error number.
unfoldable pub function_mktemp : Temp → Option Bytes → Bytes → Bytes → Bool → Option Bytes
unfolding template
function_mktemp temp tmpdir prefix suffix true = temp.mkdtemp (template tmpdir prefix suffix)
function_mktemp temp tmpdir prefix suffix false =
    if_closed temp.close (temp.mkstemps (template tmpdir prefix suffix) (length suffix))
