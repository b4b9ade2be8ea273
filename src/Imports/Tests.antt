-- ===== src/Imports/Tests.antt =====
-- Runs of the script imports.
use planck.Prelude.{
  ◌≡◌, refl, ◌+◌, ◌*◌, some, none, Option, Bytes, codes, str_eq, [], ◌∷◌, arith, false,
}
use planck.Text.{str_has_prefix}
use planck.Imports.{Imports, hash, import_script}
use planck.Imports.Collide.{import_script_collides}

abbrev bundle : Bytes → Option Bytes
bundle path = some (codes "1;")

abbrev no_files : Bytes → Option Bytes
no_files path = none

abbrev start : Imports
start = record { hashes = 7 ∷ []; evaluated = [] }

hash_runs : hash (codes "az") ≡ 5381 * 33 * 33 + 97 * 33 + 122
unfolding hash
hash_runs = refl

plain_path : str_has_prefix (codes "goog/az.js") (codes "goog/../") ≡ false
unfolding str_has_prefix str_eq
plain_path = refl

other_path : str_has_prefix (codes "goog/bY.js") (codes "goog/../") ≡ false
unfolding str_has_prefix str_eq
other_path = refl

import_script_runs :
    (import_script none bundle no_files (codes "goog/../x.js") start).evaluated
    ≡ (codes "1;", codes "x.js") ∷ []
unfolding import_script str_has_prefix str_eq
import_script_runs = refl

import_script_collides_example :
    import_script none bundle no_files
      (codes "goog/bY.js")
      (import_script none bundle no_files (codes "goog/az.js") start)
    ≡ import_script none bundle no_files (codes "goog/az.js") start
import_script_collides_example =
    import_script_collides none bundle no_files (codes "goog/") (codes ".js") start plain_path
      other_path (omega arith)
