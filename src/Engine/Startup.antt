-- ===== src/Engine/Startup.antt =====
-- engine.c: `bootstrap`, which loads the scripts that define `goog.require`.
use planck.Prelude.{Option, none, some, List, [], ◌∷◌, ◌++◌, Bytes, codes}

-- The scripts: their text and the name they are evaluated under. The three texts of the source are
-- given by what they do.
pub data Script : Type 0 where
  set_import_script require_core never_provided redefine_require : Script
  base deps : Bytes → Script

-- What `bootstrap` does: it evaluates scripts, or prints and ends the process with 1.
pub data Step : Type 0 where
  evaluates : Script → Step
  exits : Bytes → Step

abbrev in_dir : Option Bytes → Bytes → Bytes
in_dir none name = name
in_dir (some dir) name = dir ++ name

-- `get_contents` is asked where there is an output directory, the bundle elsewhere.
abbrev pub text_at :
    Option Bytes → (Bytes → Option Bytes) → (Bytes → Option Bytes) → Bytes → Option Bytes
text_at none get_contents bundle_get_contents name = bundle_get_contents name
text_at (some dir) get_contents bundle_get_contents name = get_contents (dir ++ name)

abbrev with_deps : Option Bytes → List Step
with_deps none = exits (codes "The deps JavaScript text could not be loaded\n") ∷ []
with_deps (some text) =
    evaluates (deps text)
    ∷ evaluates require_core
    ∷ evaluates never_provided
    ∷ evaluates redefine_require
    ∷ []

abbrev with_base : Option Bytes → Option Bytes → List Step
with_base none deps_text = exits (codes "The goog base JavaScript text could not be loaded\n") ∷ []
with_base (some text) deps_text = evaluates (base text) ∷ with_deps deps_text

unfoldable pub bootstrap :
    (Bytes → Option Bytes) → (Bytes → Option Bytes) → Option Bytes → List Step
bootstrap get_contents bundle_get_contents out_path =
    evaluates set_import_script
    ∷ with_base (text_at out_path get_contents bundle_get_contents (codes "goog/base.js"))
        (text_at out_path get_contents bundle_get_contents (codes "main.js"))
