-- ===== src/Imports.antt =====
-- planck-c/functions.c: the import of Closure scripts, `hash`, `is_loaded`, `add_loaded_hash` and
-- `function_import_script` once its one argument is a string.
pub mod Table
pub mod Collide
mod Tests
use planck.Prelude.{
  ℕ, zero, suc, ◌+◌, ◌*◌, ◌%◌, ◌^◌, Bool, true, false, ◌||◌, Option, none, some, List, [], ◌∷◌,
  ◌++◌, Bytes, codes, ◌==◌, ltb, if◌then◌else◌, length, drop,
}
use planck.Text.{str_has_prefix, str_concat}

-- One step of the loop, on an `unsigned long` of 64 bits.
pub hash_step : ℕ → ℕ → ℕ
hash_step hash c = (hash * 32 + hash + c) % 2 ^ 64

pub hash_from : ℕ → Bytes → ℕ
unfolding hash_step
hash_from h [] = h
hash_from h (c ∷ cs) = hash_from (hash_step h c) cs

unfoldable pub hash : Bytes → ℕ
unfolding hash_from
hash str = hash_from 5381 str

abbrev pub max_hashes : ℕ
max_hashes = 2048

-- `loaded_goog_hashes` up to `count_loaded_goog_hashes`, and the scripts evaluated, each with its
-- path, in order.
pub record Imports : Type 0 where
  pub hashes : List ℕ
  pub evaluated : List (Bytes × Bytes)

unfoldable pub is_loaded : ℕ → List ℕ → Bool
is_loaded h [] = false
is_loaded h (x ∷ xs) = x == h || is_loaded h xs

unfoldable pub add_loaded_hash : ℕ → List ℕ → List ℕ
add_loaded_hash h hashes = if ltb (length hashes) max_hashes then hashes ++ h ∷ [] else hashes

-- `bundle` stands for `bundle_get_contents`, generated by the build, and `files` for
-- `get_contents` on the file system. Evaluation is by the JavaScript engine.
module _ (out_path : Option Bytes) (bundle files : Bytes → Option Bytes) where
  pub source_of : Bytes → Option Bytes
  source_of path = elim out_path [ none ↦ bundle path | some out ↦ files (str_concat out path) ]

  abbrev evaluate : Bytes → Option Bytes → Imports → Imports
  evaluate path none s = s
  evaluate path (some source) s = record s { evaluated = s.evaluated ++ (source, path) ∷ [] }

  unfoldable pub load_script : Bytes → Imports → Imports
  unfolding source_of
  load_script path s = evaluate path (source_of path) s

  unfoldable pub import_script : Bytes → Imports → Imports
  unfolding load_script
  import_script path s =
      if str_has_prefix path (codes "goog/../")
      then load_script (drop 8 path) s
      else if is_loaded (hash path) s.hashes
      then s
      else load_script path (record s { hashes = add_loaded_hash (hash path) s.hashes })
