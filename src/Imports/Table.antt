-- ===== src/Imports/Table.antt =====
-- functions.c: the table of loaded scripts.
use planck.Prelude.{
  ℕ, ◌≤◌, ◌<◌, ◌≡◌, true, false, Option, List, [], ◌∷◌, ◌++◌, arith, Bytes, codes, length,
  length-append, drop,
}
use planck.Text.{str_has_prefix}
use planck.Imports.{
  hash, Imports, is_loaded, add_loaded_hash, import_script, load_script, max_hashes,
}

is_loaded-append : (h : ℕ) (xs : List ℕ) → is_loaded h (xs ++ h ∷ []) ≡ true
unfolding is_loaded
is_loaded-append h [] = ground arith
is_loaded-append h (x ∷ xs) = ground (arith, is_loaded-append h xs)

pub add_loaded_hash-is_loaded :
    (h : ℕ) (xs : List ℕ) → length xs < max_hashes → is_loaded h (add_loaded_hash h xs) ≡ true
unfolding add_loaded_hash
add_loaded_hash-is_loaded h xs room = ground (arith, is_loaded-append h xs)

module _ (out_path : Option Bytes) (bundle files : Bytes → Option Bytes) where
  pub load_script-hashes :
      (path : Bytes) (s : Imports) → (load_script out_path bundle files path s).hashes ≡ s.hashes
  unfolding load_script
  load_script-hashes path s = ground arith

  -- No import writes past the end of the table.
  pub import_script-hashes_bound :
      (path : Bytes) (s : Imports)
      → length s.hashes ≤ max_hashes
      → length (import_script out_path bundle files path s).hashes ≤ max_hashes
  unfolding import_script add_loaded_hash
  import_script-hashes_bound path s h = ground (
    arith,
    load_script-hashes (drop 8 path) s,
    load_script-hashes path (record s { hashes = add_loaded_hash (hash path) s.hashes }),
    length-append s.hashes (hash path ∷ []),
  )

  -- A script that is recorded is not evaluated again.
  pub import_script-loaded :
      (path : Bytes) (s : Imports)
      → str_has_prefix path (codes "goog/../") ≡ false
      → is_loaded (hash path) s.hashes ≡ true
      → import_script out_path bundle files path s ≡ s
  unfolding import_script
  import_script-loaded path s plain old = rw (plain, old)

  pub import_script-is_loaded :
      (path : Bytes) (s : Imports)
      → str_has_prefix path (codes "goog/../") ≡ false
      → length s.hashes < max_hashes
      → is_loaded (hash path) (import_script out_path bundle files path s).hashes ≡ true
  unfolding import_script
  import_script-is_loaded path s plain room = ground (
    arith,
    add_loaded_hash-is_loaded (hash path) s.hashes room,
    load_script-hashes path (record s { hashes = add_loaded_hash (hash path) s.hashes }),
  )

  -- While the table has room, a script is evaluated at most once: a second import of its path
  -- changes nothing. Paths behind goog/../ are excepted, since they are never recorded.
  import_script-twice :
      (path : Bytes) (s : Imports)
      → str_has_prefix path (codes "goog/../") ≡ false
      → length s.hashes < max_hashes
      → import_script out_path bundle files path (import_script out_path bundle files path s)
        ≡ import_script out_path bundle files path s
  import_script-twice path s plain room =
      import_script-loaded path _ plain (import_script-is_loaded path s plain room)
