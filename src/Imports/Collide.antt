-- ===== src/Imports/Collide.antt =====
-- functions.c: scripts are told apart by their hashes alone.
use planck.Prelude.{ℕ, ◌<◌, ◌≡◌, ap, false, Option, [], ◌∷◌, ◌++◌, arith, Bytes, codes, length}
use planck.Text.{str_has_prefix}
use planck.Imports.Table.{import_script-loaded, import_script-is_loaded}
use planck.Imports.{hash, hash_from, hash_step, Imports, import_script, max_hashes}

hash_step_collides : (h : ℕ) → hash_step (hash_step h b'a') b'z' ≡ hash_step (hash_step h b'b') b'Y'
unfolding hash_step
hash_step_collides h = omega arith

hash_from_collides :
    (h : ℕ) (p q : Bytes) → hash_from h (p ++ b'a' ∷ b'z' ∷ q) ≡ hash_from h (p ++ b'b' ∷ b'Y' ∷ q)
unfolding hash_from
hash_from_collides h [] q = ap (λ (k : ℕ). hash_from k q) (hash_step_collides h)
hash_from_collides h (c ∷ p) q = hash_from_collides (hash_step h c) p q

pub hash_collides : (p q : Bytes) → hash (p ++ b'a' ∷ b'z' ∷ q) ≡ hash (p ++ b'b' ∷ b'Y' ∷ q)
unfolding hash
hash_collides p q = hash_from_collides 5381 p q

-- Two paths that differ only in `az` against `bY` have one hash, so that the import of the second
-- changes nothing and evaluates nothing once the first has been imported, for every such pair of
-- paths outside goog/../ while the table has room.
pub import_script_collides :
    (out_path : Option Bytes) (bundle files : Bytes → Option Bytes) (p q : Bytes) (s : Imports)
    → str_has_prefix (p ++ b'a' ∷ b'z' ∷ q) (codes "goog/../") ≡ false
    → str_has_prefix (p ++ b'b' ∷ b'Y' ∷ q) (codes "goog/../") ≡ false
    → length s.hashes < max_hashes
    → import_script out_path bundle files
        (p ++ b'b' ∷ b'Y' ∷ q)
        (import_script out_path bundle files (p ++ b'a' ∷ b'z' ∷ q) s)
      ≡ import_script out_path bundle files (p ++ b'a' ∷ b'z' ∷ q) s
import_script_collides out_path bundle files p q s plain plain' room =
    import_script-loaded out_path bundle files _ _ plain'
      (rw (← hash_collides p q) (import_script-is_loaded out_path bundle files _ s plain room))
