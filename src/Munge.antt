-- ===== src/Munge.antt =====
-- planck-c/engine.c: `munge`, which turns a ClojureScript name into a JavaScript one in a buffer
-- that is sized by a first pass.
pub mod Fits
mod Tests
use planck.Prelude.{ℕ, ◌+◌, Bool, List, [], ◌∷◌, ◌++◌, Bytes, codes, ◌==◌, if◌then◌else◌}

-- `new_len` after the first loop.
unfoldable pub new_len : Bytes → ℕ
new_len [] = 0
new_len (c ∷ cs) = (if c == b'!' then 6 else if c == b'?' then 7 else 1) + new_len cs

-- What the second loop writes for one byte.
unfoldable pub munge_byte : ℕ → Bytes
munge_byte c =
    if c == b'-'
    then codes "_"
    else if c == b'!'
    then codes "_BANG_"
    else if c == b'?'
    then codes "_QMARK_"
    else c ∷ []

-- The bytes written from `ms[0]` on, before the terminating zero at `ms[new_len]`.
unfoldable pub munge : Bytes → Bytes
unfolding munge_byte
munge [] = []
munge (c ∷ cs) = munge_byte c ++ munge cs
