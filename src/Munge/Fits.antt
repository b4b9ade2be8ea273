-- ===== src/Munge/Fits.antt =====
-- engine.c: the two passes of `munge` agree.
use planck.Prelude.{
  ℕ, ◌≡◌, ◌≢◌, refl, ◌∙◌, [], ◌∷◌, ◌++◌, arith, Bytes, length, length-append, ◌==◌, if◌then◌else◌,
}
use planck.Munge.{new_len, munge, munge_byte}

length-munge_byte :
    (c : ℕ) → length (munge_byte c) ≡ (if c == b'!' then 6 else if c == b'?' then 7 else 1)
unfolding munge_byte
length-munge_byte c = ground arith

-- The second pass writes exactly the bytes that the first one counted: the writes stay in the
-- buffer of `new_len + 1` bytes, and the terminating zero stands right behind them.
length-munge : (s : Bytes) → length (munge s) ≡ new_len s
unfolding munge new_len
length-munge [] = refl
length-munge (c ∷ cs) =
    length-append (munge_byte c) (munge cs) ∙ omega (arith, length-munge_byte c, length-munge cs)

abbrev pub IsMunged : Bytes → Type 0
IsMunged [] = Unit
IsMunged (c ∷ cs) = (c ≢ b'-') × (c ≢ b'!') × (c ≢ b'?') × IsMunged cs

munge_byte-IsMunged : (c : ℕ) (rest : Bytes) → IsMunged rest → IsMunged (munge_byte c ++ rest)
unfolding munge_byte
munge_byte-IsMunged c rest h = ground arith

-- No byte of the result is a dash, an exclamation mark or a question mark.
pub munge-IsMunged : (s : Bytes) → IsMunged (munge s)
unfolding munge
munge-IsMunged [] = tt
munge-IsMunged (c ∷ cs) = munge_byte-IsMunged c (munge cs) (munge-IsMunged cs)
