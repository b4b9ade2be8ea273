-- ===== src/Text/Tokens.antt =====
-- `strtok` on texts that are put together from pieces without the delimiter.
use planck.Prelude.{ℕ, ◌≡◌, refl, ap, ◌∙◌, List, [], ◌∷◌, ◌++◌, arith, append-nil, Bytes, Free}
use planck.Text.{runs, nonempty, tokens}

runs-append :
    (d : ℕ) (a b : Bytes) (r : Bytes) (rs : List Bytes)
    → Free d a
    → runs d b ≡ r ∷ rs
    → runs d (a ++ b) ≡ (a ++ r) ∷ rs
unfolding runs
runs-append d [] b r rs f e = e
runs-append d (c ∷ cs) b r rs f e = ground (arith, runs-append d cs b r rs f.1 e)

runs-delimiter : (d : ℕ) (b : Bytes) → runs d (d ∷ b) ≡ [] ∷ runs d b
unfolding runs
runs-delimiter d b = ground arith

runs-one : (d : ℕ) (a : Bytes) → Free d a → runs d a ≡ a ∷ []
unfolding runs
runs-one d [] f = refl
runs-one d (c ∷ cs) f = ground (arith, runs-one d cs f.1)

-- The first token of a text that begins with a piece and a delimiter is the piece, and the others
-- are those of what follows.
pub tokens-cons :
    (d : ℕ) (c : ℕ) (cs b : Bytes)
    → Free d (c ∷ cs)
    → tokens d ((c ∷ cs) ++ d ∷ b) ≡ (c ∷ cs) ∷ tokens d b
unfolding tokens
tokens-cons d c cs b f =
    ap nonempty (runs-append d (c ∷ cs) (d ∷ b) [] (runs d b) f (runs-delimiter d b))
    ∙ rw append-nil

-- A text without the delimiter is its own only token.
pub tokens-one : (d : ℕ) (c : ℕ) (cs : Bytes) → Free d (c ∷ cs) → tokens d (c ∷ cs) ≡ (c ∷ cs) ∷ []
unfolding tokens
tokens-one d c cs f = ap nonempty (runs-one d (c ∷ cs) f)
