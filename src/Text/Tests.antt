-- ===== src/Text/Tests.antt =====
-- Runs of str.c and of `strtok`.
use planck.Prelude.{◌≡◌, refl, true, false, [], ◌∷◌, codes, str_eq}
use planck.Text.{str_has_suffix, str_has_prefix, tokens}

tokens_runs : tokens b':' (codes "::a:bc::d:") ≡ codes "a" ∷ codes "bc" ∷ codes "d" ∷ []
unfolding tokens
tokens_runs = refl

suffix_runs : str_has_suffix (codes "lib/x.jar") (codes ".jar") ≡ true
unfolding str_has_suffix str_eq
suffix_runs = refl

prefix_short : str_has_prefix (codes "go") (codes "goog/") ≡ false
unfolding str_has_prefix
prefix_short = refl
