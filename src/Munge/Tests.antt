-- ===== src/Munge/Tests.antt =====
-- Runs of `munge`.
use planck.Prelude.{◌≡◌, refl, codes}
use planck.Munge.{munge}

munge_runs : munge (codes "is-readable?") ≡ codes "is_readable_QMARK_"
unfolding munge
munge_runs = refl
