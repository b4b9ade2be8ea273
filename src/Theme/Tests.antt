-- ===== src/Theme/Tests.antt =====
-- Runs of theme.c.
use planck.Prelude.{◌≡◌, refl, true, some, none, codes, str_eq, []}
use planck.Text.{tokens}
use planck.Theme.{check_theme, default_theme_for_terminal}

dark_background : default_theme_for_terminal none (some (codes "15;0")) ≡ codes "dark"
unfolding default_theme_for_terminal tokens str_eq
dark_background = refl

light_is_supported : check_theme 0 (codes "light") ≡ (true, [])
unfolding check_theme str_eq
light_is_supported = refl
