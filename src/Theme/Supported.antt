-- ===== src/Theme/Supported.antt =====
-- theme.c: the themes that are accepted are those that can be shown.
use planck.Prelude.{
  ℕ, ◌≡◌, ◌↔◌, ◌⊎◌, inl, inr, true, Option, none, some, Bytes, codes, str_eq, str_eq_iff, arith,
}
use planck.Theme.{check_theme, prompt_ansi_code_for_theme, default_theme_for_terminal}

abbrev pub IsDefined : Option Bytes → Type 0
IsDefined none = ⊥
IsDefined (some b) = Unit

-- A theme is accepted, with nothing written, exactly when it is plain, light or dark; then the
-- prompt has a colour sequence. Any other theme is refused, however stderr behaves.
pub check_theme_iff :
    (accepted : ℕ) (theme : Bytes)
    → ((check_theme accepted theme).0 ≡ true)
      ↔ ((theme ≡ codes "plain") ⊎ ((theme ≡ codes "light") ⊎ (theme ≡ codes "dark")))
unfolding check_theme
check_theme_iff accepted theme = (
  λ h. ground (
    arith,
    str_eq_iff theme (codes "plain"),
    str_eq_iff theme (codes "light"),
    str_eq_iff theme (codes "dark"),
  ),
  λ h. ground (
    arith,
    str_eq_iff theme (codes "plain"),
    str_eq_iff theme (codes "light"),
    str_eq_iff theme (codes "dark"),
  ),
)

prompt_code_plain : IsDefined (prompt_ansi_code_for_theme (codes "plain"))
unfolding prompt_ansi_code_for_theme str_eq
prompt_code_plain = tt

prompt_code_light : IsDefined (prompt_ansi_code_for_theme (codes "light"))
unfolding prompt_ansi_code_for_theme str_eq
prompt_code_light = tt

prompt_code_dark : IsDefined (prompt_ansi_code_for_theme (codes "dark"))
unfolding prompt_ansi_code_for_theme str_eq
prompt_code_dark = tt

-- A theme that is accepted has an escape sequence for the prompt: the font that `prompt_fonts`
-- names for it is one of `font_colors`.
pub check_theme-prompt_ansi_code :
    (accepted : ℕ) (theme : Bytes)
    → (check_theme accepted theme).0 ≡ true
    → IsDefined (prompt_ansi_code_for_theme theme)
check_theme-prompt_ansi_code accepted theme h = elim ((check_theme_iff accepted theme).0 h) [
  | inl e ↦ rw e prompt_code_plain
  | inr (inl e) ↦ rw e prompt_code_light
  | inr (inr e) ↦ rw e prompt_code_dark
]

-- The theme chosen when none is given is accepted, whatever the environment holds.
pub check_theme-default :
    (accepted : ℕ) (no_color color_fg_bg : Option Bytes)
    → (check_theme accepted (default_theme_for_terminal no_color color_fg_bg)).0 ≡ true
check_theme-default accepted no_color color_fg_bg =
    (check_theme_iff accepted _).1 (chosen no_color color_fg_bg)
  where
    chosen :
        (a b : Option Bytes)
        → (default_theme_for_terminal a b ≡ codes "plain")
          ⊎ ((default_theme_for_terminal a b ≡ codes "light")
              ⊎ (default_theme_for_terminal a b ≡ codes "dark"))
    chosen a b = unfold default_theme_for_terminal in ground arith
