-- ===== src/Theme.antt =====
-- planck-c/theme.c: the tables of fonts and themes, and what is done at start-up with a theme.
pub mod Supported
mod Tests
use planck.Prelude.{
  ℕ, zero, suc, Bool, true, false, Option, none, some, List, [], ◌∷◌, ◌++◌, Bytes, codes, str_eq,
  if◌then◌else◌, take, ltb, length,
}
use planck.Text.{tokens}

-- ESC [ n n m
abbrev escape : Bytes → Bytes
escape n = 0x1b ∷ b'[' ∷ (n ++ codes "m")

pub font_colors : List (Bytes × Bytes)
font_colors =
    (codes "no-font", [])
    ∷ (codes "black-font", escape (codes "30"))
    ∷ (codes "red-font", escape (codes "31"))
    ∷ (codes "green-font", escape (codes "32"))
    ∷ (codes "yellow-font", escape (codes "33"))
    ∷ (codes "blue-font", escape (codes "34"))
    ∷ (codes "magenta-font", escape (codes "35"))
    ∷ (codes "cyan-font", escape (codes "36"))
    ∷ (codes "white-font", escape (codes "37"))
    ∷ (codes "black-bold-font", escape (codes "40"))
    ∷ (codes "red-bold-font", escape (codes "41"))
    ∷ (codes "green-bold-font", escape (codes "42"))
    ∷ (codes "yellow-bold-font", escape (codes "43"))
    ∷ (codes "blue-bold-font", escape (codes "44"))
    ∷ (codes "magenta-bold-font", escape (codes "45"))
    ∷ (codes "cyan-bold-font", escape (codes "46"))
    ∷ (codes "white-bold-font", escape (codes "47"))
    ∷ []

pub prompt_fonts : List (Bytes × Bytes)
prompt_fonts =
    (codes "plain", codes "no-font")
    ∷ (codes "light", codes "cyan-font")
    ∷ (codes "dark", codes "blue-font")
    ∷ []

-- The loop over a table of alternating keys and values.
pub first_match : Bytes → List (Bytes × Bytes) → Option Bytes
first_match key [] = none
first_match key ((k, v) ∷ rest) = if str_eq key k then some v else first_match key rest

pub color_for_font : Bytes → Option Bytes
unfolding first_match font_colors
color_for_font font = first_match font font_colors

unfoldable pub prompt_font_for_theme : Bytes → Option Bytes
unfolding first_match prompt_fonts
prompt_font_for_theme theme = first_match theme prompt_fonts

-- The second token of COLORFGBG, if there is one.
abbrev second : List Bytes → Option Bytes
second (a ∷ b ∷ rest) = some b
second _ = none

pub theme_for_background : Option Bytes → Bytes
theme_for_background none = codes "light"
theme_for_background (some bg) = if str_eq bg (codes "0") then codes "dark" else codes "light"

-- The arguments are the values of NO_COLOR and COLORFGBG in the environment.
unfoldable pub default_theme_for_terminal : Option Bytes → Option Bytes → Bytes
unfolding theme_for_background
default_theme_for_terminal (some no_color) color_fg_bg = codes "plain"
default_theme_for_terminal none none = codes "light"
default_theme_for_terminal none (some color_fg_bg) =
    theme_for_background (second (tokens b';' color_fg_bg))

unfoldable pub prompt_ansi_code_for_theme : Bytes → Option Bytes
unfolding color_for_font prompt_font_for_theme
prompt_ansi_code_for_theme theme = elim (prompt_font_for_theme theme) [
  | none ↦ none
  | some font ↦ color_for_font font
]

pub supported_lines : List (Bytes × Bytes) → List Bytes
supported_lines [] = []
supported_lines ((k, v) ∷ rest) = (codes "  " ++ k ++ codes "\n") ∷ supported_lines rest

-- `accepted` is the number of `fprintf` calls that succeed before one returns -1, after which
-- the function returns. The second component is what is written to stderr.
unfoldable pub check_theme : ℕ → Bytes → Bool × List Bytes
unfolding prompt_font_for_theme supported_lines prompt_fonts
check_theme accepted theme = elim (prompt_font_for_theme theme) [
  | some font ↦ (true, [])
  | none ↦ (
    false,
    take accepted (
        (codes "Unsupported theme: " ++ theme ++ codes "\n")
        ∷ codes "Supported themes:\n"
        ∷ supported_lines prompt_fonts),
  )
]
