-- ===== src/Options/Script.antt =====
-- main.c: the search for a script path or a hyphen, behind which `getopt_long` must not look.
use planck.Prelude.{
  ℕ, ◌+◌, Bool, true, false, not, ◌&&◌, ◌||◌, List, [], ◌∷◌, Bytes, codes, ◌==◌, str_eq,
  if◌then◌else◌, map,
}

pub last_byte : ℕ → Bytes → ℕ
last_byte last [] = last
last_byte last (c ∷ cs) = last_byte c cs

-- The options that take an argument, as the function lists them.
abbrev pub takes_argument : ℕ → Bool
takes_argument c =
    c == b'i'
    || (c == b'e'
        || (c == b'm'
            || (c == b'c'
                || (c == b'n'
                    || (c == b'k'
                        || (c == b't'
                            || (c == b'S'
                                || (c == b'A'
                                    || (c == b'O' || (c == b'D' || (c == b'L' || c == 1)))))))))))

abbrev pub starts_with_dash : Bytes → Bool
starts_with_dash [] = false
starts_with_dash (c ∷ cs) = c == b'-'

abbrev behind_dash : Bytes → Bytes
behind_dash [] = []
behind_dash (c ∷ cs) = cs

unfoldable pub should_ignore_arg : Bytes → Bool
unfolding last_byte
should_ignore_arg opt =
    if not (starts_with_dash opt)
    then false
    else if starts_with_dash (behind_dash opt)
    then true
    else takes_argument (last_byte 0 opt)

pub expand_medium_opt : Bytes → Bytes
expand_medium_opt arg = if str_eq arg (codes "-co") then codes "--compile-opts" else arg

unfoldable pub expand_medium_opts : List Bytes → List Bytes
unfolding expand_medium_opt
expand_medium_opts argv = map expand_medium_opt argv

-- Whether the loop breaks at `arg`, with the argument before it.
unfoldable pub is_main_arg : Bytes → Bytes → Bool
is_main_arg previous_opt arg =
    str_eq arg (codes "-") || not (starts_with_dash arg) && not (should_ignore_arg previous_opt)

-- The loop from index `i` on; its result is `argc` where it does not break.
unfoldable pub script_index_from : ℕ → Bytes → List Bytes → ℕ
script_index_from i previous [] = i
script_index_from i previous (arg ∷ args) =
    let rest = script_index_from (i + 1) arg args in if is_main_arg previous arg then i else rest

unfoldable pub index_of_script_path_or_hyphen : List Bytes → ℕ
unfolding script_index_from
index_of_script_path_or_hyphen [] = 0
index_of_script_path_or_hyphen (program ∷ args) = script_index_from 1 program args
