-- ===== src/Keymap/Tests.antt =====
-- Runs of keymap.c.
use planck.Prelude.{◌≡◌, refl, some, List, Bytes, codes, str_eq, [], ◌∷◌}
use planck.Text.{str_has_prefix}
use planck.Keymap.{more, eof, load_keymap, initial, id_for_key_map_action, key_code_for}
use planck.Keymap.Entries.{map_nodes, AllSet, load_keymap-AllSet}

abbrev some_pairs : List (Bytes × Bytes)
some_pairs =
    (codes ":go-to-end-of-line", codes ":ctrl-n")
    ∷ (codes ":no-such-action", codes ":ctrl-a")
    ∷ (codes ":clear-screen", codes ":ctrl-xy")
    ∷ (codes ":next-line", codes ":ctrl-z")
    ∷ []

load_runs :
    (load_keymap (some (more (map_nodes some_pairs) (eof []))) initial).0.entries
    ≡ (4, 14) ∷ (11, 26) ∷ []
unfolding id_for_key_map_action key_code_for str_has_prefix str_eq load_keymap
load_runs = refl

load_keymap-AllSet_example :
    AllSet some_pairs (load_keymap (some (more (map_nodes some_pairs) (eof []))) initial).0.entries
load_keymap-AllSet_example = load_keymap-AllSet some_pairs
