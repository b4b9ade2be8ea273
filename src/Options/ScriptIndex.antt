-- ===== src/Options/ScriptIndex.antt =====
-- main.c: which argument the search for a script path or a hyphen finds.
use planck.Prelude.{
  ℕ, zero, suc, ◌+◌, ◌≡◌, ◌⊎◌, inl, inr, true, false, List, [], ◌∷◌, Bytes, arith, length,
  Bool-cases,
}
use planck.Options.Script.{is_main_arg, script_index_from, index_of_script_path_or_hyphen}

-- Argument `i` behind `previous` stops the loop, and none before it does.
abbrev pub FirstAt : Bytes → List Bytes → ℕ → Type 0
FirstAt previous [] i = ⊥
FirstAt previous (arg ∷ args) zero = is_main_arg previous arg ≡ true
FirstAt previous (arg ∷ args) (suc i) = (is_main_arg previous arg ≡ false) × FirstAt arg args i

abbrev pub NoneStops : Bytes → List Bytes → Type 0
NoneStops previous [] = Unit
NoneStops previous (arg ∷ args) = (is_main_arg previous arg ≡ false) × NoneStops arg args

script_index_from_lem :
    (k : ℕ) (previous : Bytes) (args : List Bytes)
    → ((i : ℕ) × (script_index_from k previous args ≡ k + i) × FirstAt previous args i)
      ⊎ ((script_index_from k previous args ≡ k + length args) × NoneStops previous args)
unfolding script_index_from
script_index_from_lem k previous [] = inr (omega arith, tt)
script_index_from_lem k previous (arg ∷ args) = elim (Bool-cases (is_main_arg previous arg)) [
  | inl stop ↦ inl (0, rw stop (omega arith), stop)
  | inr go ↦ elim (script_index_from_lem (k + 1) arg args) [
    | inl (i, e, first) ↦ inl (suc i, rw go (omega (arith, e)), (go, first))
    | inr (e, none_stops) ↦ inr (rw go (omega (arith, e)), (go, none_stops))
  ]
]

-- The index is that of the first argument behind the program's name which is a lone hyphen, or
-- is no option and does not belong to the option before it; it is `argc` if there is none.
index_of_script_path_or_hyphen_lem :
    (program : Bytes) (args : List Bytes)
    → ((i : ℕ) × (index_of_script_path_or_hyphen (program ∷ args) ≡ 1 + i) × FirstAt program args i)
      ⊎ ((index_of_script_path_or_hyphen (program ∷ args) ≡ 1 + length args)
          × NoneStops program args)
unfolding index_of_script_path_or_hyphen
index_of_script_path_or_hyphen_lem program args = script_index_from_lem 1 program args
