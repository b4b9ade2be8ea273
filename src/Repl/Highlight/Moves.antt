-- ===== src/Repl/Highlight/Moves.antt =====
-- repl.c: the moves of the cursor that the highlighting prints, and that the way back undoes them.
use planck.Repl.Highlight.{
  Escape, up, down, right, left, Restore, negated, is_zero, vertical, horizontal,
}
use planck.Prelude.{
  ◌≡◌, refl, ap, Bool, true, false, not, List, [], ◌∷◌, ◌++◌, if◌then◌else◌, arith,
}
use planck.Prelude.Int.{ℤ, pos, ◌+ℤ◌, ◌-ℤ◌, +ℤ_cancel, ltb_ℤ}

-- Lines up and columns right, from where the cursor was first.
abbrev pub home : ℤ × ℤ
home = (pos 0, pos 0)

abbrev moved : Escape → ℤ × ℤ → ℤ × ℤ
moved (up n) (lines, columns) = (lines +ℤ n, columns)
moved (down n) (lines, columns) = (lines -ℤ n, columns)
moved (right n) (lines, columns) = (lines, columns +ℤ n)
moved (left n) (lines, columns) = (lines, columns -ℤ n)

abbrev pub position : List Escape → ℤ × ℤ → ℤ × ℤ
position [] at = at
position (e ∷ es) at = position es (moved e at)

pub position-append :
    (xs ys : List Escape) (at : ℤ × ℤ) → position (xs ++ ys) at ≡ position ys (position xs at)
position-append [] ys at = refl
position-append (x ∷ xs) ys at = position-append xs ys (moved x at)

-ℤ_cancel : (a b : ℤ) → a -ℤ b +ℤ b ≡ a
unfolding ◌+ℤ◌ ◌-ℤ◌
-ℤ_cancel a b = ground arith

abbrev pub there : Restore → List Escape
there r = vertical up r.num_lines_up ++ horizontal left right r.relative_horiz

abbrev pub back : Restore → List Escape
back r = vertical down r.num_lines_up ++ horizontal right left r.relative_horiz

pub there_and_back : (r : Restore) (at : ℤ × ℤ) → position (back r) (position (there r) at) ≡ at
there_and_back r (lines, columns) =
    by_signs (is_zero r.num_lines_up) (ltb_ℤ r.relative_horiz (pos 0)) (is_zero r.relative_horiz)
  where
    by_signs :
        (same_line negative same_column : Bool)
        → (let n = r.relative_horiz in
            position
              ((if not same_line then down r.num_lines_up ∷ [] else [])
                ++ (if negative
                    then right (negated n) ∷ []
                    else if same_column
                    then []
                    else left n ∷ []))
              (position
                ((if not same_line then up r.num_lines_up ∷ [] else [])
                  ++ (if negative
                      then left (negated n) ∷ []
                      else if same_column
                      then []
                      else right n ∷ []))
                (lines, columns))
            ≡ (lines, columns))
    by_signs true true z = ap (λ c. (lines, c)) (-ℤ_cancel columns (negated r.relative_horiz))
    by_signs true false true = refl
    by_signs true false false = ap (λ c. (lines, c)) (+ℤ_cancel columns r.relative_horiz)
    by_signs false true z =
        rw (+ℤ_cancel lines r.num_lines_up, -ℤ_cancel columns (negated r.relative_horiz)) refl
    by_signs false false true = ap (λ l. (l, columns)) (+ℤ_cancel lines r.num_lines_up)
    by_signs false false false =
        rw (+ℤ_cancel lines r.num_lines_up, +ℤ_cancel columns r.relative_horiz) refl
