-- ===== src/Text/Decimal.antt =====
-- Decimal numbers, as `sprintf` prints them and the C library reads them.
use planck.Prelude.{
  ℕ, zero, suc, ◌+◌, ◌-◌, ◌*◌, ◌/◌, ◌%◌, ◌<◌, ◌≤◌, ◌≡◌, Bool, ◌&&◌, [], ◌∷◌, ◌++◌, Bytes, leb, ltb,
  arith, if◌then◌else◌, length, length-append, Free,
}

abbrev pub digit : ℕ → Bool
digit c = leb b'0' c && leb c b'9'

-- The number that the leading digits add to the one in front of them.
unfoldable pub digits_from : ℕ → Bytes → ℕ
digits_from acc [] = acc
digits_from acc (c ∷ cs) =
    let rest = digits_from (acc * 10 + (c - b'0')) cs in if digit c then rest else acc

-- The digits of a number that has at most so many.
unfoldable pub decimal : ℕ → ℕ → Bytes
decimal zero n = []
decimal (suc most) n =
    let front = decimal most (n / 10) in
    if ltb n 10 then (b'0' + n) ∷ [] else front ++ (b'0' + n % 10) ∷ []

abbrev pub AllDigits : Bytes → Type 0
AllDigits [] = Unit
AllDigits (c ∷ cs) = (b'0' ≤ c) × (c ≤ b'9') × AllDigits cs

-- 10 to the power `most`.
abbrev pub power_of_ten : ℕ → ℕ
power_of_ten zero = 1
power_of_ten (suc most) = 10 * power_of_ten most

digits_from-append :
    (acc : ℕ) (xs : Bytes) (d : ℕ)
    → AllDigits xs
    → d < 10
    → digits_from acc (xs ++ (b'0' + d) ∷ []) ≡ digits_from acc xs * 10 + d
unfolding digits_from
digits_from-append acc [] d all h = ground arith
digits_from-append acc (c ∷ xs) d all h =
    ground (arith, digits_from-append (acc * 10 + (c - b'0')) xs d all.2 h)

AllDigits-append : (xs : Bytes) (d : ℕ) → AllDigits xs → d < 10 → AllDigits (xs ++ (b'0' + d) ∷ [])
AllDigits-append [] d all h = omega arith
AllDigits-append (c ∷ xs) d all h = (all.0, all.1, AllDigits-append xs d all.2 h)

pub decimal-AllDigits : (most n : ℕ) → AllDigits (decimal most n)
unfolding decimal
decimal-AllDigits zero n = tt
decimal-AllDigits (suc most) n = ground (
  arith,
  AllDigits-append (decimal most (n / 10)) (n % 10) (decimal-AllDigits most (n / 10)) (omega arith),
)

pub length-decimal : (most n : ℕ) → length (decimal most n) ≤ most
unfolding decimal
length-decimal zero n = omega arith
length-decimal (suc most) n = ground (
  arith,
  length-decimal most (n / 10),
  length-append (decimal most (n / 10)) ((b'0' + n % 10) ∷ []),
)

-- Reading what was printed gives the number.
pub digits_from-decimal : (most n : ℕ) → n < power_of_ten most → digits_from 0 (decimal most n) ≡ n
unfolding decimal digits_from
digits_from-decimal zero n h = omega arith
digits_from-decimal (suc most) n h = ground (
  arith,
  digits_from-append 0 (decimal most (n / 10)) (n % 10) (decimal-AllDigits most (n / 10))
      (omega arith),
  digits_from-decimal most (n / 10) (omega arith),
)

-- There is a first digit.
pub decimal-Nonempty : (most n : ℕ) → 0 < length (decimal (suc most) n)
unfolding decimal
decimal-Nonempty most n =
    ground (arith, length-append (decimal most (n / 10)) ((b'0' + n % 10) ∷ []))

pub AllDigits-Free : (xs : Bytes) → AllDigits xs → Free 0 xs
AllDigits-Free [] all = tt
AllDigits-Free (c ∷ xs) all = (λ e. omega arith, AllDigits-Free xs all.2)
