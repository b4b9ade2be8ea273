-- ===== src/Javascript.antt =====
-- The JavaScript values that the native functions take and return, and planck-c/jsc_utils.c as far
-- as it turns them into C values.
use planck.Memory.{c_string}
use planck.Prelude.{ℕ, Bool, false, not, ◌&&◌, ◌||◌, Option, none, some, List, Bytes, ltb, ◌==◌}
use planck.Prelude.Int.{ℤ, pos}

-- A double, as comparisons with whole numbers and conversions to integers tell it: not a number,
-- below or above all integers, or an integer and whether a fraction is added to it.
pub data Number : Type 0 where
  nan below above : Number
  finite : ℤ → Bool → Number

-- An element of an array.
pub data Element : Type 0 where
  num : Number → Element
  str : Bytes → Element
  other : Element

-- A string is its UTF-8 text.
pub data Value : Type 0 where
  undefined null object : Value
  boolean : Bool → Value
  number : Number → Value
  string : Bytes → Value
  array : List Element → Value

-- `none` is a null pointer.
unfoldable pub value_to_c_string : Value → Option Bytes
unfolding c_string
value_to_c_string (string s) = some (c_string s)
value_to_c_string _ = none

-- Whether `0 <= n && n <= 255`.
unfoldable pub in_byte_range : Number → Bool
in_byte_range (finite (pos n) fraction) = ltb n 255 || n == 255 && not fraction
in_byte_range _ = false

-- The conversion of a number in that range to `uint8_t`.
abbrev pub to_uint8 : Number → ℕ
to_uint8 (finite (pos n) fraction) = n
to_uint8 _ = 0

abbrev pub of_byte : ℕ → Element
of_byte n = num (finite (pos n) false)
