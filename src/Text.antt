-- ===== src/Text.antt =====
-- planck-c/str.c: suffix and prefix tests and concatenation; and `strtok`, as its callers use it.
pub mod Affix
pub mod Tokens
pub mod Decimal
mod Tests
use planck.Prelude.{
  ℕ, ◌-◌, Bool, true, false, List, [], ◌∷◌, ◌++◌, Bytes, ◌==◌, str_eq, ltb, if◌then◌else◌, length,
  take, drop,
}

-- The `int` results are read only by comparison with 0, so `true` is the result 0.
unfoldable pub str_has_suffix : Bytes → Bytes → Bool
str_has_suffix str suffix =
    let len = length str in
    let suffix_len = length suffix in
    if ltb len suffix_len then false else str_eq (drop (len - suffix_len) str) suffix

unfoldable pub str_has_prefix : Bytes → Bytes → Bool
str_has_prefix str prefix =
    let len = length str in
    let prefix_len = length prefix in
    if ltb len prefix_len then false else str_eq (take prefix_len str) prefix

abbrev pub str_concat : Bytes → Bytes → Bytes
str_concat s1 s2 = s1 ++ s2

-- Put a byte in front of the first run.
unfoldable pub onto_first : ℕ → List Bytes → List Bytes
onto_first c [] = (c ∷ []) ∷ []
onto_first c (r ∷ rs) = (c ∷ r) ∷ rs

-- The runs between delimiters, the empty ones too.
unfoldable pub runs : ℕ → Bytes → List Bytes
unfolding onto_first
runs d [] = [] ∷ []
runs d (c ∷ cs) = let rest = runs d cs in if c == d then [] ∷ rest else onto_first c rest

unfoldable pub nonempty : List Bytes → List Bytes
nonempty [] = []
nonempty ([] ∷ rs) = nonempty rs
nonempty ((c ∷ r) ∷ rs) = (c ∷ r) ∷ nonempty rs

-- What the successive calls of `strtok` return, up to the null pointer.
unfoldable pub tokens : ℕ → Bytes → List Bytes
unfolding runs nonempty
tokens d s = nonempty (runs d s)
