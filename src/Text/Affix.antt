-- ===== src/Text/Affix.antt =====
-- str.c: what the two tests decide.
use planck.Prelude.{
  ◌-◌, ◌≡◌, ◌↔◌, sym, ap, ◌∙◌, true, ◌++◌, arith, Bytes, str_eq_iff, length, take, drop,
  length-append, drop-append_exact, take-append_exact, take-append-drop,
}
use planck.Text.{str_has_suffix, str_has_prefix}

suffix_found : (p s : Bytes) → str_has_suffix (p ++ s) s ≡ true
unfolding str_has_suffix
suffix_found p s =
    let len = length-append p s in
    let back : length (p ++ s) - length s ≡ length p = omega arith in
    ground (
      arith,
      str_eq_iff (drop (length (p ++ s) - length s) (p ++ s)) s,
      ap (λ n. drop n (p ++ s)) back ∙ drop-append_exact p s,
    )

suffix_sound :
    (str suffix : Bytes) → str_has_suffix str suffix ≡ true → (p : Bytes) × (str ≡ p ++ suffix)
unfolding str_has_suffix
suffix_sound str suffix h =
    let k = length str - length suffix in
    (
      take k str,
      sym (take-append-drop k str)
          ∙ ap (λ t. take k str ++ t) (ground (arith, str_eq_iff (drop k str) suffix)),
    )

-- `str_has_suffix` returns 0 exactly when the string is some text followed by the suffix.
pub str_has_suffix_iff :
    (str suffix : Bytes) → (str_has_suffix str suffix ≡ true) ↔ ((p : Bytes) × (str ≡ p ++ suffix))
str_has_suffix_iff str suffix = (suffix_sound str suffix, λ w. rw w.1 (suffix_found w.0 suffix))

prefix_found : (p s : Bytes) → str_has_prefix (p ++ s) p ≡ true
unfolding str_has_prefix
prefix_found p s =
    ground
      (arith, length-append p s, str_eq_iff (take (length p) (p ++ s)) p, take-append_exact p s)

prefix_sound :
    (str prefix : Bytes) → str_has_prefix str prefix ≡ true → (s : Bytes) × (str ≡ prefix ++ s)
unfolding str_has_prefix
prefix_sound str prefix h =
    let k = length prefix in
    (
      drop k str,
      sym (take-append-drop k str)
          ∙ ap (λ t. t ++ drop k str) (ground (arith, str_eq_iff (take k str) prefix)),
    )

-- `str_has_prefix` returns 0 exactly when the string is the prefix followed by some text.
pub str_has_prefix_iff :
    (str prefix : Bytes) → (str_has_prefix str prefix ≡ true) ↔ ((s : Bytes) × (str ≡ prefix ++ s))
str_has_prefix_iff str prefix = (prefix_sound str prefix, λ w. rw w.1 (prefix_found prefix w.0))
