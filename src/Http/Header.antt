-- ===== src/Http/Header.antt =====
-- http.c: what a well-formed header line is split into.
use planck.Prelude.{
  ℕ, zero, suc, ◌+◌, ◌-◌, ◌≤◌, ◌<◌, ◌≡◌, ◌⊎◌, inl, inr, refl, sym, ap, ◌∙◌, true, false, none, some,
  [], ◌∷◌, ◌++◌, arith, Bytes, Free, ◌==◌, length, take, drop, length-append, take-append_exact,
  drop-append_exact, get_elem?-append_exact, append_assoc, Bool-cases, ==_iff, lt→ltb,
}
use planck.Http.{
  scan, is_blank, is_blank_at, skip_blanks, drop_blanks, header_value, header_to_object_callback,
  set_property,
}

-- Spaces and tabs.
abbrev pub IsBlanks : Bytes → Type 0
IsBlanks [] = Unit
IsBlanks (x ∷ xs) = ((x ≡ b' ') ⊎ (x ≡ 0x09)) × IsBlanks xs

scan_key :
    (key rest : Bytes) (i j e : ℕ)
    → Free b':' key
    → Free b'\r' key
    → i + length key ≡ j
    → scan i none e (key ++ b':' ∷ rest) ≡ scan (j + 1) (some j) e rest
unfolding scan
scan_key [] rest i j e f g h = let h' : i ≡ j = omega arith in rw h'
scan_key (c ∷ cs) rest i j e f g h = ground (arith, scan_key cs rest (i + 1) j e f.1 g.1)

scan_text :
    (t rest : Bytes) (i j k e : ℕ)
    → Free b'\r' t
    → i + length t ≡ j
    → scan i (some k) e (t ++ rest) ≡ scan j (some k) e rest
unfolding scan
scan_text [] rest i j k e f h = let h' : i ≡ j = omega arith in rw h'
scan_text (c ∷ cs) rest i j k e f h = ground (arith, scan_text cs rest (i + 1) j k e f.1)

scan_end : (i k e : ℕ) → scan i (some k) e (b'\r' ∷ b'\n' ∷ []) ≡ (some k, i)
unfolding scan
scan_end i k e = refl

skip_blanks_lem :
    (n rounds : ℕ) (buffer : Bytes) (i : ℕ)
    → ((j : ℕ) → j < n → is_blank_at buffer (i + j) ≡ true)
    → is_blank_at buffer (i + n) ≡ false
    → n < rounds
    → skip_blanks rounds buffer i ≡ i + n
unfolding skip_blanks
skip_blanks_lem n zero buffer i blank stop h = elim h [ ]
skip_blanks_lem zero (suc rounds) buffer i blank stop h =
    let here : i + 0 ≡ i = omega arith in rw (rw here at stop) (omega arith)
skip_blanks_lem (suc n) (suc rounds) buffer i blank stop h =
    let here : i + 0 ≡ i = omega arith in
    let next : i + 1 + n ≡ i + suc n = omega arith in
    rw (rw here at (blank 0 (omega arith))) (
      skip_blanks_lem n rounds buffer (i + 1)
        (λ j hj. let e : i + 1 + j ≡ i + suc j = omega arith in rw e (blank (suc j) (omega arith)))
        (rw next stop) (omega arith)
      ∙ next)

drop_blanks_lem :
    (rounds m : ℕ) (buffer : Bytes) (start : ℕ)
    → ((j : ℕ) → m < j → j ≤ rounds → is_blank_at buffer (start + j) ≡ true)
    → is_blank_at buffer (start + m) ≡ false
    → m ≤ rounds
    → drop_blanks rounds buffer start ≡ start + m + 1
unfolding drop_blanks
drop_blanks_lem zero m buffer start blank stop h = omega arith
drop_blanks_lem (suc rounds) m buffer start blank stop h = elim (Bool-cases (m == suc rounds)) [
  | inl all ↦
      let e : m ≡ suc rounds = (==_iff m (suc rounds)).0 all in rw (rw e at stop) (rw e refl)
  | inr fewer ↦
      let less : m < suc rounds = ground arith in
      rw (blank (suc rounds) less (omega arith)) (
        drop_blanks_lem rounds m buffer start (λ j p q. blank j p (omega arith)) stop (omega arith))
]

IsBlanks-at :
    (pre rest : Bytes) (j : ℕ) → IsBlanks pre → j < length pre → is_blank_at (pre ++ rest) j ≡ true
unfolding is_blank_at
IsBlanks-at [] rest j b h = elim h [ ]
IsBlanks-at (c ∷ cs) rest zero b h = ground arith
IsBlanks-at (c ∷ cs) rest (suc j) b h = IsBlanks-at cs rest j b.1 (omega arith)

is_blank_at-append :
    (xs ys : Bytes) (i j : ℕ) → i ≡ length xs → is_blank_at (xs ++ ys) (i + j) ≡ is_blank_at ys j
unfolding is_blank_at
is_blank_at-append xs ys i j e = rw e (ap is_blank (get_elem?-append_exact xs ys j))

is_blank_at-front :
    (xs ys : Bytes) (j : ℕ) → j < length xs → is_blank_at (xs ++ ys) j ≡ is_blank_at xs j
unfolding is_blank_at
is_blank_at-front [] ys j h = elim h [ ]
is_blank_at-front (x ∷ xs) ys zero h = refl
is_blank_at-front (x ∷ xs) ys (suc j) h = is_blank_at-front xs ys j (omega arith)

drop_front : (k : ℕ) (xs ys : Bytes) → k ≡ length xs → drop k (xs ++ ys) ≡ ys
drop_front k xs ys e = rw e (drop-append_exact xs ys)

abbrev line : Bytes → Bytes → Bytes → Bytes → Bytes → Bytes
line front pre v post tail = front ++ (pre ++ (v ++ (post ++ tail)))

-- Where the value begins, and the line end.
abbrev from : Bytes → Bytes → ℕ
from front pre = length front + length pre

abbrev to : Bytes → Bytes → Bytes → Bytes → ℕ
to front pre v post = from front pre + length v + length post

-- The value behind `front` and the blanks `pre`, before the blanks `post` and the line end.
module _ (front pre v post tail : Bytes) (pre_blank : IsBlanks pre) (post_blank : IsBlanks post)
    (some_value : 0 < length v) (begins : is_blank_at v 0 ≡ false)
    (ends : is_blank_at v (length v - 1) ≡ false) where
  at_value :
      (j : ℕ)
      → is_blank_at (line front pre v post tail) ((from front pre) + j)
        ≡ is_blank_at (v ++ (post ++ tail)) j
  at_value j =
      let e : (from front pre) + j ≡ length front + (length pre + j) = omega arith in
      rw e (
        is_blank_at-append front _ (length front) (length pre + j) refl
        ∙ is_blank_at-append pre _ (length pre) j refl)

  trimmed_start :
      skip_blanks ((to front pre v post) - length front) (line front pre v post tail) (length front)
      ≡ (from front pre)
  trimmed_start =
      let here : (from front pre) ≡ (from front pre) + 0 = omega arith in
      skip_blanks_lem (length pre) ((to front pre v post) - length front)
        (line front pre v post tail) (length front)
        (λ j h. is_blank_at-append front _ (length front) j refl ∙ IsBlanks-at pre _ j pre_blank h)
        (rw here (at_value 0 ∙ is_blank_at-front v _ 0 some_value ∙ begins)) (omega arith)

  trimmed_end :
      drop_blanks
        ((to front pre v post) - (from front pre) - 1)
        (line front pre v post tail)
        (from front pre)
      ≡ (from front pre) + length v
  trimmed_end =
      drop_blanks_lem ((to front pre v post) - (from front pre) - 1) (length v - 1)
        (line front pre v post tail) (from front pre)
        (λ j p q.
          let k : ℕ = j - length v in
          let e : (from front pre) + j ≡ (from front pre) + (length v + k) = omega arith in
          rw e (
            at_value (length v + k)
            ∙ is_blank_at-append v _ (length v) k refl
            ∙ IsBlanks-at post _ k post_blank (omega arith)))
        (at_value (length v - 1) ∙ is_blank_at-front v _ (length v - 1) (omega arith) ∙ ends)
        (omega arith)
      ∙ omega arith

  value_found : header_value (line front pre v post tail) (from front pre) (to front pre v post) ≡ v
  unfolding header_value
  value_found =
      rw (lt→ltb (from front pre) (to front pre v post) (omega arith), trimmed_end)
        (cut ((from front pre) + length v - (from front pre)) (omega arith))
    where
      at_from : drop (from front pre) (line front pre v post tail) ≡ v ++ (post ++ tail)
      at_from =
          ap (drop (from front pre)) (sym (append_assoc front pre _))
          ∙ drop_front (from front pre) (front ++ pre) _ (omega (arith, length-append front pre))

      cut : (n : ℕ) → n ≡ length v → take n (drop (from front pre) (line front pre v post tail)) ≡ v
      cut n e = rw (at_from, e) (take-append_exact v _)

Free-append : (c : ℕ) (xs ys : Bytes) → Free c xs → Free c ys → Free c (xs ++ ys)
Free-append c [] ys f g = g
Free-append c (x ∷ xs) ys f g = (f.0, Free-append c xs ys f.1 g)

IsBlanks-Free : (xs : Bytes) → IsBlanks xs → Free b'\r' xs
IsBlanks-Free [] b = tt
IsBlanks-Free (x ∷ xs) b = (ground arith, IsBlanks-Free xs b.1)

scan_line :
    (key t : Bytes) (to e : ℕ)
    → Free b':' key
    → Free b'\r' key
    → Free b'\r' t
    → length key + 1 + length t ≡ to
    → scan 0 none e (key ++ b':' ∷ (t ++ b'\r' ∷ b'\n' ∷ [])) ≡ (some (length key), to)
scan_line key t to e f g h k =
    scan_key key _ 0 (length key) e f g (omega arith)
    ∙ scan_text t _ (length key + 1) to (length key) e h k
    ∙ scan_end to (length key) e

-- A header line sets one property: the text before the first colon, which holds no line end, and
-- the text behind it without the spaces and tabs round it, if that is not empty.
header_to_object_callback_lem :
    (key pre v post : Bytes)
    → Free b':' key
    → Free b'\r' key
    → IsBlanks pre
    → Free b'\r' v
    → IsBlanks post
    → 0 < length v
    → is_blank_at v 0 ≡ false
    → is_blank_at v (length v - 1) ≡ false
    → header_to_object_callback (key ++ b':' ∷ (pre ++ (v ++ (post ++ b'\r' ∷ b'\n' ∷ []))))
      ≡ set_property key v
unfolding header_to_object_callback
header_to_object_callback_lem key pre v post no_colon key_free pre_blank v_free post_blank
      some_value begins ends =
    let tail : Bytes = b'\r' ∷ b'\n' ∷ [] in
    let front : Bytes = key ++ b':' ∷ [] in
    let t : Bytes = pre ++ (v ++ post) in
    let grouped : pre ++ (v ++ (post ++ tail)) ≡ t ++ tail = simp append_assoc in
    let whole : key ++ b':' ∷ (pre ++ (v ++ (post ++ tail))) ≡ line front pre v post tail =
      sym (append_assoc key (b':' ∷ []) _) in
    let size : length front ≡ length key + 1 = length-append key (b':' ∷ []) in
    let until : ℕ = to front pre v post in
    let found : scan 0 none (length (key ++ b':' ∷ (pre ++ (v ++ (post ++ tail)))))
          (key ++ b':' ∷ (pre ++ (v ++ (post ++ tail))))
        ≡ (some (length key), until) =
      rw grouped (
        scan_line key t until _ no_colon key_free
          (Free-append b'\r' pre _ (IsBlanks-Free pre pre_blank)
            (Free-append b'\r' v _ v_free (IsBlanks-Free post post_blank)))
          (omega (arith, size, length-append pre (v ++ post), length-append v post))) in
    let buffer : Bytes = key ++ b':' ∷ (pre ++ (v ++ (post ++ tail))) in
    let nonzero : (until == 0) ≡ false = ground arith in
    let value : header_value buffer (skip_blanks (until - (length key + 1)) buffer (length key + 1))
          until
        ≡ v =
      ap (λ (n : ℕ). header_value buffer (skip_blanks (until - n) buffer n) until) (sym size)
      ∙ ap
          (λ (b : Bytes).
            header_value b (skip_blanks (until - length front) b (length front)) until)
          whole
      ∙ ap (λ (k : ℕ). header_value (line front pre v post tail) k until)
          (trimmed_start front pre v post tail pre_blank post_blank some_value begins ends)
      ∙ value_found front pre v post tail pre_blank post_blank some_value begins ends in
    rw found (
      rw (nonzero, take-append_exact key (b':' ∷ (pre ++ (v ++ (post ++ tail)))))
        (ap (set_property key) value))
