-- ===== src/Http/Request/Sent.antt =====
-- http.c: the headers that are sent.
use planck.Memory.{memcpy, memcpy_lem, c_string, c_string_front}
use planck.Http.Request.{Key, as_line, format_line, header_line, header_lines}
use planck.Prelude.{
  ℕ, ◌+◌, ◌≤◌, ◌<◌, ◌≡◌, refl, sym, ap, ◌∙◌, some, List, [], ◌∷◌, ◌++◌, Bytes, codes, Free,
  append_assoc, arith, length, length-append, length-replicate, replicate, map, drop,
}

-- What JavaScriptCore documents: a text that fits with its zero is copied whole.
abbrev pub Copies : (ℕ → Bytes → Bytes) → Type 0
Copies get_utf8 = (n : ℕ) (s : Bytes) → length s < n → get_utf8 n s ≡ s

-- Keys and values are C strings, and a key has no more bytes than units: it is ASCII.
abbrev pub AllAscii : List (Key × Bytes) → Type 0
AllAscii [] = Unit
AllAscii ((k, v) ∷ hs) = (length k.utf8 ≤ k.units) × Free 0 k.utf8 × Free 0 v × AllAscii hs

Free-append : (a b : Bytes) → Free 0 a → Free 0 b → Free 0 (a ++ b)
Free-append [] b f g = g
Free-append (x ∷ a) b f g = (f.0, Free-append a b f.1 g)

header_line_lem :
    (get_utf8 : ℕ → Bytes → Bytes) (k : Key) (v : Bytes)
    → Copies get_utf8
    → length k.utf8 ≤ k.units
    → Free 0 k.utf8
    → Free 0 v
    → header_line get_utf8 (k, v) ≡ some (k.utf8 ++ (codes ": " ++ v))
unfolding header_line
header_line_lem get_utf8 k v copies ascii free_k free_v =
    let whole = copies (k.units + 1) k.utf8 (omega arith) in
    let text = k.utf8 ++ (codes ": " ++ v) in
    let block : Bytes = replicate (length k.utf8 + length v + 2 + 1) 0 in
    let regroup : k.utf8 ++ (codes ": " ++ (v ++ 0 ∷ [])) ≡ text ++ 0 ∷ [] =
      sym (append_assoc k.utf8 (codes ": " ++ v) (0 ∷ [])) in
    let size : length (text ++ 0 ∷ []) ≡ length k.utf8 + length v + 3 =
      omega (arith, length-append text (0 ∷ []), length-append k.utf8 (codes ": " ++ v)) in
    let rest = drop (0 + length (text ++ 0 ∷ [])) block in
    ap (λ (key : Bytes). format_line key v) whole
    ∙ ap (λ (t : Bytes). as_line (memcpy block 0 t)) regroup
    ∙ ap as_line (
        memcpy_lem block 0 (text ++ 0 ∷ [])
          (omega (arith, size, length-replicate {A = ℕ} (length k.utf8 + length v + 2 + 1) 0)))
    ∙ ap some (
        ap c_string (append_assoc text (0 ∷ []) rest)
        ∙ c_string_front text rest (
            Free-append k.utf8 (codes ": " ++ v) free_k
              (Free-append (codes ": ") v (omega arith) free_v)))

-- The headers of a request with ASCII names are sent in order as the name, a colon, a space and the
-- value, and none is written outside its block.
pub header_lines_lem :
    (get_utf8 : ℕ → Bytes → Bytes) (hs : List (Key × Bytes))
    → Copies get_utf8
    → AllAscii hs
    → header_lines get_utf8 hs
      ≡ some (map (λ (h : Key × Bytes). h.0.utf8 ++ (codes ": " ++ h.1)) hs)
unfolding header_lines
header_lines_lem get_utf8 [] copies ascii = refl
header_lines_lem get_utf8 ((k, v) ∷ hs) copies ascii =
    rw
      (
        header_line_lem get_utf8 k v copies ascii.0 ascii.1 ascii.2,
        header_lines_lem get_utf8 hs copies ascii.3,
      )
      refl
