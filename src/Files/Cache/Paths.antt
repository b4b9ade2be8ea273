-- ===== src/Files/Cache/Paths.antt =====
-- functions.c: the paths of the cache files fit into their block.
use planck.Memory.{memcpy, memcpy_lem, c_string, c_string_front, spliced, length-spliced}
use planck.Files.Cache.{max_suffix_len, path_block, path_with, Event, writes, third, function_cache}
use planck.Prelude.{
  ℕ, ◌+◌, ◌≤◌, ◌<◌, ◌≡◌, refl, sym, ap, ◌∙◌, Option, none, some, List, [], ◌∷◌, ◌++◌, Bytes, codes,
  Free, arith, append_assoc, length, length-append, length-replicate, drop, take-append_exact,
}

-- What is in front of the block, once a text with its zero is copied behind a prefix.
copied :
    (prefix suffix rest : Bytes)
    → prefix ++ ((suffix ++ 0 ∷ []) ++ rest) ≡ (prefix ++ suffix) ++ 0 ∷ rest
copied prefix suffix rest =
    ap (λ (t : Bytes). prefix ++ t) (append_assoc suffix (0 ∷ []) rest)
    ∙ sym (append_assoc prefix suffix (0 ∷ rest))

module _ (prefix : Bytes) (free : Free 0 prefix) where
  strcpy_lem :
      (path : Bytes)
      → length path ≡ length prefix + max_suffix_len
      → (rest : Bytes) × (memcpy path 0 (prefix ++ 0 ∷ []) ≡ some (prefix ++ 0 ∷ rest))
        × (length (prefix ++ 0 ∷ rest) ≡ length prefix + max_suffix_len)
  strcpy_lem path size =
      let fits : 0 + length (prefix ++ 0 ∷ []) ≤ length path =
        omega (arith, size, length-append prefix (0 ∷ [])) in
      let rest = drop (0 + length (prefix ++ 0 ∷ [])) path in
      let e : (prefix ++ 0 ∷ []) ++ rest ≡ prefix ++ 0 ∷ rest = append_assoc prefix (0 ∷ []) rest in
      (
        rest,
        memcpy_lem path 0 (prefix ++ 0 ∷ []) fits ∙ ap some e,
        ap length (sym e) ∙ length-spliced path 0 (prefix ++ 0 ∷ []) fits ∙ size,
      )

  -- The path and its zero stand at the front of the block, which keeps its length.
  path_with_lem :
      (suffix path : Bytes)
      → Free 0 (prefix ++ suffix)
      → length suffix < max_suffix_len
      → length path ≡ length prefix + max_suffix_len
      → (path' : Bytes) × (path_with prefix suffix path ≡ some path')
        × (length path' ≡ length prefix + max_suffix_len)
        × (c_string path' ≡ prefix ++ suffix)
  unfolding path_with
  path_with_lem suffix path all_free short size =
      let (rest, e1, size1) = strcpy_lem path size in
      let m = prefix ++ 0 ∷ rest in
      let at_end : length (c_string m) ≡ length prefix =
        ap length (c_string_front prefix rest free) in
      let fits : length prefix + length (suffix ++ 0 ∷ []) ≤ length m =
        omega (arith, size1, length-append suffix (0 ∷ [])) in
      let front : spliced m (length prefix) (suffix ++ 0 ∷ [])
          ≡ (prefix ++ suffix) ++ 0 ∷ drop (length prefix + length (suffix ++ 0 ∷ [])) m =
        rw (take-append_exact prefix (0 ∷ rest)) (copied prefix suffix _) in
      (
        spliced m (length prefix) (suffix ++ 0 ∷ []),
        rw e1 (
            ap (λ n. memcpy m n (suffix ++ 0 ∷ [])) at_end
            ∙ memcpy_lem m (length prefix) (suffix ++ 0 ∷ []) fits),
        length-spliced m (length prefix) (suffix ++ 0 ∷ []) fits ∙ size1,
        ap c_string front ∙ c_string_front (prefix ++ suffix) _ all_free,
      )

Free-append : (c : ℕ) (a b : Bytes) → Free c a → Free c b → Free c (a ++ b)
Free-append c [] b f g = g
Free-append c (x ∷ a) b f g = (f.0, Free-append c a b f.1 g)

-- What is to happen: the source and the cache are written, and the source map if there is one.
abbrev pub expected : Bytes → Bytes → Bytes → Option Bytes → List Event
expected prefix source cache none =
    writes (prefix ++ codes ".js") source ∷ writes (prefix ++ codes ".cache.json") cache ∷ []
expected prefix source cache (some map) =
    writes (prefix ++ codes ".js") source
    ∷ writes (prefix ++ codes ".cache.json") cache
    ∷ writes (prefix ++ codes ".js.map.json") map
    ∷ []

as_expected :
    (prefix : Bytes) {source cache : Bytes} (p1 p2 p3 : Bytes) (sourcemap : Option Bytes)
    → c_string p1 ≡ prefix ++ codes ".js"
    → c_string p2 ≡ prefix ++ codes ".cache.json"
    → c_string p3 ≡ prefix ++ codes ".js.map.json"
    → writes (c_string p1) source ∷ writes (c_string p2) cache ∷ third sourcemap (some p3)
      ≡ expected prefix source cache sourcemap
as_expected prefix p1 p2 p3 none c1 c2 c3 = rw (c1, c2) refl
as_expected prefix p1 p2 p3 (some map) c1 c2 c3 = rw (c1, c2, c3) refl

-- With a cache that is not null the files are the prefix with .js, .cache.json and, if there is a
-- source map, .js.map.json behind it, and no path is written behind its block.
pub function_cache_lem :
    (prefix source cache : Bytes) (sourcemap : Option Bytes)
    → Free 0 prefix
    → function_cache prefix source (some cache) sourcemap ≡ expected prefix source cache sourcemap
unfolding function_cache
function_cache_lem prefix source cache sourcemap free =
    let (p1, e1, size1, c1) =
      path_with_lem prefix free (codes ".js") (path_block prefix)
        (Free-append 0 prefix (codes ".js") free (omega arith)) (omega arith)
        (length-replicate {A = ℕ} (length prefix + max_suffix_len) 0) in
    let (p2, e2, size2, c2) =
      path_with_lem prefix free (codes ".cache.json") p1
        (Free-append 0 prefix (codes ".cache.json") free (omega arith)) (omega arith) size1 in
    let (p3, e3, size3, c3) =
      path_with_lem prefix free (codes ".js.map.json") p2
        (Free-append 0 prefix (codes ".js.map.json") free (omega arith)) (omega arith) size2 in
    rw (e1, e2, e3) (as_expected prefix p1 p2 p3 sourcemap c1 c2 c3)
