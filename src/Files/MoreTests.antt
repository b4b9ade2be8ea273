-- ===== src/Files/MoreTests.antt =====
-- Runs of the functions for directories, caches, temporary files and descriptions of files.
use planck.Text.{str_has_suffix}
use planck.Files.Listing.{cut_slash, function_list_files}
use planck.Files.Listing.Complete.{under, listed, function_list_files_lem}
use planck.Files.Cache.{writes, null_contents, function_cache}
use planck.Files.Cache.Paths.{expected, function_cache_lem}
use planck.Files.Temporary.{Temp, function_mktemp, template}
use planck.Files.Temporary.Named.{Replaces, directory, function_mktemp-file}
use planck.Files.Info.{type_of}
use planck.Prelude.{
  ℕ, ◌+◌, ◌-◌, ◌≡◌, refl, sym, ap, ◌∙◌, true, none, some, List, [], ◌∷◌, ◌++◌, Bytes, codes, str_eq,
  arith, length, length-append, take, drop, take-append_exact, drop-append_exact, append_assoc,
}

abbrev entries : List Bytes
entries = codes "." ∷ codes "a" ∷ codes ".." ∷ codes "b.txt" ∷ []

list_files_run :
    function_list_files (λ path. some entries) (codes "dir/")
    ≡ some (under (cut_slash (codes "dir/")) (listed entries))
list_files_run = function_list_files_lem (λ path. some entries) (codes "dir/") refl

function_cache_lem_example :
    function_cache (codes "out/a") (codes "1") (some (codes "2")) (some (codes "3"))
    ≡ expected (codes "out/a") (codes "1") (codes "2") (some (codes "3"))
function_cache_lem_example =
    function_cache_lem (codes "out/a") (codes "1") (codes "2") (some (codes "3")) (omega arith)

-- A cache that is null.
cache_null :
    function_cache (codes "a") (codes "1") none none
    ≡ writes (codes "a.js") (codes "1") ∷ null_contents ∷ []
unfolding function_cache
cache_null = refl

abbrev six : Bytes
six = codes "aZ09bc"

-- The six bytes in front of the last `k`.
abbrev replaced : Bytes → ℕ → Bytes
replaced t k = take (length t - k - 6) t ++ (six ++ drop (length t - k) t)

replaced_lem :
    (front suffix : Bytes)
    → replaced (front ++ (codes "XXXXXX" ++ suffix)) (length suffix) ≡ front ++ (six ++ suffix)
replaced_lem front suffix =
    let t = front ++ (codes "XXXXXX" ++ suffix) in
    let whole : length t ≡ length front + 6 + length suffix =
      omega (arith, length-append front (codes "XXXXXX" ++ suffix)) in
    let first : length t - length suffix - 6 ≡ length front = omega (arith, whole) in
    let second : length t - length suffix ≡ length (front ++ codes "XXXXXX") =
      omega (arith, whole, length-append front (codes "XXXXXX")) in
    let grouped : t ≡ (front ++ codes "XXXXXX") ++ suffix =
      sym (append_assoc front (codes "XXXXXX") suffix) in
    ap (λ n. take n t ++ (six ++ drop (length t - length suffix) t)) first
    ∙ ap (λ f. f ++ (six ++ drop (length t - length suffix) t))
        (take-append_exact front (codes "XXXXXX" ++ suffix))
    ∙ ap (λ n. front ++ (six ++ drop n t)) second
    ∙ ap (λ u. front ++ (six ++ drop (length (front ++ codes "XXXXXX")) u)) grouped
    ∙ ap (λ u. front ++ (six ++ u)) (drop-append_exact (front ++ codes "XXXXXX") suffix)

abbrev always : Temp
always = record { mkdtemp = λ t. none; mkstemps = λ t k. some (replaced t k); close = true }

always-Replaces : Replaces always
always-Replaces = record {
  mkstemps_x = λ front suffix name e. (six, refl, some-inj (sym e) ∙ replaced_lem front suffix);
  mkdtemp_x = λ front name e. absurd (cc);
}
  where
    some-inj : {a b : Bytes} → some a ≡ some b → a ≡ b
    some-inj e = cc

mktemp_run :
    (x : Bytes) × (length x ≡ 6)
    × (codes "/tmp/preaZ09bc.txt" ≡ (directory none ++ codes "pre") ++ (x ++ codes ".txt"))
unfolding str_has_suffix str_eq function_mktemp template
mktemp_run =
    function_mktemp-file none (codes "pre") (codes ".txt") (omega arith) always always-Replaces refl

a_fifo : type_of 4516 ≡ codes "fifo"
unfolding type_of
a_fifo = refl
