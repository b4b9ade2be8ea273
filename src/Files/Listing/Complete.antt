-- ===== src/Files/Listing/Complete.antt =====
-- functions.c: the array of paths never overflows, and the listing is complete.
use planck.Files.Listing.{
  Paths, add_path, cut_slash, is_listed, path_in, list_loop, function_list_files,
}
use planck.Prelude.{
  ◌+◌, ◌*◌, ◌-◌, ◌<◌, ◌≡◌, refl, sym, ap, ◌∙◌, Option, some, List, [], ◌∷◌, ◌++◌, Bytes, Bool-cases,
  inl, inr, arith, append-nil, append_assoc, length, length-append, take-all, map, ◌==◌,
  if◌then◌else◌,
}

-- The names but "." and "..".
pub listed : List Bytes → List Bytes
listed [] = []
listed (name ∷ names) = if is_listed name then name ∷ listed names else listed names

abbrev pub under : Bytes → List Bytes → List Bytes
under path names = map (λ (name : Bytes). path ++ b'/' ∷ name) names

path_in_lem : (path name : Bytes) → path_in path name ≡ path ++ b'/' ∷ name
unfolding path_in
path_in_lem path name =
    take-all (length path + length name + 2 - 1) (path ++ b'/' ∷ name)
      (omega (arith, length-append path (b'/' ∷ name)))

add_path_lem :
    (path : Bytes) (p : Paths)
    → length p.paths < p.capacity
    → (p' : Paths) × (add_path path p ≡ some p')
      × (p'.paths ≡ p.paths ++ path ∷ [])
      × (length p'.paths < p'.capacity)
unfolding add_path
add_path_lem path p h = (
  record {
    capacity = if length p.paths + 1 == p.capacity then p.capacity * 2 else p.capacity;
    paths = p.paths ++ path ∷ [];
  },
  ground arith,
  refl,
  ground (arith, length-append p.paths (path ∷ [])),
)

list_loop_lem :
    (path : Bytes) (names : List Bytes) (p : Paths)
    → length p.paths < p.capacity
    → (p' : Paths) × (list_loop path names p ≡ some p')
      × (p'.paths ≡ p.paths ++ under path (listed names))
unfolding list_loop listed
list_loop_lem path [] p h = (p, refl, sym (append-nil p.paths))
list_loop_lem path (name ∷ names) p h = elim (Bool-cases (is_listed name)) [
  | inl shown ↦
      let (p1, e1, paths, room) = add_path_lem (path_in path name) p h in
      let (p2, e2, all) = list_loop_lem path names p1 room in
      (
        p2,
        rw shown (rw e1 e2),
        rw shown (
            all
            ∙ ap (λ (t : List Bytes). t ++ under path (listed names)) paths
            ∙ append_assoc p.paths (path_in path name ∷ []) (under path (listed names))
            ∙ ap (λ (t : Bytes). p.paths ++ t ∷ under path (listed names)) (path_in_lem path name)),
      )
  | inr hidden ↦
      let (p2, e2, all) = list_loop_lem path names p h in (p2, rw hidden e2, rw hidden all)
]

-- The files of a directory that can be opened are all its entries but "." and "..", in order,
-- each behind the path, from which one slash at the end has been cut, and a slash; the array is
-- never written outside, however many there are.
pub function_list_files_lem :
    (opendir : Bytes → Option (List Bytes)) (path : Bytes) {names : List Bytes}
    → opendir path ≡ some names
    → function_list_files opendir path ≡ some (under (cut_slash path) (listed names))
unfolding function_list_files
function_list_files_lem opendir path {names} e =
    let (p, run, all) =
      list_loop_lem (cut_slash path) names (record { capacity = 32; paths = [] }) (omega arith) in
    rw e (rw run (ap some all))
