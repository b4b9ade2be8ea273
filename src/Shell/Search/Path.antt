-- ===== src/Shell/Search/Path.antt =====
-- shell.c: the directories of PATH.
use planck.Text.{runs, onto_first}
use planck.Shell.Search.{
  count_occurrences, up_to_colon, ends_with_slash, dir_of, split_loop, split_path,
}
use planck.Prelude.{
  suc, ◌+◌, ◌≡◌, ◌≢◌, ◌⊎◌, ◌++◌, refl, subst, true, false, codes, append-nil, sym, ap, ◌∙◌, List,
  [], ◌∷◌, Bytes, ◌==◌, map, arith, Bool-cases, inl, inr,
}

-- The first piece is the first run, and the others are split off behind it.
split_off :
    (s : Bytes)
    → (rs : List Bytes) × (runs b':' s ≡ (up_to_colon s).0 ∷ rs)
      × (split_loop (count_occurrences s b':') (up_to_colon s).1 ≡ map dir_of rs)
unfolding runs onto_first count_occurrences up_to_colon split_loop
split_off [] = ([], refl, refl)
split_off (x ∷ s) = elim (Bool-cases (x == b':')) [
  | inl colon ↦
      let (rs, r, l) = split_off s in
      let one_more : 1 + count_occurrences s b':' ≡ suc (count_occurrences s b':') = omega arith in
      (
        runs b':' s,
        rw colon refl,
        rw colon (
            ap (λ n. split_loop n s) one_more
            ∙ ap (λ t. dir_of (up_to_colon s).0 ∷ t) l
            ∙ ap (map dir_of) (sym r)),
      )
  | inr other ↦
      let (rs, r, l) = split_off s in
      let as_many : 0 + count_occurrences s b':' ≡ count_occurrences s b':' = omega arith in
      (rs, rw (other, r) refl, rw other (ap (λ n. split_loop n (up_to_colon s).1) as_many ∙ l))
]

-- The directories, by the pieces between the colons.
pub split_path_lem : (path : Bytes) → split_path path ≡ map dir_of (runs b':' path)
unfolding split_path split_loop
split_path_lem path =
    let (rs, r, l) = split_off path in
    let one_more : count_occurrences path b':' + 1 ≡ suc (count_occurrences path b':') =
      omega arith in
    ap (λ n. split_loop n path) one_more
    ∙ ap (λ t. dir_of (up_to_colon path).0 ∷ t) l
    ∙ ap (map dir_of) (sym r)

-- How a directory comes from a piece: it ends with a slash; it is `./` for an empty piece, the piece
-- itself if that ends with a slash, and else the piece and a slash.
pub record IsDirOf (piece dir : Bytes) : Type 0 where
  pub ends : (q : Bytes) × (dir ≡ q ++ codes "/")
  pub of_empty : piece ≡ [] → dir ≡ codes "./"
  pub kept : (q : Bytes) → piece ≡ q ++ codes "/" → dir ≡ piece
  pub added : piece ≢ [] → (dir ≡ piece) ⊎ (dir ≡ piece ++ codes "/")

ends_with_slash_sound : (s : Bytes) → ends_with_slash s ≡ true → (q : Bytes) × (s ≡ q ++ codes "/")
ends_with_slash_sound [] e = absurd cc
ends_with_slash_sound (x ∷ []) e = ([], ap (λ c. c ∷ []) (ground arith))
ends_with_slash_sound (x ∷ y ∷ s) e =
    let (q, f) = ends_with_slash_sound (y ∷ s) e in (x ∷ q, ap (◌∷◌ x) f)

ends_with_slash_complete : (q : Bytes) → ends_with_slash (q ++ codes "/") ≡ true
ends_with_slash_complete [] = refl
ends_with_slash_complete (x ∷ []) = refl
ends_with_slash_complete (x ∷ y ∷ q) = ends_with_slash_complete (y ∷ q)

dir_of-IsDirOf : (piece : Bytes) → IsDirOf piece (dir_of piece)
dir_of-IsDirOf [] = record {
  ends = (codes ".", refl);
  of_empty = λ e. refl;
  kept = λ q e.
      let none_ends : false ≡ true = ap ends_with_slash e ∙ ends_with_slash_complete q in absurd cc;
  added = λ ne. absurd (ne refl);
}
dir_of-IsDirOf (x ∷ s) = elim (Bool-cases (ends_with_slash (x ∷ s))) [
  | inl slash ↦
      rw (slash, append-nil s)
        (record {
          ends = ends_with_slash_sound (x ∷ s) slash;
          of_empty = λ e. absurd cc;
          kept = λ q e. refl;
          added = λ ne. inl refl;
        })
  | inr no_slash ↦ rw no_slash (record {
    ends = (x ∷ s, refl);
    of_empty = λ e. absurd cc;
    kept = λ q e. let does = ap ends_with_slash e ∙ ends_with_slash_complete q in absurd cc;
    added = λ ne. inr refl;
  })
]

abbrev pub AllDirs : List Bytes → List Bytes → Type 0
AllDirs [] [] = Unit
AllDirs (piece ∷ pieces) (dir ∷ dirs) = IsDirOf piece dir × AllDirs pieces dirs
AllDirs _ _ = ⊥

map-AllDirs : (pieces : List Bytes) → AllDirs pieces (map dir_of pieces)
map-AllDirs [] = tt
map-AllDirs (piece ∷ pieces) = (dir_of-IsDirOf piece, map-AllDirs pieces)

-- There is one directory for each piece between the colons, in order and for the empty ones too: it
-- is `./` for an empty piece, the piece itself if that ends with a slash, and else the piece with a
-- slash behind it.
pub split_path-AllDirs : (path : Bytes) → AllDirs (runs b':' path) (split_path path)
split_path-AllDirs path =
    subst (AllDirs (runs b':' path)) (sym (split_path_lem path)) (map-AllDirs (runs b':' path))
