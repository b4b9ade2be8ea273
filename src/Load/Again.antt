-- ===== src/Load/Again.antt =====
-- functions.c: what `function_load` leaves in the class path does not change later answers.
use planck.Config.{PathType, src, jar, SrcPath}
use planck.Load.{
  Places, Search, result, look_in, look_along, developing, start_search, load_along, load_out,
  load_bundled, function_load, present, in_jar, examined_jar, in_front,
}
use planck.Text.{str_has_suffix}
use planck.Prelude.{
  map, codes, ◌≡◌, refl, sym, ap, ◌∙◌, inl, inr, Bool, true, false, Option, none, some, List, [],
  ◌∷◌, Bytes, arith, if◌then◌else◌, Bool-cases,
}

-- All but what is printed.
abbrev quiet : Search → Search
quiet v = record v { printed = [] }

-- What `function_load` never changes in an entry.
abbrev kind : SrcPath → PathType × Bytes
kind s = (s.type, s.path)

abbrev own_sources : PathType × Bytes → Bool
own_sources (src, p) = str_has_suffix p (codes "/planck-cljs/src/")
own_sources (jar, p) = false

abbrev only_source_kind : List (PathType × Bytes) → Bool
only_source_kind (k ∷ []) = own_sources k
only_source_kind _ = false

developing-kind : (ss : List SrcPath) → developing ss ≡ only_source_kind (map kind ss)
unfolding developing
developing-kind [] = refl
developing-kind (s ∷ []) = by_type s.type s.path s.archive s.blacklisted
  where
    by_type :
        (t : PathType) (p : Bytes) (archive blacklisted : Bool)
        → (let s : SrcPath = record {
          type = t;
          path = p;
          archive = archive;
          blacklisted = blacklisted;
        } in
            developing (s ∷ []) ≡ only_source_kind (kind s ∷ []))
    by_type src p archive blacklisted = refl
    by_type jar p archive blacklisted = refl
developing-kind (s ∷ s' ∷ ss) = refl

module _ (places : Places) where
  record Again (s : SrcPath) (path : Bytes) (v : Search) (once : SrcPath × Search) : Type 0 where
    settled : (look_in places once.0 path v).0 ≡ once.0
    same : quiet (look_in places once.0 path v).1 ≡ quiet once.1

  in_jar_again :
      (s : SrcPath) (path : Bytes) (v w : Search)
      → quiet v ≡ quiet w
      → quiet (in_jar places (examined_jar places s) path w) ≡ quiet (in_jar places s path v)
  in_jar_again s path v w h = ground arith

  look_in-Again :
      (s : SrcPath) (path : Bytes) (v w : Search)
      → quiet v ≡ quiet w
      → Again s path w (look_in places s path v)
  unfolding look_in
  look_in-Again s path v w h = by_type s.type s.path s.archive s.blacklisted
    where
      by_type :
          (t : PathType) (p : Bytes) (archive blacklisted : Bool)
          → (let s : SrcPath = record {
            type = t;
            path = p;
            archive = archive;
            blacklisted = blacklisted;
          } in
              Again s path w (look_in places s path v))
      by_type src p archive true = record { settled = refl; same = sym h }
      by_type src p archive false = record { settled = refl; same = ground arith }
      by_type jar p archive true = record { settled = refl; same = sym h }
      by_type jar p archive false = record { settled = ground arith; same = ground arith }

  record AgainAlong (path : Bytes) (v : Search) (once : List SrcPath × Search) : Type 0 where
    settled : (look_along places once.0 path v).0 ≡ once.0
    same : quiet (look_along places once.0 path v).1 ≡ quiet once.1

  -- One entry and the rest of the class path, where `found` tells whether the entry ends the search.
  one_and_rest :
      (s' : SrcPath) (ss : List SrcPath) (path : Bytes) (w v' w' : Search) (found : Bool)
      → look_in places s' path w ≡ (s', w')
      → quiet w' ≡ quiet v'
      → present v'.contents ≡ found
      → AgainAlong path w' (look_along places ss path v')
      → AgainAlong path w
          (if found then (s' ∷ ss, v') else in_front s' (look_along places ss path v'))
  unfolding look_along
  one_and_rest s' ss path w v' w' true e q f rest =
      let here : present w'.contents ≡ true = ap (λ u. present u.contents) q ∙ f in
      record { settled = rw e (rw here); same = rw e (rw here q) }
  one_and_rest s' ss path w v' w' false e q f rest =
      let here : present w'.contents ≡ false = ap (λ u. present u.contents) q ∙ f in
      record {
        settled = rw e (rw here (ap (λ rs. s' ∷ rs) rest.settled));
        same = rw e (rw here rest.same);
      }

  look_along-AgainAlong :
      (ss : List SrcPath) (path : Bytes) (v w : Search)
      → quiet v ≡ quiet w
      → AgainAlong path w (look_along places ss path v)
  unfolding look_along
  look_along-AgainAlong [] path v w h = record { settled = refl; same = sym h }
  look_along-AgainAlong (s ∷ ss) path v w h =
      let one = look_in-Again s path v w h in
      let (s', v') = look_in places s path v in
      let w' = (look_in places s' path w).1 in
      let rest = look_along-AgainAlong ss path v' w' (sym one.same) in
      one_and_rest s' ss path w v' w' (present v'.contents) (ap (λ r. (r, w')) one.settled) one.same
        refl rest

  kind-look_in :
      (s : SrcPath) (path : Bytes) (v : Search) → kind (look_in places s path v).0 ≡ kind s
  unfolding look_in
  kind-look_in s path v = by_type s.type s.path s.archive s.blacklisted
    where
      by_type :
          (t : PathType) (p : Bytes) (archive blacklisted : Bool)
          → (let s : SrcPath = record {
            type = t;
            path = p;
            archive = archive;
            blacklisted = blacklisted;
          } in
              kind (look_in places s path v).0 ≡ kind s)
      by_type src p archive blacklisted = ground arith
      by_type jar p archive blacklisted = ground arith

  kinds-look_along :
      (ss : List SrcPath) (path : Bytes) (v : Search)
      → map kind (look_along places ss path v).0 ≡ map kind ss
  unfolding look_along
  kinds-look_along [] path v = refl
  kinds-look_along (s ∷ ss) path v =
      let front = kind-look_in s path v in
      let v' = (look_in places s path v).1 in
      let rest = kinds-look_along ss path v' in
      by_result (look_in places s path v).0 v' (present v'.contents) front rest
    where
      by_result :
          (s' : SrcPath) (v' : Search) (found : Bool)
          → kind s' ≡ kind s
          → map kind (look_along places ss path v').0 ≡ map kind ss
          → map kind (if found then (s' ∷ ss, v') else in_front s' (look_along places ss path v')).0
            ≡ kind s ∷ map kind ss
      by_result s' v' true front rest = rw front refl
      by_result s' v' false front rest = rw front (rw rest refl)

  load_along_again :
      (ss : List SrcPath) (path : Bytes) (v : Search)
      → ((load_along places (load_along places ss path v).0 path v).0
          ≡ (load_along places ss path v).0)
        × (quiet (load_along places (load_along places ss path v).0 path v).1
            ≡ quiet (load_along places ss path v).1)
  load_along_again ss path v = elim (Bool-cases (present v.contents)) [
    | inl has ↦ rw has (refl, refl)
    | inr lacks ↦
        let again = look_along-AgainAlong ss path v v refl in rw lacks (again.settled, again.same)
  ]

  start_search-kinds :
      (ss ss' : List SrcPath) (path : Bytes)
      → map kind ss ≡ map kind ss'
      → (developing ss ≡ developing ss')
        × (start_search places ss path ≡ start_search places ss' path)
  unfolding start_search
  start_search-kinds ss ss' path h =
      let same = developing-kind ss ∙ ap only_source_kind h ∙ sym (developing-kind ss') in
      (same, rw same refl)

  abbrev finish : Option Bytes → Bytes → Bool → Search → Search
  finish out_path path dev v = load_bundled places dev path (load_out places out_path path v)

  finish-quiet :
      (out_path : Option Bytes) (path : Bytes) (dev : Bool) (v : Search)
      → result (finish out_path path dev (quiet v)) ≡ result (finish out_path path dev v)
  unfolding result
  finish-quiet none path dev v = ground arith
  finish-quiet (some o) path dev v = ground arith

  kinds-load_along :
      (ss : List SrcPath) (path : Bytes) (v : Search)
      → map kind (load_along places ss path v).0 ≡ map kind ss
  kinds-load_along ss path v = elim (Bool-cases (present v.contents)) [
    | inl has ↦ rw has refl
    | inr lacks ↦ rw lacks (kinds-look_along ss path v)
  ]

  -- In the same surroundings a second load of the same resource returns the same as the first,
  -- although the first may have opened or blacklisted JARs, and it leaves the class path as it is.
  pub function_load-twice :
      (out_path : Option Bytes) (ss : List SrcPath) (path : Bytes)
      → (let first = function_load places out_path ss path in
          let second = function_load places out_path first.0 path in
          (second.0 ≡ first.0) × (result second.1 ≡ result first.1))
  unfolding function_load
  function_load-twice out_path ss path =
      let v = start_search places ss path in
      let once = load_along places ss path v in
      let (dev, start) = start_search-kinds once.0 ss path (kinds-load_along ss path v) in
      let (settled, same) = load_along_again ss path v in
      (
        ap (λ u. (load_along places once.0 path u).0) start ∙ settled,
        sym (finish-quiet out_path path _ _)
            ∙ ap
                (λ d. result (
                  finish out_path path d
                    (quiet (load_along places once.0 path (start_search places once.0 path)).1)))
                dev
            ∙ ap
                (λ u. result (
                  finish out_path path (developing ss) (quiet (load_along places once.0 path u).1)))
                start
            ∙ ap (λ u. result (finish out_path path (developing ss) u)) same
            ∙ finish-quiet out_path path _ _,
      )
