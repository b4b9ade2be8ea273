-- ===== src/Load/First.antt =====
-- functions.c: `function_load` returns the first of what the places in its search order offer.
use planck.Config.{SrcPath}
use planck.Memory.{c_string}
use planck.Text.{str_concat}
use planck.Load.{
  Places, bundled, Search, Loaded, result, look_in, look_along, developing, start_search,
  load_along, load_out, load_bundled, function_load, present,
}
use planck.Prelude.{
  ℕ, ◌≡◌, refl, ap, ◌∙◌, inl, inr, Bool, true, false, not, Option, none, some, List, [], ◌∷◌, Bytes,
  map, arith, if◌then◌else◌, Option-cases,
}
use planck.Load.Place.{loaded_from, map_some, offer, Left, Searching, look_in-Left}

abbrev pub first {ℓ} : {A : Type ℓ} → List (Option A) → Option A
first [] = none
first (none ∷ os) = first os
first (some a ∷ os) = some a

empty_result : (v : Search) → result v ≡ none → v.contents ≡ none
unfolding result
empty_result v h = elim (Option-cases v.contents) [ inl e ↦ e | inr (c, e) ↦ cc ]

full_result : (v : Search) (l : Loaded) → result v ≡ some l → present v.contents ≡ true
unfolding result
full_result v l h = elim (Option-cases v.contents) [ inl e ↦ cc | inr (c, e) ↦ rw e ]

to_Searching : (path : Bytes) (v : Search) → Left path none v → Searching path v
to_Searching path v h =
    let nothing = empty_result v h.result_is in
    record { nothing = nothing; path_is = h.same_path nothing }

absent : (path : Bytes) (v : Search) → Searching path v → present v.contents ≡ false
absent path v h = rw h.nothing

abbrev pub brief : Loaded → Bytes × ℕ
brief l = (l.contents_str, l.last_modified)

abbrev str_of : Bytes × ℕ → Bytes × ℕ
str_of (c, t) = (c_string c, t)

first-first :
    {A : Type 0} (a b c : Option A) → first (first (a ∷ b ∷ []) ∷ c ∷ []) ≡ first (a ∷ b ∷ c ∷ [])
first-first none none c = refl
first-first none (some b) c = refl
first-first (some a) b c = refl

module _ (places : Places) where
  look_along-Left :
      (ss : List SrcPath) (path : Bytes) (v : Search)
      → Searching path v
      → Left path (first (map (offer places path) ss)) (look_along places ss path v).1
  unfolding look_along
  look_along-Left [] path v h = record {
    result_is = unfold result in rw h.nothing;
    same_path = λ e. h.path_is;
  }
  look_along-Left (s ∷ ss) path v h =
      by_offer (offer places path s) (look_in-Left places s path v h)
        (λ v' h'. look_along-Left ss path v' h')
    where
      by_offer :
          (o : Option Loaded)
          → Left path o (look_in places s path v).1
          → ((v' : Search)
              → Searching path v'
              → Left path (first (map (offer places path) ss)) (look_along places ss path v').1)
          → Left path (first (o ∷ map (offer places path) ss)) (look_along places (s ∷ ss) path v).1
      by_offer none left rest =
          let v' = (look_in places s path v).1 in
          let now = to_Searching path v' left in rw (absent path v' now) (rest v' now)
      by_offer (some l) left rest = rw (full_result _ l left.result_is) left

  load_along-Left :
      (o : Option Loaded) (ss : List SrcPath) (path : Bytes) (v : Search)
      → Left path o v
      → Left path (first (o ∷ map (offer places path) ss)) (load_along places ss path v).1
  load_along-Left none ss path v h =
      let now = to_Searching path v h in rw (absent path v now) (look_along-Left ss path v now)
  load_along-Left (some l) ss path v h = rw (full_result v l h.result_is) h

  -- The bundle comes first, and last where Planck's own sources are on the class path.
  abbrev pub bundled_first : List SrcPath → Bytes → Option Loaded
  bundled_first ss path =
      if developing ss
      then none
      else map_some (λ c. loaded_from path (some bundled) none (c, 0)) (places.bundle path)

  start_search-Left :
      (ss : List SrcPath) (path : Bytes)
      → Left path (bundled_first ss path) (start_search places ss path)
  unfolding start_search result
  start_search-Left ss path = by_mode (developing ss) (places.bundle path)
    where
      by_mode :
          (dev : Bool) (o : Option Bytes)
          → Left path
              (if dev then none else map_some (λ c. loaded_from path (some bundled) none (c, 0)) o)
              (let v : Search = record {
                contents = none;
                last_modified = 0;
                loaded_path = path;
                loaded_type = none;
                loaded_location = none;
                printed = [];
              } in
                if not dev then record v { contents = o; loaded_type = some bundled } else v)
      by_mode true o = record { result_is = refl; same_path = λ e. refl }
      by_mode false none = record { result_is = refl; same_path = λ e. refl }
      by_mode false (some c) = record { result_is = refl; same_path = λ e. refl }

  abbrev pub on_path : List SrcPath → Bytes → Option Loaded
  on_path ss path = first (bundled_first ss path ∷ map (offer places path) ss)

  abbrev pub in_out : Option Bytes → Bytes → Option (Bytes × ℕ)
  in_out none path = none
  in_out (some out_path) path = map_some str_of (places.file (str_concat out_path path))

  -- What is behind the class path is asked only where the class path has nothing.
  abbrev pub last_resort : Bool → Bytes → Option (Bytes × ℕ)
  last_resort dev path = if dev then map_some (λ c. (c_string c, 0)) (places.bundle path) else none

  bundled-brief :
      (dev : Bool) (path : Bytes) (v : Search)
      → map_some brief (result (load_bundled places dev path v))
        ≡ first (map_some brief (result v) ∷ last_resort dev path ∷ [])
  unfolding result
  bundled-brief dev path v = ground arith

  out-brief :
      (out_path : Option Bytes) (path : Bytes) (v : Search)
      → map_some brief (result (load_out places out_path path v))
        ≡ first (map_some brief (result v) ∷ in_out out_path path ∷ [])
  unfolding result
  out-brief none path v = ground arith
  out-brief (some out_path) path v = ground arith

  load_out-some :
      (out_path : Option Bytes) (path : Bytes) (v : Search) (l : Loaded)
      → result v ≡ some l
      → load_out places out_path path v ≡ v
  load_out-some none path v l h = refl
  load_out-some (some out_path) path v l h = rw (full_result v l h)

  load_bundled-some :
      (dev : Bool) (path : Bytes) (v : Search) (l : Loaded)
      → result v ≡ some l
      → load_bundled places dev path v ≡ v
  load_bundled-some false path v l h = refl
  load_bundled-some true path v l h = rw (full_result v l h)

  behind-brief :
      (dev : Bool) (out_path : Option Bytes) (path : Bytes) (v : Search) (o : Option Loaded)
      → result v ≡ o
      → map_some brief (result (load_bundled places dev path (load_out places out_path path v)))
        ≡ first (map_some brief o ∷ in_out out_path path ∷ last_resort dev path ∷ [])
  behind-brief dev out_path path v o h =
      bundled-brief dev path _
      ∙ ap (λ b. first (b ∷ last_resort dev path ∷ [])) (out-brief out_path path v)
      ∙ first-first (map_some brief (result v)) (in_out out_path path) _
      ∙ ap (λ r. first (map_some brief r ∷ in_out out_path path ∷ last_resort dev path ∷ [])) h

  -- Where the bundle or an entry of the class path offers a resource, the first that does is the
  -- result, with its time, path, type and location; the output directory does not matter.
  function_load-on_path :
      (out_path : Option Bytes) (ss : List SrcPath) (path : Bytes) (l : Loaded)
      → on_path ss path ≡ some l
      → result (function_load places out_path ss path).1 ≡ some l
  unfolding function_load
  function_load-on_path out_path ss path l h =
      let left = load_along-Left (bundled_first ss path) ss path _ (start_search-Left ss path) in
      let found = left.result_is ∙ h in
      ap result (
        ap (load_bundled places (developing ss) path) (load_out-some out_path path _ l found)
        ∙ load_bundled-some (developing ss) path _ l found)
      ∙ found

  -- The contents and the time are those of the first place that offers the resource: the bundle
  -- (unless Planck's own sources are the class path), the entries of the class path in order, the
  -- output directory, and the bundle at last where Planck's own sources are the class path; null
  -- where there is none.
  pub function_load-first :
      (out_path : Option Bytes) (ss : List SrcPath) (path : Bytes)
      → map_some brief (result (function_load places out_path ss path).1)
        ≡ first (
            map_some brief (on_path ss path)
            ∷ in_out out_path path
            ∷ last_resort (developing ss) path
            ∷ [])
  unfolding function_load
  function_load-first out_path ss path =
      let left = load_along-Left (bundled_first ss path) ss path _ (start_search-Left ss path) in
      behind-brief (developing ss) out_path path _ _ left.result_is
