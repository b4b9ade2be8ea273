-- ===== src/Classpath/Paths.antt =====
-- main.c: the shape of the paths that are searched.
use planck.Prelude.{
  ℕ, ◌⊎◌, ◌∙◌, append-nil, ◌≡◌, refl, sym, ap, inl, inr, true, false, Option, none, some, List, [],
  ◌∷◌, ◌++◌, Bytes, codes, Bool-cases, str_eq, arith, map, append_assoc,
}
use planck.Config.{src, jar, SrcPath}
use planck.Text.{str_has_suffix, str_has_prefix, tokens, nonempty, runs}
use planck.Text.Affix.{str_has_suffix_iff, str_has_prefix_iff}
use planck.Classpath.{
  ensure_trailing_slash, fully_qualify, get_current_working_dir, source_path, init_classpath,
}

slash_at_end : (s : Bytes) → (p : Bytes) × (ensure_trailing_slash s ≡ p ++ codes "/")
unfolding ensure_trailing_slash
slash_at_end s = elim (Bool-cases (str_has_suffix s (codes "/"))) [
  | inl has ↦ rw has ((str_has_suffix_iff s (codes "/")).0 has)
  | inr lacks ↦ rw lacks (s, refl)
]

-- A directory's path ends with a slash, one of a current directory too, and stays as it is if the
-- function is applied again.
pub ensure_trailing_slash_lem :
    (s : Bytes)
    → (str_has_suffix (ensure_trailing_slash s) (codes "/") ≡ true)
      × (ensure_trailing_slash (ensure_trailing_slash s) ≡ ensure_trailing_slash s)
ensure_trailing_slash_lem s =
    let ends = (str_has_suffix_iff (ensure_trailing_slash s) (codes "/")).1 (slash_at_end s) in
    (ends, again (ensure_trailing_slash s) ends)
  where
    again : (t : Bytes) → str_has_suffix t (codes "/") ≡ true → ensure_trailing_slash t ≡ t
    again t h = unfold ensure_trailing_slash in rw h

-- What `function_load` relies on: the path of a directory ends with a slash, that of a JAR with
-- .jar, and neither is blacklisted or opened yet.
pub record IsSearchable (s : SrcPath) : Type 0 where
  pub closed : s.archive ≡ false
  pub usable : s.blacklisted ≡ false
  pub ending :
      (s.type ≡ src → (p : Bytes) × (s.path ≡ p ++ codes "/"))
      × (s.type ≡ jar → (p : Bytes) × (s.path ≡ p ++ codes ".jar"))
  pub absolute : str_has_prefix s.path (codes "/") ≡ true

fully_qualify-ending :
    (cwd : Option Bytes) (p e : Bytes) → (q : Bytes) × (fully_qualify cwd (p ++ e) ≡ q ++ e)
unfolding fully_qualify
fully_qualify-ending none p e = (p, refl)
fully_qualify-ending (some cwd) p e = elim (Bool-cases (str_has_prefix (p ++ e) (codes "/"))) [
  | inl rooted ↦ rw rooted (p, refl)
  | inr relative ↦ rw relative (cwd ++ p, sym (append_assoc cwd p e))
]

fully_qualify-absolute :
    (cwd path : Bytes)
    → str_has_prefix cwd (codes "/") ≡ true
    → str_has_prefix (fully_qualify (some cwd) path) (codes "/") ≡ true
unfolding fully_qualify
fully_qualify-absolute cwd path h = elim (Bool-cases (str_has_prefix path (codes "/"))) [
  | inl rooted ↦ rw rooted rooted
  | inr relative ↦
      let (rest, e) = (str_has_prefix_iff cwd (codes "/")).0 h in
      rw relative
        ((str_has_prefix_iff _ (codes "/")).1 (rest ++ path, ap (λ (c : Bytes). c ++ path) e))
]

source_path-IsSearchable :
    (cwd source : Bytes)
    → str_has_prefix cwd (codes "/") ≡ true
    → IsSearchable (source_path (some cwd) source)
unfolding source_path
source_path-IsSearchable cwd source h = elim (Bool-cases (str_has_suffix source (codes ".jar"))) [
  | inl is_jar ↦ rw is_jar (record {
    closed = refl;
    usable = refl;
    ending = (
      λ e. cc,
      λ e.
          let (p, q) = (str_has_suffix_iff source (codes ".jar")).0 is_jar in
          rw q (fully_qualify-ending (some cwd) p (codes ".jar")),
    );
    absolute = fully_qualify-absolute cwd source h;
  })
  | inr is_src ↦ rw is_src (record {
    closed = refl;
    usable = refl;
    ending = (
      λ e. let (p, q) = slash_at_end source in rw q (fully_qualify-ending (some cwd) p (codes "/")),
      λ e. cc,
    );
    absolute = fully_qualify-absolute cwd (ensure_trailing_slash source) h;
  })
]

-- How a search path comes from a part of the class path: the current directory in front, with its
-- slash, unless the part begins with a slash; and a slash behind it, or nothing.
pub record IsPathOf (cwd part : Bytes) (s : SrcPath) : Type 0 where
  pub searchable : IsSearchable s
  pub front : Bytes
  pub back : Bytes
  pub whole : s.path ≡ front ++ (part ++ back)
  pub front_is :
      ((str_has_prefix part (codes "/") ≡ true) × (front ≡ []))
      ⊎ ((str_has_prefix part (codes "/") ≡ false) × (front ≡ cwd))
  pub back_is : (back ≡ []) ⊎ (back ≡ codes "/")

-- One search path for each part, in order.
abbrev pub AllSearchable : Bytes → List Bytes → List SrcPath → Type 0
AllSearchable cwd [] [] = Unit
AllSearchable cwd (part ∷ parts) (s ∷ ss) = IsPathOf cwd part s × AllSearchable cwd parts ss
AllSearchable cwd _ _ = ⊥

fully_qualify-front :
    (cwd part back : Bytes)
    → str_has_prefix (part ++ back) (codes "/") ≡ str_has_prefix part (codes "/")
    → (front : Bytes) × (fully_qualify (some cwd) (part ++ back) ≡ front ++ (part ++ back))
      × (((str_has_prefix part (codes "/") ≡ true) × (front ≡ []))
          ⊎ ((str_has_prefix part (codes "/") ≡ false) × (front ≡ cwd)))
unfolding fully_qualify
fully_qualify-front cwd part back same = elim (Bool-cases (str_has_prefix part (codes "/"))) [
  | inl rooted ↦ ([], rw (same, rooted) refl, inl (rooted, refl))
  | inr relative ↦ (cwd, rw (same, relative) refl, inr (relative, refl))
]

same_front :
    (c : ℕ) (s back : Bytes)
    → str_has_prefix ((c ∷ s) ++ back) (codes "/") ≡ str_has_prefix (c ∷ s) (codes "/")
unfolding str_has_prefix str_eq
same_front c s back = ground arith

source_path-IsPathOf :
    (cwd : Bytes) (c : ℕ) (part : Bytes)
    → str_has_prefix cwd (codes "/") ≡ true
    → IsPathOf cwd (c ∷ part) (source_path (some cwd) (c ∷ part))
unfolding source_path ensure_trailing_slash
source_path-IsPathOf cwd c part h =
    let (back, e, b) = backed in
    let (front, f, g) = fully_qualify-front cwd (c ∷ part) back (same_front c part back) in
    record {
      searchable = source_path-IsSearchable cwd (c ∷ part) h;
      front = front;
      back = back;
      whole = e ∙ f;
      front_is = g;
      back_is = b;
    }
  where
    backed :
        (back : Bytes) × ((source_path (some cwd) (c ∷ part)).path
          ≡ fully_qualify (some cwd) ((c ∷ part) ++ back))
        × ((back ≡ []) ⊎ (back ≡ codes "/"))
    backed = elim (Bool-cases (str_has_suffix (c ∷ part) (codes ".jar"))) [
      | inl is_jar ↦ ([], rw (is_jar, append-nil part) refl, inl refl)
      | inr is_src ↦ elim (Bool-cases (str_has_suffix (c ∷ part) (codes "/"))) [
        | inl has ↦ ([], rw (is_src, has, append-nil part) refl, inl refl)
        | inr lacks ↦ (codes "/", rw (is_src, lacks) refl, inr refl)
      ]
    ]

map-AllSearchable :
    (cwd : Bytes) (runs : List Bytes)
    → str_has_prefix cwd (codes "/") ≡ true
    → AllSearchable cwd (nonempty runs) (map (source_path (some cwd)) (nonempty runs))
unfolding nonempty
map-AllSearchable cwd [] h = tt
map-AllSearchable cwd ([] ∷ rs) h = map-AllSearchable cwd rs h
map-AllSearchable cwd ((c ∷ t) ∷ rs) h =
    (source_path-IsPathOf cwd c t h, map-AllSearchable cwd rs h)

ensure_trailing_slash-absolute :
    (s : Bytes)
    → str_has_prefix s (codes "/") ≡ true
    → str_has_prefix (ensure_trailing_slash s) (codes "/") ≡ true
unfolding ensure_trailing_slash
ensure_trailing_slash-absolute s h = elim (Bool-cases (str_has_suffix s (codes "/"))) [
  | inl has ↦ rw has h
  | inr lacks ↦
      let (rest, e) = (str_has_prefix_iff s (codes "/")).0 h in
      rw lacks (
        (str_has_prefix_iff _ (codes "/")).1
          (rest ++ codes "/", ap (λ (c : Bytes). c ++ codes "/") e))
]

-- Where the current directory is known and absolute, each nonempty part of the class path becomes
-- one search path, in order: the part, behind the current directory with its slash unless it begins
-- with a slash, and with a slash or nothing behind it. The path is absolute and ends with .jar or else
-- with a slash, and is neither opened nor blacklisted.
pub init_classpath-AllSearchable :
    (working classpath : Bytes)
    → str_has_prefix working (codes "/") ≡ true
    → AllSearchable
        (ensure_trailing_slash working)
        (tokens b':' classpath)
        (init_classpath (some working) classpath [])
unfolding init_classpath get_current_working_dir tokens
init_classpath-AllSearchable working classpath h =
    map-AllSearchable (ensure_trailing_slash working) (runs b':' classpath)
      (ensure_trailing_slash-absolute working h)
