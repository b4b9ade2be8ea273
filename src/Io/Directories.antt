-- ===== src/Io/Directories.antt =====
-- io.c: `mkdir_parents` on a file system.
use planck.Prelude.{
  ℕ, ◌-◌, ◌≡◌, ◌≢◌, inl, inr, refl, sym, ap, subst, ◌∙◌, Bool, true, false, Option, some, [], ◌∷◌,
  ◌++◌, Bytes, arith, ◌==◌, ltb, length, Bool-cases,
}
use planck.Io.{Mkdir, made, exists, failed, unless_failed, parents_loop, mkdir_parents, path_max}

-- What `mkdir` promises: a directory that it made, or that it found, is there afterwards, and it
-- removes none.
pub record FileSystem : Type 1 where
  pub S : Type 0
  pub mkdir : Bytes → S → S × Mkdir
  pub IsThere : Bytes → S → Type 0
  pub there : (p : Bytes) (s : S) → (mkdir p s).1 ≢ failed → IsThere p (mkdir p s).0
  pub stays : (p q : Bytes) (s : S) → IsThere q s → IsThere q (mkdir p s).0

some_eq : {A : Type 0} {x y : A} → some x ≡ some y → x ≡ y
some_eq e = cc

module _ {S : Type 0} (mkdir : Bytes → S → S × Mkdir) where
  unless_failed-true :
      (r : S × Mkdir) (next : S → S × Bool)
      → (unless_failed mkdir r next).1 ≡ true
      → (r.1 ≢ failed) × (unless_failed mkdir r next ≡ next r.0)
  unless_failed-true (s, made) next e = (λ bad. cc, refl)
  unless_failed-true (s, exists) next e = (λ bad. cc, refl)
  unless_failed-true (s, failed) next e = absurd cc

  unless_failed-keeps :
      (P : S → Type 0) (r : S × Mkdir) (next : S → S × Bool)
      → P r.0
      → ((s : S) → P s → P (next s).0)
      → P (unless_failed mkdir r next).0
  unless_failed-keeps P (s, made) next h keep = keep s h
  unless_failed-keeps P (s, exists) next h keep = keep s h
  unless_failed-keeps P (s, failed) next h keep = h

module _ (fs : FileSystem) where
  open fs use {S, mkdir, IsThere, there, stays}

  -- The text in front of each slash behind `front`, and the whole.
  abbrev pub AllThere : Bytes → Bytes → S → Type 0
  AllThere front [] s = IsThere front s
  AllThere front (c ∷ cs) s = (c ≡ b'/' → IsThere front s) × AllThere (front ++ c ∷ []) cs s

  loop-stays :
      (q front rest : Bytes) (s : S) → IsThere q s → IsThere q (parents_loop mkdir front rest s).0
  unfolding parents_loop
  loop-stays q front [] s h =
      unless_failed-keeps mkdir (IsThere q) (mkdir front s) (λ t. (t, true)) (stays front q s h)
        (λ t k. k)
  loop-stays q front (c ∷ cs) s h = elim (Bool-cases (c == b'/')) [
    | inl slash ↦ rw slash (
        unless_failed-keeps mkdir (IsThere q) (mkdir front s)
          (parents_loop mkdir (front ++ c ∷ []) cs) (stays front q s h)
          (λ t k. loop-stays q (front ++ c ∷ []) cs t k))
    | inr other ↦ rw other (loop-stays q (front ++ c ∷ []) cs s h)
  ]

  loop-AllThere :
      (front rest : Bytes) (s : S)
      → (parents_loop mkdir front rest s).1 ≡ true
      → AllThere front rest (parents_loop mkdir front rest s).0
  unfolding parents_loop
  loop-AllThere front [] s e =
      let (fine, same) = unless_failed-true mkdir (mkdir front s) (λ t. (t, true)) e in
      rw same (there front s fine)
  loop-AllThere front (c ∷ cs) s e = elim (Bool-cases (c == b'/')) [
    | inl slash ↦
        let rest = parents_loop mkdir (front ++ c ∷ []) cs in
        let (fine, same) = unless_failed-true mkdir (mkdir front s) rest (rw slash at e) in
        rw (slash, same)
          (
            λ _. loop-stays front (front ++ c ∷ []) cs _ (there front s fine),
            loop-AllThere (front ++ c ∷ []) cs _
                (ap (λ (r : S × Bool). r.1) (sym same) ∙ rw slash at e),
          )
    | inr other ↦
        rw other (λ h. absurd (ground arith), loop-AllThere (front ++ c ∷ []) cs s (rw other at e))
  ]

  -- Where `mkdir_parents` succeeds, the directory is there and so is each one that a part of its
  -- path names, from the front up to a slash, but for the root.
  mkdir_parents-AllThere :
      (c : ℕ) (cs : Bytes) (s t : S)
      → mkdir_parents mkdir (c ∷ cs) s ≡ some (t, true)
      → AllThere (c ∷ []) cs t
  unfolding mkdir_parents
  mkdir_parents-AllThere c cs s t e = elim (Bool-cases (ltb (path_max - 1) (length (c ∷ cs)))) [
    | inl long ↦ absurd (none_made (rw long at e))
    | inr short ↦
        let same = some_eq (rw short at e) in
        subst (λ r. AllThere (c ∷ []) cs r.0) same
          (loop-AllThere (c ∷ []) cs s (ap (λ (r : S × Bool). r.1) same))
  ]
    where
      none_made : ◌≡◌ {A = Option (S × Bool)} (some (s, false)) (some (t, true)) → ⊥
      none_made h = cc
