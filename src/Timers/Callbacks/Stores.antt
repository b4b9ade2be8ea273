-- ===== src/Timers/Callbacks/Stores.antt =====
-- engine.c: the stores of callbacks.
use planck.Timers.Callbacks.{find, remove, store_at}
use planck.Prelude.{
  ℕ, suc, ◌+◌, ◌≤◌, ◌<◌, ◌≡◌, ◌≢◌, refl, ap, false, some, List, [], ◌∷◌, ◌==◌, if◌then◌else◌, arith,
  length, Bool-cases, inl, inr,
}

module _ {ℓ} {A : Type ℓ} where
  -- No number in the store is above the last one given.
  abbrev pub Below : ℕ → List (ℕ × A) → Type 0
  Below n [] = Unit
  Below n ((k, a) ∷ store) = (k ≤ n) × Below n store

  pub Below-mono : (n m : ℕ) (store : List (ℕ × A)) → n ≤ m → Below n store → Below m store
  Below-mono n m [] h b = tt
  Below-mono n m ((k, a) ∷ store) h b = (omega arith, Below-mono n m store h b.1)

  pub Below-remove : (n id : ℕ) (store : List (ℕ × A)) → Below n store → Below n (remove id store)
  unfolding remove
  Below-remove n id [] b = tt
  Below-remove n id ((k, a) ∷ store) b = elim (Bool-cases (k == id)) [
    | inl e ↦ rw e b.1
    | inr e ↦ rw e (b.0, Below-remove n id store b.1)
  ]

  pub remove-new :
      (n id : ℕ) (store : List (ℕ × A)) → Below n store → n < id → remove id store ≡ store
  unfolding remove
  remove-new n id [] b h = refl
  remove-new n id ((k, a) ∷ store) b h = ground (arith, remove-new n id store b.1 h)

  pub length-remove_found :
      (id : ℕ) (store : List (ℕ × A)) {a : A}
      → find id store ≡ some a
      → length store ≡ suc (length (remove id store))
  unfolding find remove
  length-remove_found id [] e = cc
  length-remove_found id ((k, b) ∷ store) e = elim (Bool-cases (k == id)) [
    | inl same ↦ rw same refl
    | inr differs ↦ rw differs (ap suc (length-remove_found id store (rw differs at e)))
  ]

  pub find-Below :
      (n id : ℕ) (store : List (ℕ × A)) {a : A} → Below n store → find id store ≡ some a → id ≤ n
  unfolding find
  find-Below n id [] b e = absurd (cc)
  find-Below n id ((k, a') ∷ store) b e = elim (Bool-cases (k == id)) [
    | inl same ↦ ground arith
    | inr differs ↦ find-Below n id store b.1 (rw differs at e)
  ]

  pub find-remove_ne :
      (id own : ℕ) (store : List (ℕ × A)) → own ≢ id → find own (remove id store) ≡ find own store
  unfolding find remove
  find-remove_ne id own [] h = refl
  find-remove_ne id own ((k, a) ∷ store) h = elim (Bool-cases (k == id)) [
    | inl same ↦ ground arith
    | inr differs ↦
        rw differs (ap (λ o. if k == own then some a else o) (find-remove_ne id own store h))
  ]

module _ {ℓ} {A : Type ℓ} where
  -- A new number makes the store longer by one.
  pub store_new :
      (n id last : ℕ) (a : A) (store : List (ℕ × A))
      → Below n store
      → id ≡ n + 1
      → last ≡ n + 1
      → (length (store_at id a store) ≡ suc (length store)) × Below last (store_at id a store)
  unfolding store_at
  store_new n id last a store b e e' =
      let same = remove-new n id store b (omega arith) in
      (
        ap (λ (s : List (ℕ × A)). suc (length s)) same,
        (omega arith, rw same (Below-mono n last store (omega arith) b)),
      )

  pub find-store_new :
      (n id own : ℕ) (a : A) (store : List (ℕ × A)) {found : A}
      → Below n store
      → id ≡ n + 1
      → find own store ≡ some found
      → find own (store_at id a store) ≡ some found
  unfolding store_at find
  find-store_new n id own a store b e there =
      let le = find-Below n own store b there in
      let differs : (id == own) ≡ false = ground arith in
      let same = remove-new n id store b (omega arith) in rw (differs, same) there
