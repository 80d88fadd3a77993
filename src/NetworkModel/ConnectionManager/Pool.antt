-- ===== src/NetworkModel/ConnectionManager/Pool.antt =====
-- Reads of a list after a write to it, and after it was made longer.
use unixtar.Prelude.{
  ℕ, zero, suc, ◌+◌, ◌<◌, List, [], ◌∷◌, ◌++◌, Option, none, some, length, get_elem?, set,
  replicate, inl, inr, ◌⊎◌, arith, ◌≡◌, ◌≢◌, refl, ap, ◌∙◌,
}

module _ {A : Type 0} where
  pub get_elem?-set_other :
      (xs : List A) (i j : ℕ) (a : A) → j ≢ i → get_elem? (set xs i a) j ≡ get_elem? xs j
  get_elem?-set_other [] i j a h = refl
  get_elem?-set_other (x ∷ xs) zero zero a h = absurd (h refl)
  get_elem?-set_other (x ∷ xs) zero (suc j) a h = refl
  get_elem?-set_other (x ∷ xs) (suc i) zero a h = refl
  get_elem?-set_other (x ∷ xs) (suc i) (suc j) a h =
      get_elem?-set_other xs i j a (λ e. h (ap suc e))

  pub get_elem?-set_self :
      (xs : List A) (i : ℕ) (a b : A) → get_elem? xs i ≡ some b → get_elem? (set xs i a) i ≡ some a
  get_elem?-set_self [] i a b h = absurd cc
  get_elem?-set_self (x ∷ xs) zero a b h = refl
  get_elem?-set_self (x ∷ xs) (suc i) a b h = get_elem?-set_self xs i a b h

  pub get_elem?-lt : (xs : List A) (i : ℕ) (b : A) → get_elem? xs i ≡ some b → i < length xs
  get_elem?-lt [] i b h = absurd cc
  get_elem?-lt (x ∷ xs) zero b h = omega arith
  get_elem?-lt (x ∷ xs) (suc i) b h = omega (arith, get_elem?-lt xs i b h)

  pub get_elem?-replicate : (n i : ℕ) (a : A) → i < n → get_elem? (replicate n a) i ≡ some a
  get_elem?-replicate zero i a h = absurd (omega (arith, h))
  get_elem?-replicate (suc n) zero a h = refl
  get_elem?-replicate (suc n) (suc i) a h = get_elem?-replicate n i a (omega (arith, h))

  -- Behind a list stand the members of what is put at its end.
  pub get_elem?-appended :
      (xs : List A) (n i : ℕ) (a : A)
      → i < n
      → get_elem? (xs ++ replicate n a) (length xs + i) ≡ some a
  get_elem?-appended [] n i a h =
      let start : 0 + i ≡ i = omega arith in
      ap (get_elem? (replicate n a)) start ∙ get_elem?-replicate n i a h
  get_elem?-appended (x ∷ xs) n i a h =
      let next : suc (length xs) + i ≡ suc (length xs + i) = omega arith in
      ap (get_elem? (x ∷ (xs ++ replicate n a))) next ∙ get_elem?-appended xs n i a h

module _ {C : Type 0} where
  pub replicate-empty :
      (k i u : ℕ) (c : C)
      → ¬ (get_elem? (replicate {A = Option (ℕ × C)} k none) i ≡ some (some (u, c)))
  replicate-empty zero i u c e = cc
  replicate-empty (suc k) zero u c e = cc
  replicate-empty (suc k) (suc i) u c e = replicate-empty k i u c e

  -- What stands in a pool that was made larger stood there before.
  pub appended-same :
      (pool : List (Option (ℕ × C))) (k i u : ℕ) (c : C)
      → get_elem? (pool ++ replicate k none) i ≡ some (some (u, c))
      → get_elem? pool i ≡ some (some (u, c))
  appended-same [] k i u c e = absurd (replicate-empty k i u c e)
  appended-same (x ∷ pool) k zero u c e = e
  appended-same (x ∷ pool) k (suc i) u c e = appended-same pool k i u c e

  -- What stands in a pool after a write stood there before, or is what was written.
  pub set-same :
      (pool : List (Option (ℕ × C))) (j i : ℕ) (place : Option (ℕ × C)) (p : ℕ × C)
      → get_elem? (set pool j place) i ≡ some (some p)
      → (get_elem? pool i ≡ some (some p)) ⊎ ((i ≡ j) × (place ≡ some p))
  set-same [] j i place p e = absurd cc
  set-same (x ∷ pool) zero zero place p e = inr (refl, cc)
  set-same (x ∷ pool) zero (suc i) place p e = inl e
  set-same (x ∷ pool) (suc j) zero place p e = inl e
  set-same (x ∷ pool) (suc j) (suc i) place p e = elim (set-same pool j i place p e) [
    | inl old ↦ inl old
    | inr (at, new) ↦ inr (ap suc at, new)
  ]
