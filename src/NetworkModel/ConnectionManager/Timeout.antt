-- ===== src/NetworkModel/ConnectionManager/Timeout.antt =====
-- `ConnectionManager::ClearTimeout` keeps the manager well formed: each connection that it clears is
-- one deleted, at the place that is its `uid_`.
use unixtar.Prelude.{
  ℕ, Bool, true, false, List, [], ◌∷◌, ◌++◌, Option, none, some, length, get_elem?, set,
  append_assoc, Bool-cases, inl, inr, ◌≡◌, refl, sym, ap, ◌∙◌,
}
use mathlib.Core.Path.{transport}
use unixtar.NetworkModel.ConnectionManager.{ConnectionManager, clear_places, clear_timeout}
use unixtar.NetworkModel.ConnectionManager.Places.{IsPlaced, manager, del_connection-IsPlaced}

module _ {A : Type 0} where
  get_elem?-middle : (xs ys : List A) (y : A) → get_elem? (xs ++ y ∷ ys) (length xs) ≡ some y
  get_elem?-middle [] ys y = refl
  get_elem?-middle (x ∷ xs) ys y = get_elem?-middle xs ys y

  set-middle : (xs ys : List A) (y z : A) → set (xs ++ y ∷ ys) (length xs) z ≡ (xs ++ z ∷ []) ++ ys
  set-middle [] ys y z = refl
  set-middle (x ∷ xs) ys y z = ap (◌∷◌ x) (set-middle xs ys y z)

module _ {C : Type 0} (is_timeout : C → Bool) where
  clear_places_yes :
      (uid : ℕ) (conn : C) (pool : List (Option (ℕ × C))) (free : List ℕ)
      → is_timeout conn ≡ true
      → clear_places is_timeout (some (uid, conn) ∷ pool) free ≡ (
        none ∷ (clear_places is_timeout pool (uid ∷ free)).0,
        (clear_places is_timeout pool (uid ∷ free)).1,
      )
  unfolding clear_places
  clear_places_yes uid conn pool free e = rw e refl

  clear_places_no :
      (uid : ℕ) (conn : C) (pool : List (Option (ℕ × C))) (free : List ℕ)
      → is_timeout conn ≡ false
      → clear_places is_timeout (some (uid, conn) ∷ pool) free ≡ (
        some (uid, conn) ∷ (clear_places is_timeout pool free).0,
        (clear_places is_timeout pool free).1,
      )
  unfolding clear_places
  clear_places_no uid conn pool free e = rw e refl

  -- A place that the loop has passed joins those behind it.
  pass :
      (capacity : ℕ) (done pool : List (Option (ℕ × C))) (place : Option (ℕ × C)) (free : List ℕ)
      → IsPlaced (manager (done ++ place ∷ pool) capacity free)
      → IsPlaced (manager ((done ++ place ∷ []) ++ pool) capacity free)
  pass capacity done pool place free =
      transport
        (ap (λ p. IsPlaced (manager p capacity free)) (sym (append_assoc done (place ∷ []) pool)))

  unpass :
      (capacity : ℕ) (done pool : List (Option (ℕ × C))) (place : Option (ℕ × C)) (free : List ℕ)
      → IsPlaced (manager ((done ++ place ∷ []) ++ pool) capacity free)
      → IsPlaced (manager (done ++ place ∷ pool) capacity free)
  unpass capacity done pool place free =
      transport (ap (λ p. IsPlaced (manager p capacity free)) (append_assoc done (place ∷ []) pool))

  -- A connection that the loop clears is one deleted.
  cleared-IsPlaced :
      (capacity uid : ℕ) (conn : C) (done pool : List (Option (ℕ × C))) (free : List ℕ)
      → IsPlaced (manager (done ++ some (uid, conn) ∷ pool) capacity free)
      → IsPlaced (manager ((done ++ none ∷ []) ++ pool) capacity (uid ∷ free))
  cleared-IsPlaced capacity uid conn done pool free h =
      let here : List (Option (ℕ × C)) = done ++ some (uid, conn) ∷ pool in
      let found = get_elem?-middle done pool (some (uid, conn)) in
      let (seat, low) = h.seated (length done) uid conn found in
      let at : get_elem? here uid ≡ some (some (uid, conn)) = ap (get_elem? here) seat ∙ found in
      transport
        (ap (λ p. IsPlaced (manager p capacity (uid ∷ free)))
          (ap (λ u. set here u none) seat ∙ set-middle done pool (some (uid, conn)) none))
        ((del_connection-IsPlaced uid (uid, conn) (manager here capacity free) h low at).1)

  -- The loop, when the places of `done` are behind it.
  clear_places-IsPlaced :
      (capacity : ℕ) (done pool : List (Option (ℕ × C))) (free : List ℕ)
      → IsPlaced (manager (done ++ pool) capacity free)
      → IsPlaced (
          manager
            (done ++ (clear_places is_timeout pool free).0)
            capacity
            ((clear_places is_timeout pool free).1))
  unfolding clear_places
  clear_places-IsPlaced capacity done [] free h = h
  clear_places-IsPlaced capacity done (none ∷ pool) free h =
      unpass capacity done ((clear_places is_timeout pool free).0) none
        ((clear_places is_timeout pool free).1)
        (clear_places-IsPlaced capacity (done ++ none ∷ []) pool free
          (pass capacity done pool none free h))
  clear_places-IsPlaced capacity done (some (uid, conn) ∷ pool) free h =
      let rest = clear_places is_timeout pool (uid ∷ free) in
      let rest' = clear_places is_timeout pool free in
      elim (Bool-cases (is_timeout conn)) [
        | inl e ↦
            transport
              (ap (λ r. IsPlaced (manager (done ++ r.0) capacity r.1))
                (sym (clear_places_yes uid conn pool free e)))
              (unpass capacity done (rest.0) none (rest.1) (
                clear_places-IsPlaced capacity (done ++ none ∷ []) pool (uid ∷ free)
                  (cleared-IsPlaced capacity uid conn done pool free h)))
        | inr e ↦
            transport
              (ap (λ r. IsPlaced (manager (done ++ r.0) capacity r.1))
                (sym (clear_places_no uid conn pool free e)))
              (unpass capacity done (rest'.0) (some (uid, conn)) (rest'.1) (
                clear_places-IsPlaced capacity (done ++ some (uid, conn) ∷ []) pool free
                  (pass capacity done pool (some (uid, conn)) free h)))
      ]

  pub clear_timeout-IsPlaced :
      (m : ConnectionManager C) → IsPlaced m → IsPlaced (clear_timeout is_timeout m)
  unfolding clear_timeout
  clear_timeout-IsPlaced m h = clear_places-IsPlaced m.capacity [] m.pool m.free_places h
