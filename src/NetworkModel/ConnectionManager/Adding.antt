-- ===== src/NetworkModel/ConnectionManager/Adding.antt =====
-- `AddConnection` on a well-formed manager.
use unixtar.Prelude.{
  ℕ, suc, ◌+◌, ◌-◌, ◌<◌, ◌≤◌, true, List, [], ◌∷◌, Option, none, some, length, get_elem?, set, ltb,
  length-set, inl, inr, ◌⊎◌, Outcome, undefined, false, arith, ok, ◌≡◌, refl, sym, ap,
}
use mathlib.Core.Path.{transport}
use unixtar.NetworkModel.ConnectionManager.{
  ConnectionManager, enlarge_unit, places_from, check_capacity, place_connection, add_connection,
}
use unixtar.NetworkModel.ConnectionManager.Pool.{get_elem?-lt, set-same}
use unixtar.NetworkModel.ConnectionManager.Places.{
  IsPlaced, manager, check_capacity-IsPlaced, set-IsSpare,
}

module _ {C : Type 0} where
  not_empty :
      (grow : ℕ → ℕ → ℕ) (pool : List (Option (ℕ × C))) (capacity : ℕ) (free : List ℕ)
      → ((c n : ℕ) → n ≤ grow c n)
      → (uid : ℕ) × (rest : List ℕ) × ((check_capacity grow
            (manager pool capacity free)).free_places
          ≡ uid ∷ rest)
  unfolding check_capacity places_from
  not_empty grow pool capacity (uid ∷ free) fits = (uid, free, refl)
  not_empty grow pool capacity [] fits =
      let next = grow capacity (capacity + enlarge_unit) in
      let new : next - capacity ≡ suc (next - capacity - 1) =
        omega (arith, fits capacity (capacity + enlarge_unit)) in
      (capacity, places_from (suc capacity) (next - capacity - 1), ap (places_from capacity) new)

  -- What `AddConnection` does with the place that is first in the list: it takes it, or the place
  -- is behind the vector's size, in capacity that the vector has kept back, and the write to it is
  -- undefined behaviour.
  abbrev pub Added : C → ConnectionManager C → ℕ → Outcome (ConnectionManager C) → Type 0
  Added conn k uid o =
      ((after : ConnectionManager C) × (o ≡ ok after)
        × IsPlaced after
        × (0 < uid)
        × (get_elem? k.pool uid ≡ some none)
        × (after.pool ≡ set k.pool uid (some (uid, conn)))
        × (k.free_places ≡ uid ∷ after.free_places))
      ⊎ ((o ≡ undefined) × (length k.pool ≤ uid) × (uid < k.capacity))

  place_connection-Added :
      (conn : C) (pool : List (Option (ℕ × C))) (capacity uid : ℕ) (rest : List ℕ)
      → IsPlaced (manager pool capacity (uid ∷ rest))
      → Added conn
          (manager pool capacity (uid ∷ rest))
          uid
          (place_connection conn (manager pool capacity (uid ∷ rest)))
  unfolding place_connection
  place_connection-Added conn pool capacity uid rest h = elim h.free.0.2 [
    | inl e ↦
        let inside : ltb uid (length pool) ≡ true = ground (arith, get_elem?-lt pool uid none e) in
        inl (
          manager (set pool uid (some (uid, conn))) capacity rest,
          rw inside refl,
          record {
            sized = omega (arith, length-set pool uid (some (uid, conn)), h.sized);
            some_place = h.some_place;
            free = set-IsSpare pool capacity uid (some (uid, conn)) rest h.distinct.0 h.free.1;
            distinct = h.distinct.1;
            seated = λ i u c here. elim (set-same pool uid i (some (uid, conn)) (u, c) here) [
              | inl old ↦ h.seated i u c old
              | inr (at, new) ↦
                  let same : uid ≡ u = cc in
                  (omega (arith, at, same), omega (arith, h.free.0.0, same))
            ];
          },
          h.free.0.0,
          e,
          refl,
          refl,
        )
    | inr l ↦
        let behind : ltb uid (length pool) ≡ false = ground (arith, l) in
        inr (rw behind refl, l, h.free.0.1)
  ]

  -- `AddConnection` on a well-formed manager.
  pub add_connection-Added :
      (grow : ℕ → ℕ → ℕ) (conn : C) (m : ConnectionManager C)
      → ((c n : ℕ) → n ≤ grow c n)
      → IsPlaced m
      → (uid : ℕ) × Added conn (check_capacity grow m) uid (add_connection grow conn m)
  unfolding add_connection
  add_connection-Added grow conn m fits h =
      let k = check_capacity grow m in
      let (uid, rest, e) = not_empty grow m.pool m.capacity m.free_places fits in
      let placed : IsPlaced k =
        check_capacity-IsPlaced grow m.pool m.capacity m.free_places fits h in
      let placed' : IsPlaced (manager k.pool k.capacity (uid ∷ rest)) =
        transport (ap (λ f. IsPlaced (manager k.pool k.capacity f)) e) placed in
      (
        uid,
        transport
            (ap
              (λ f.
                Added conn (manager k.pool k.capacity f) uid
                  (place_connection conn (manager k.pool k.capacity f)))
              (sym e))
            (place_connection-Added conn k.pool k.capacity uid rest placed'),
      )
