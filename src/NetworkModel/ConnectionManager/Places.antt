-- ===== src/NetworkModel/ConnectionManager/Places.antt =====
-- The free places are places of the pool without a connection.
use unixtar.Prelude.{
  ℕ, zero, suc, ◌+◌, ◌-◌, ◌<◌, ◌≤◌, true, ◌&&◌, List, [], ◌∷◌, ◌++◌, Option, none, some, length,
  get_elem?, set, replicate, ltb, All, length-append, length-set, length-replicate, Bool-cases, inl,
  inr, ◌⊎◌, arith, ok, ◌≡◌, ◌≢◌, refl, ap, ◌∙◌,
}
use unixtar.NetworkModel.ConnectionManager.{
  ConnectionManager, enlarge_unit, places_from, check_capacity, new_manager, del_connection,
}
use unixtar.NetworkModel.ConnectionManager.Pool.{
  get_elem?-set_other, get_elem?-set_self, get_elem?-lt, get_elem?-appended, replicate-empty,
  appended-same, set-same,
}

abbrev pub IsDistinct : List ℕ → Type 0
IsDistinct [] = Unit
IsDistinct (u ∷ us) = All (λ v. v ≢ u) us × IsDistinct us

places_from-above : (i n k : ℕ) → k < i → All (λ v. v ≢ k) (places_from i n)
unfolding places_from
places_from-above i zero k h = tt
places_from-above i (suc n) k h =
    (omega (arith, h), places_from-above (suc i) n k (omega (arith, h)))

places_from-IsDistinct : (i n : ℕ) → IsDistinct (places_from i n)
unfolding places_from
places_from-IsDistinct i zero = tt
places_from-IsDistinct i (suc n) =
    (places_from-above (suc i) n i (omega arith), places_from-IsDistinct (suc i) n)

module _ {C : Type 0} where
  -- A free place: it has no connection, or it is behind the vector's size and within its capacity.
  abbrev pub IsSpare : List (Option (ℕ × C)) → ℕ → ℕ → Type 0
  IsSpare pool capacity uid =
      (0 < uid) × (uid < capacity) × ((get_elem? pool uid ≡ some none) ⊎ (length pool ≤ uid))

  -- Each connection of the pool has its place as its `uid_`, and it is not the place 0.
  abbrev pub IsSeated : List (Option (ℕ × C)) → Type 0
  IsSeated pool = (i u : ℕ) (c : C) → get_elem? pool i ≡ some (some (u, c)) → (u ≡ i) × (0 < u)

  -- A well-formed manager.
  pub record IsPlaced (m : ConnectionManager C) : Type 0 where
    pub sized : length m.pool ≤ m.capacity
    pub some_place : 0 < m.capacity
    pub free : All (IsSpare m.pool m.capacity) m.free_places
    pub distinct : IsDistinct m.free_places
    pub seated : IsSeated m.pool

  -- A place behind the pool is without a connection in the pool resized, or still behind it.
  place_behind :
      (pool : List (Option (ℕ × C))) (k i : ℕ)
      → length pool ≤ i
      → (get_elem? (pool ++ replicate k none) i ≡ some none)
        ⊎ (length (pool ++ replicate k none) ≤ i)
  place_behind pool k i h = elim (Bool-cases (ltb i (length pool + k))) [
    | inl e ↦
        let at : i ≡ length pool + (i - length pool) = omega (arith, h) in
        inl (
          ap (get_elem? (pool ++ replicate k none)) at
          ∙ get_elem?-appended pool k (i - length pool) none (ground (arith, h, e)))
    | inr e ↦
        let behind : length pool + k ≤ i = ground (arith, e) in
        inr (
          omega (
            arith,
            behind,
            length-append pool (replicate {A = Option (ℕ × C)} k none),
            length-replicate {A = Option (ℕ × C)} k none,
          ))
  ]

  places_from-IsSpare :
      (pool : List (Option (ℕ × C))) (k i n capacity : ℕ)
      → 0 < i
      → length pool ≤ i
      → i + n ≤ capacity
      → All (IsSpare (pool ++ replicate k none) capacity) (places_from i n)
  unfolding places_from
  places_from-IsSpare pool k i zero capacity p h l = tt
  places_from-IsSpare pool k i (suc n) capacity p h l = (
    (p, omega (arith, l), place_behind pool k i h),
    places_from-IsSpare pool k (suc i) n capacity (omega arith) (omega (arith, h))
        (omega (arith, l)),
  )

  abbrev pub manager : List (Option (ℕ × C)) → ℕ → List ℕ → ConnectionManager C
  manager pool capacity free = record { pool = pool; capacity = capacity; free_places = free }

  pub check_capacity-IsPlaced :
      (grow : ℕ → ℕ → ℕ) (pool : List (Option (ℕ × C))) (capacity : ℕ) (free : List ℕ)
      → ((c n : ℕ) → n ≤ grow c n)
      → IsPlaced (manager pool capacity free)
      → IsPlaced (check_capacity grow (manager pool capacity free))
  unfolding check_capacity
  check_capacity-IsPlaced grow pool capacity (uid ∷ free) fits h = h
  check_capacity-IsPlaced grow pool capacity [] fits h =
      let next = grow capacity (capacity + enlarge_unit) in
      let enough : capacity + enlarge_unit ≤ next = fits capacity (capacity + enlarge_unit) in
      let more = capacity + enlarge_unit - length pool in
      record {
        sized = omega (
          arith,
          enough,
          h.sized,
          length-append pool (replicate {A = Option (ℕ × C)} more none),
          length-replicate {A = Option (ℕ × C)} more none,
        );
        some_place = omega (arith, enough);
        free =
            places_from-IsSpare pool more capacity (next - capacity) next h.some_place h.sized
              (omega (arith, enough));
        distinct = places_from-IsDistinct capacity _;
        seated = λ i u c e. h.seated i u c (appended-same pool more i u c e);
      }

  pub set-IsSpare :
      (pool : List (Option (ℕ × C))) (capacity uid : ℕ) (place : Option (ℕ × C)) (us : List ℕ)
      → All (λ v. v ≢ uid) us
      → All (IsSpare pool capacity) us
      → All (IsSpare (set pool uid place) capacity) us
  set-IsSpare pool capacity uid place [] d h = tt
  set-IsSpare pool capacity uid place (u ∷ us) d h = (
    (
      h.0.0,
      h.0.1,
      elim h.0.2 [
        | inl e ↦ inl (get_elem?-set_other pool uid u place d.0 ∙ e)
        | inr l ↦ inr (omega (arith, l, length-set pool uid place))
      ],
    ),
    set-IsSpare pool capacity uid place us d.1 h.1,
  )

  pub new_manager-IsPlaced : IsPlaced new_manager
  unfolding new_manager
  new_manager-IsPlaced = record {
    sized = omega arith;
    some_place = omega arith;
    free = places_from-IsSpare (none ∷ []) 127 1 127 128 (omega arith) (omega arith) (omega arith);
    distinct = places_from-IsDistinct 1 127;
    seated = λ i u c e. absurd (replicate-empty 128 i u c e);
  }

  taken-All :
      (pool : List (Option (ℕ × C))) (capacity uid : ℕ) (place : ℕ × C) (us : List ℕ)
      → get_elem? pool uid ≡ some (some place)
      → All (IsSpare pool capacity) us
      → All (λ v. v ≢ uid) us
  taken-All pool capacity uid place [] e h = tt
  taken-All pool capacity uid place (u ∷ us) e h = (
    (λ same. elim h.0.2 [
      | inl there ↦ let moved = ap (get_elem? pool) same in absurd cc
      | inr behind ↦ absurd (omega (arith, behind, same, get_elem?-lt pool uid (some place) e))
    ]),
    taken-All pool capacity uid place us e h.1,
  )

  -- `DelConnection` of a connection that is there makes its place free again, and keeps the manager
  -- well formed.
  pub del_connection-IsPlaced :
      (uid : ℕ) (place : ℕ × C) (m : ConnectionManager C)
      → IsPlaced m
      → 0 < uid
      → get_elem? m.pool uid ≡ some (some place)
      → (del_connection uid m ≡ ok (manager (set m.pool uid none) m.capacity (uid ∷ m.free_places)))
        × IsPlaced (manager (set m.pool uid none) m.capacity (uid ∷ m.free_places))
  unfolding del_connection
  del_connection-IsPlaced uid place m h low e =
      let inside : (ltb 0 uid && ltb uid m.capacity) ≡ true =
        ground (arith, get_elem?-lt m.pool uid (some place) e, h.sized) in
      let others = taken-All m.pool m.capacity uid place m.free_places e h.free in
      (
        rw (inside, e) refl,
        record {
          sized = omega (arith, length-set m.pool uid none, h.sized);
          some_place = h.some_place;
          free = (
            (
              low,
              omega (arith, get_elem?-lt m.pool uid (some place) e, h.sized),
              inl (get_elem?-set_self m.pool uid none (some place) e),
            ),
            set-IsSpare m.pool m.capacity uid none m.free_places others h.free,
          );
          distinct = (others, h.distinct);
          seated = λ i u c here. elim (set-same m.pool uid i none (u, c) here) [
            | inl old ↦ h.seated i u c old
            | inr (at, new) ↦ absurd cc
          ];
        },
      )
