-- ===== src/NetworkModel/ConnectionManager.antt =====
-- `ServerBase::ConnectionManager` in networkmodel/serverbase.h and networkmodel/serverbase.cc: the
-- pool of connections and the free places in it. The capacity that `std::vector` has behind a
-- `resize` is a parameter, of the capacity before and the size that is asked for.
pub mod Pool
pub mod Places
pub mod Adding
pub mod Timeout
pub mod Managed
use unixtar.Prelude.{
  ℕ, zero, suc, ◌+◌, ◌-◌, Bool, true, false, ◌&&◌, List, [], ◌∷◌, ◌++◌, Option, none, some, length,
  get_elem?, set, replicate, ltb, if◌then◌else◌, Outcome, ok, asserted, undefined,
}

abbrev pub reserve_size : ℕ
reserve_size = 128

abbrev pub enlarge_unit : ℕ
enlarge_unit = 128

-- A connection stands in the pool with its `uid_`.
pub record ConnectionManager (C : Type 0) : Type 0 where
  pub pool : List (Option (ℕ × C))
  pub capacity : ℕ
  pub free_places : List ℕ

-- The numbers from the one on, as many as the other.
unfoldable pub places_from : ℕ → ℕ → List ℕ
places_from i zero = []
places_from i (suc n) = i ∷ places_from (suc i) n

module _ {C : Type 0} where
  -- `ConnectionManager()`
  unfoldable pub new_manager : ConnectionManager C
  new_manager = record {
    pool = replicate reserve_size none;
    capacity = reserve_size;
    free_places = places_from 1 127;
  }

  -- `__CheckCapacity`
  unfoldable pub check_capacity : (ℕ → ℕ → ℕ) → ConnectionManager C → ConnectionManager C
  check_capacity grow m = elim m.free_places [
    | [] ↦
        let curr = m.capacity in
        let next = grow curr (curr + enlarge_unit) in
        record {
          pool = m.pool ++ replicate (curr + enlarge_unit - length m.pool) none;
          capacity = next;
          free_places = places_from curr (next - curr);
        }
    | uid ∷ rest ↦ m
  ]

  -- What `AddConnection` does behind `__CheckCapacity`.
  unfoldable pub place_connection : C → ConnectionManager C → Outcome (ConnectionManager C)
  place_connection conn m = elim m.free_places [
    | [] ↦ undefined
    | uid ∷ rest ↦
        if ltb uid (length m.pool)
        then ok (record m { pool = set m.pool uid (some (uid, conn)); free_places = rest })
        else undefined
  ]

  -- `AddConnection`
  unfoldable pub add_connection :
      (ℕ → ℕ → ℕ) → C → ConnectionManager C → Outcome (ConnectionManager C)
  add_connection grow conn m = place_connection conn (check_capacity grow m)

  -- `GetConnection`
  unfoldable pub get_connection : ℕ → ConnectionManager C → Outcome (Option (ℕ × C))
  get_connection uid m =
      if ltb 0 uid && ltb uid m.capacity
      then elim (get_elem? m.pool uid) [ none ↦ undefined | some place ↦ ok place ]
      else asserted

  -- `DelConnection`
  unfoldable pub del_connection : ℕ → ConnectionManager C → Outcome (ConnectionManager C)
  del_connection uid m =
      if ltb 0 uid && ltb uid m.capacity
      then elim (get_elem? m.pool uid) [
        | none ↦ undefined
        | some none ↦ asserted
        | some (some conn) ↦
            ok (record m { pool = set m.pool uid none; free_places = uid ∷ m.free_places })
      ]
      else asserted

  -- The loop of `ClearTimeout`: the pool and the free places.
  unfoldable pub clear_places :
      (C → Bool) → List (Option (ℕ × C)) → List ℕ → List (Option (ℕ × C)) × List ℕ
  clear_places is_timeout [] free = ([], free)
  clear_places is_timeout (none ∷ pool) free =
      let (pool', free') = clear_places is_timeout pool free in (none ∷ pool', free')
  clear_places is_timeout (some (uid, conn) ∷ pool) free =
      let (pool', free') = clear_places is_timeout pool (uid ∷ free) in
      let (pool'', free'') = clear_places is_timeout pool free in
      if is_timeout conn then (none ∷ pool', free') else (some (uid, conn) ∷ pool'', free'')

  -- `ClearTimeout`
  unfoldable pub clear_timeout : (C → Bool) → ConnectionManager C → ConnectionManager C
  clear_timeout is_timeout m =
      let (pool', free') = clear_places is_timeout m.pool m.free_places in
      record m { pool = pool'; free_places = free' }

  -- `CurrConnectionCnt`
  unfoldable pub curr_connection_cnt : ConnectionManager C → ℕ
  curr_connection_cnt m = m.capacity - length m.free_places
