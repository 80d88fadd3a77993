-- ===== src/Utils/MessageQueue.antt =====
-- utils/messagequeue.h: `ThreadSafeDeque`. Every operation runs under the queue's mutex, so it is
-- one step on the state. A call that waits on the condition variable blocks, with the state as it
-- was, until a wake-up at which the operation is tried again; `timed_out` tells whether the
-- time given to `wait_for` is over at the try.
pub mod Fifo
use unixtar.Prelude.{
  ℕ, zero, suc, Bool, true, false, not, ◌||◌, List, [], ◌∷◌, ◌++◌, Option, none, some, length,
  get_elem?, ltb, leb, if◌then◌else◌,
}

pub record ThreadSafeDeque (A : Type 0) : Type 0 where
  pub max_size : ℕ
  pub container : List A
  pub terminated : Bool

-- What a push does: the queue, what it returns, and whether it notifies a waiting thread.
pub record Pushed (A : Type 0) : Type 0 where
  pub queue : ThreadSafeDeque A
  pub result : Bool
  pub notified : Bool

-- What a call that takes or reads an element does: it waits, it returns false, or it returns true
-- with the element that it met.
pub data Taken (A : Type 0) : Type 0 where
  blocked : Taken A
  refused : ThreadSafeDeque A → Taken A
  taken : A → ThreadSafeDeque A → Taken A

module _ {A : Type 0} where
  abbrev pub new_deque : ℕ → ThreadSafeDeque A
  new_deque n = record { max_size = n; container = []; terminated = false }

  unfoldable pub push_front : A → Bool → ThreadSafeDeque A → Pushed A
  push_front v notify q =
      if ltb q.max_size (length q.container)
      then record { queue = q; result = false; notified = false }
      else record {
        queue = record q { container = v ∷ q.container };
        result = true;
        notified = notify;
      }

  unfoldable pub push_back : A → Bool → ThreadSafeDeque A → Pushed A
  push_back v notify q =
      if ltb q.max_size (length q.container)
      then record { queue = q; result = false; notified = false }
      else record {
        queue = record q { container = q.container ++ v ∷ [] };
        result = true;
        notified = notify;
      }

  -- `__WaitSizeGreaterThan` lets the caller go on.
  unfoldable pub wait_size_greater_than : ℕ → Bool → ThreadSafeDeque A → Bool
  wait_size_greater_than than timed_out q =
      ltb than (length q.container) || q.terminated || timed_out

  -- The last element, and what stands before it.
  unfoldable pub split_last : A → List A → A × List A
  split_last x [] = (x, [])
  split_last x (y ∷ ys) = let (last, rest) = split_last y ys in (last, x ∷ rest)

  -- What `pop_front`, `pop_front_to` and the like do behind the wait.
  unfoldable pub take_front : List A → ThreadSafeDeque A → Taken A
  take_front [] q = refused q
  take_front (x ∷ xs) q = if q.terminated then refused q else taken x (record q { container = xs })

  unfoldable pub take_back : List A → ThreadSafeDeque A → Taken A
  unfolding split_last
  take_back [] q = refused q
  take_back (x ∷ xs) q =
      if q.terminated
      then refused q
      else let (last, rest) = split_last x xs in taken last (record q { container = rest })

  unfoldable pub read_at : Option A → ThreadSafeDeque A → Taken A
  read_at none q = refused q
  read_at (some x) q = if q.terminated then refused q else taken x q

  -- `pop_front_to`; `pop_front` drops the element.
  unfoldable pub pop_front_to : Bool → Bool → ThreadSafeDeque A → Taken A
  unfolding wait_size_greater_than take_front
  pop_front_to wait timed_out q =
      if not wait || wait_size_greater_than 0 timed_out q then take_front q.container q else blocked

  -- `pop_back_to`; `pop_back` drops the element.
  unfoldable pub pop_back_to : Bool → Bool → ThreadSafeDeque A → Taken A
  unfolding wait_size_greater_than take_back
  pop_back_to wait timed_out q =
      if not wait || wait_size_greater_than 0 timed_out q then take_back q.container q else blocked

  unfoldable pub get : ℕ → Bool → Bool → ThreadSafeDeque A → Taken A
  unfolding wait_size_greater_than read_at
  get i wait timed_out q =
      if not wait || wait_size_greater_than i timed_out q
      then read_at (get_elem? q.container i) q
      else blocked

  -- `front`
  unfoldable pub front : Bool → Bool → ThreadSafeDeque A → Taken A
  unfolding get
  front wait timed_out q = get 0 wait timed_out q

  -- `back`
  unfoldable pub back : Bool → Bool → ThreadSafeDeque A → Taken A
  unfolding wait_size_greater_than read_at split_last
  back wait timed_out q =
      if not wait || wait_size_greater_than 0 timed_out q
      then read_at (elim q.container [ [] ↦ none | x ∷ xs ↦ some ((split_last x xs).0) ]) q
      else blocked

  unfoldable pub clear : ThreadSafeDeque A → ThreadSafeDeque A
  clear q = record q { container = [] }

  unfoldable pub terminate : ThreadSafeDeque A → ThreadSafeDeque A
  terminate q = record q { terminated = true }
