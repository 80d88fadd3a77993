-- ===== src/Utils/MessageQueue/Fifo.antt =====
-- `ThreadSafeDeque` between a producer and consumers: what comes out is what went in, in order.
use unixtar.Prelude.{
  ◌+◌, ◌<◌, ◌≤◌, Bool, true, false, not, ◌||◌, List, [], ◌∷◌, ◌++◌, length, length-append,
  append_assoc, append-nil, ltb, arith, ◌≡◌, refl, sym, ap, ◌∙◌, inl, inr, ◌⊎◌, Bool-cases,
}
use unixtar.Utils.MessageQueue.{
  ThreadSafeDeque, Pushed, push_back, Taken, blocked, refused, taken, wait_size_greater_than,
  take_front, pop_front_to, terminate,
}

wait_over :
    (wait timed_out some_there : Bool) → (not wait || (some_there || true || timed_out)) ≡ true
wait_over true timed_out true = refl
wait_over true timed_out false = refl
wait_over false timed_out some_there = refl

module _ {A : Type 0} where
  -- A call by one of the threads that share a queue, with what it put in and what it took out.
  pub data Call : ThreadSafeDeque A → List A → List A → ThreadSafeDeque A → Type 0 where
    pushes :
        {q : ThreadSafeDeque A} (v : A) (notify : Bool)
        → Pushed.result (push_back v notify q) ≡ true
        → Call q (v ∷ []) [] (Pushed.queue (push_back v notify q))
    push_fails :
        {q : ThreadSafeDeque A} (v : A) (notify : Bool)
        → Pushed.result (push_back v notify q) ≡ false
        → Call q [] [] (Pushed.queue (push_back v notify q))
    waits :
        {q : ThreadSafeDeque A} (wait timed_out : Bool)
        → pop_front_to wait timed_out q ≡ blocked
        → Call q [] [] q
    pop_fails :
        {q q' : ThreadSafeDeque A} (wait timed_out : Bool)
        → pop_front_to wait timed_out q ≡ refused q'
        → Call q [] [] q'
    pops :
        {q q' : ThreadSafeDeque A} (wait timed_out : Bool) (x : A)
        → pop_front_to wait timed_out q ≡ taken x q'
        → Call q [] (x ∷ []) q'
    terminates : {q : ThreadSafeDeque A} → Call q [] [] (terminate q)

  -- Calls in the order in which the mutex lets them in.
  pub data Calls : ThreadSafeDeque A → List A → List A → ThreadSafeDeque A → Type 0 where
    done : {q : ThreadSafeDeque A} → Calls q [] [] q
    then :
        {q r s : ThreadSafeDeque A} {ins outs more_ins more_outs : List A}
        → Call q ins outs r
        → Calls r more_ins more_outs s
        → Calls q (ins ++ more_ins) (outs ++ more_outs) s

  push_back_cases :
      (v : A) (notify : Bool) (q : ThreadSafeDeque A)
      → ((length q.container ≤ q.max_size)
          × (push_back v notify q ≡ record {
            queue = record q { container = q.container ++ v ∷ [] };
            result = true;
            notified = notify;
          }))
        ⊎ ((q.max_size < length q.container)
            × (push_back v notify q ≡ record { queue = q; result = false; notified = false }))
  unfolding push_back
  push_back_cases v notify q = ground arith

  take_front_cases :
      (xs : List A) (q : ThreadSafeDeque A)
      → (take_front xs q ≡ refused q)
        ⊎ ((x : A) × (rest : List A) × (xs ≡ x ∷ rest)
            × (take_front xs q ≡ taken x (record q { container = rest })))
  unfolding take_front
  take_front_cases [] q = inl refl
  take_front_cases (x ∷ xs) q = elim (Bool-cases q.terminated) [
    | inl e ↦ inl (rw (e) refl)
    | inr e ↦ inr (x, xs, refl, rw (e) refl)
  ]

  pop_front_to_cases :
      (wait timed_out : Bool) (q : ThreadSafeDeque A)
      → (pop_front_to wait timed_out q ≡ blocked)
        ⊎ ((pop_front_to wait timed_out q ≡ refused q)
            ⊎ ((x : A) × (rest : List A) × (q.container ≡ x ∷ rest)
                × (pop_front_to wait timed_out q ≡ taken x (record q { container = rest }))))
  unfolding pop_front_to
  pop_front_to_cases wait timed_out q =
      elim (Bool-cases (not wait || wait_size_greater_than 0 timed_out q)) [
        | inr e ↦ inl (rw e refl)
        | inl e ↦ elim (take_front_cases q.container q) [
          | inl r ↦ inr (inl (rw e r))
          | inr (x, rest, c, r) ↦ inr (inr (x, rest, c, rw e r))
        ]
      ]

  out : Taken A → List A
  out blocked = []
  out (refused q) = []
  out (taken x q) = x ∷ []

  behind : ThreadSafeDeque A → Taken A → ThreadSafeDeque A
  behind q blocked = q
  behind q (refused q') = q'
  behind q (taken x q') = q'

  -- What a call keeps: the order of the elements, and the bound on their number.
  abbrev Keeps : ThreadSafeDeque A → List A → List A → ThreadSafeDeque A → Type 0
  Keeps q ins outs r =
      (q.container ++ ins ≡ outs ++ r.container)
      × (r.max_size ≡ q.max_size)
      × (length q.container ≤ q.max_size + 1 → length r.container ≤ r.max_size + 1)

  unfoldable keeps_same : (q : ThreadSafeDeque A) → Keeps q [] [] q
  keeps_same q = (append-nil q.container, refl, λ h. h)

  pop-Keeps :
      (wait timed_out : Bool) (q : ThreadSafeDeque A)
      → Keeps q [] (out (pop_front_to wait timed_out q)) (behind q (pop_front_to wait timed_out q))
  unfolding out behind
  pop-Keeps wait timed_out q = elim (pop_front_to_cases wait timed_out q) [
    | inl e ↦ rw e (keeps_same q)
    | inr (inl e) ↦ rw e (keeps_same q)
    | inr (inr (x, rest, c, e)) ↦
        rw e (append-nil q.container ∙ c, refl, λ h. omega (arith, ap length c))
  ]

  push-Keeps :
      (v : A) (notify : Bool) (q : ThreadSafeDeque A)
      → Pushed.result (push_back v notify q) ≡ true
      → Keeps q (v ∷ []) [] (Pushed.queue (push_back v notify q))
  push-Keeps v notify q h = elim (push_back_cases v notify q) [
    | inl (l, e) ↦ rw e (refl, refl, λ b. omega (arith, length-append q.container (v ∷ [])))
    | inr (l, e) ↦ absurd (cc)
  ]

  push_fails-Keeps :
      (v : A) (notify : Bool) (q : ThreadSafeDeque A)
      → Pushed.result (push_back v notify q) ≡ false
      → Keeps q [] [] (Pushed.queue (push_back v notify q))
  push_fails-Keeps v notify q h = elim (push_back_cases v notify q) [
    | inl (l, e) ↦ absurd (cc)
    | inr (l, e) ↦ rw e (keeps_same q)
  ]

  call-Keeps :
      {q r : ThreadSafeDeque A} {ins outs : List A} → Call q ins outs r → Keeps q ins outs r
  unfolding out behind terminate
  call-Keeps (pushes v notify h) = push-Keeps v notify _ h
  call-Keeps (push_fails v notify h) = push_fails-Keeps v notify _ h
  call-Keeps (waits {q} wait timed_out h) = keeps_same q
  call-Keeps (pop_fails {q} wait timed_out h) = rw h at (pop-Keeps wait timed_out q)
  call-Keeps (pops {q} wait timed_out x h) = rw h at (pop-Keeps wait timed_out q)
  call-Keeps (terminates {q}) = (append-nil q.container, refl, λ h. h)

  -- However the calls of `push_back`, `pop_front_to` and `Terminate` by the threads interleave: what
  -- was in the queue, and then what was put in, is what was taken out, and then what is still in
  -- it, in the same order; and a queue with at most `max_size_ + 1` elements keeps to that.
  pub fifo :
      {q r : ThreadSafeDeque A} {ins outs : List A}
      → Calls q ins outs r
      → (q.container ++ ins ≡ outs ++ r.container)
        × (r.max_size ≡ q.max_size)
        × (length q.container ≤ q.max_size + 1 → length r.container ≤ r.max_size + 1)
  fifo (done {q}) = keeps_same q
  fifo (then {q} {r} {s} {ins} {outs} {more_ins} {more_outs} c cs) =
      let (e, m, b) = call-Keeps c in
      let (e', m', b') = fifo cs in
      (
        sym (append_assoc q.container ins more_ins)
            ∙ ap (λ t. t ++ more_ins) e
            ∙ append_assoc outs r.container more_ins
            ∙ ap (λ t. outs ++ t) e'
            ∙ sym (append_assoc outs more_outs s.container),
        m' ∙ m,
        λ h. b' (b h),
      )

  take_front_terminated :
      (xs : List A) (q : ThreadSafeDeque A) → q.terminated ≡ true → take_front xs q ≡ refused q
  unfolding take_front
  take_front_terminated [] q e = refl
  take_front_terminated (x ∷ xs) q e = ground arith

  -- Behind `Terminate`, a call of `pop_front_to` never waits and takes nothing, whatever elements
  -- are left.
  pop_front_to-terminate :
      (wait timed_out : Bool) (q : ThreadSafeDeque A)
      → pop_front_to wait timed_out (terminate q) ≡ refused (terminate q)
  unfolding pop_front_to terminate wait_size_greater_than take_front
  pop_front_to-terminate wait timed_out q =
      rw (wait_over wait timed_out (ltb 0 (length q.container)))
        (take_front_terminated q.container (terminate q) refl)
