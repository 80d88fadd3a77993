-- ===== src/ReverseProxy/LoadBalancer/Choice.antt =====
-- `LoadBalancer::Select`: which server it returns under each rule.
use unixtar.Prelude.{
  ℕ, zero, suc, ◌+◌, ◌<◌, ◌≤◌, ◌%◌, true, false, List, [], ◌∷◌, Option, none, some, Bytes, length,
  get_elem?, All, arith, ◌≡◌, refl, ap, sym, ◌∙◌, ◌==◌, ==_iff, Bool-cases, inl, inr,
}
use native.Mathlib.Nat.{mod-lt, mod-eq_of_lt, mod_self, mod-add-mod}
use unixtar.ReverseProxy.LoadBalancer.{
  WebServerProfile, LoadBalancer, BalanceRule, poll, ip_hash, Selected, selected, still_polling,
  Pton, address, not_parseable, failed, advance, ask, polled, balance_by_ip_hash, select_by, select,
}
use unixtar.ReverseProxy.LoadBalancer.Poll.{
  IsUp, IsOff, advanced, gap_lt, get_elem?_lt, ask_agreed, ask_up, advance_lt, loop_found,
  poll_loop-IsFirst, poll_loop_never,
}

-- The index that `Select` returns.
unfoldable pub chosen : Selected → Option ℕ
chosen (selected i b) = some i
chosen _ = none

-- The balancer that `Select` leaves.
unfoldable pub after : Selected → LoadBalancer → LoadBalancer
after (selected i b') b = b'
after _ b = b

select_opened :
    (fuel : ℕ) (clock : ℕ → ℕ) (pton : Bytes → Pton) (ip : Bytes) (b : LoadBalancer)
    → 0 < length b.web_servers
    → select fuel clock pton ip b ≡ select_by b.balance_rule fuel clock pton ip b
unfolding select
select_opened fuel clock pton ip b h = ground arith

select_nonempty :
    (fuel : ℕ) (clock : ℕ → ℕ) (pton : Bytes → Pton) (ip : Bytes) (rule : BalanceRule)
    (b : LoadBalancer)
    → 0 < length b.web_servers
    → b.balance_rule ≡ rule
    → select fuel clock pton ip b ≡ select_by rule fuel clock pton ip b
select_nonempty fuel clock pton ip rule b h e =
    select_opened fuel clock pton ip b h ∙ ap (λ r. select_by r fuel clock pton ip b) e

advanced_lt : (n m i : ℕ) → i < n → advanced n m i < n
unfolding advanced advance
advanced_lt n zero i h = h
advanced_lt n (suc m) i h = advanced_lt n m (advance n i) (ground arith)

-- Under `kPoll`, with a last selected index in range, fuel for every server and some server up,
-- `Select` returns: the servers behind the last one are asked in turn, those before the one
-- returned are not available, and the server at the returned index, which is also recorded as the
-- last selected one, has a weight and is up.
pub select_poll :
    (fuel : ℕ) (clock : ℕ → ℕ) (pton : Bytes → Pton) (ip : Bytes) (b : LoadBalancer) (j : ℕ)
    (svr : WebServerProfile)
    → b.balance_rule ≡ poll
    → b.last_selected < length b.web_servers
    → get_elem? b.web_servers j ≡ some svr
    → IsUp svr
    → length b.web_servers ≤ fuel
    → (m : ℕ) × (b' : LoadBalancer) × (select fuel clock pton ip b
        ≡ selected (advanced (length b.web_servers) (suc m) b.last_selected) b')
      × ((m' : ℕ)
          → m' < m
          → (ask
              (clock m')
              (advanced (length b.web_servers) (suc m') b.last_selected)
              b.web_servers).1
            ≡ false)
      × (picked : WebServerProfile) × (get_elem? b'.web_servers
            (advanced (length b.web_servers) (suc m) b.last_selected)
          ≡ some picked)
      × IsUp picked
      × (b'.last_selected ≡ advanced (length b.web_servers) (suc m) b.last_selected)
unfolding select_by polled
select_poll fuel clock pton ip b j svr e hi here up enough =
    let (m, l, (skipped, agreed, found)) =
      poll_loop-IsFirst fuel clock 0 b.last_selected j b.web_servers svr hi here up (
        omega (
          arith,
          gap_lt (length b.web_servers) b.last_selected j hi
              (get_elem?_lt b.web_servers j svr here),
        )) in
    let (picked, p, q) =
      ask_agreed (clock (0 + m)) (advanced (length b.web_servers) (suc m) b.last_selected)
        b.web_servers agreed in
    (
      m,
      record b {
        last_selected = advanced (length b.web_servers) (suc m) b.last_selected;
        web_servers =
            (ask (clock (0 + m)) (advanced (length b.web_servers) (suc m) b.last_selected)
              b.web_servers).0;
      },
      select_nonempty fuel clock pton ip poll b (omega arith) e ∙ ap (λ r. polled r b) found,
      λ m' l'.
          ap
            (λ x.
              (ask (clock x) (advanced (length b.web_servers) (suc m') b.last_selected)
                b.web_servers).1)
            (omega arith)
          ∙ skipped m' l',
      picked,
      p,
      q,
      refl,
    )

-- Under `kPoll`, when there are servers and none has a weight, `Select` is still in its loop
-- after any number of rounds, and it holds the mutex.
pub select_poll_never :
    (fuel : ℕ) (clock : ℕ → ℕ) (pton : Bytes → Pton) (ip : Bytes) (b : LoadBalancer)
    → b.balance_rule ≡ poll
    → 0 < length b.web_servers
    → All IsOff b.web_servers
    → select fuel clock pton ip b ≡ still_polling
unfolding select_by polled
select_poll_never fuel clock pton ip b e h off =
    select_nonempty fuel clock pton ip poll b h e
    ∙ ap (λ r. polled r b) (poll_loop_never fuel clock 0 b.last_selected b.web_servers off)

hashed : Pton → ℕ → ℕ
hashed (address a) n = a % n
hashed _ n = 0

hashed_lt : (r : Pton) (n : ℕ) → 0 < n → hashed r n < n
unfolding hashed
hashed_lt (address a) n h = mod-lt a h
hashed_lt not_parseable n h = h
hashed_lt failed n h = h

chosen-balance_by_ip_hash :
    (r : Pton) (b : LoadBalancer)
    → chosen (balance_by_ip_hash r b) ≡ some (hashed r (length b.web_servers))
unfolding chosen balance_by_ip_hash hashed
chosen-balance_by_ip_hash (address a) b = refl
chosen-balance_by_ip_hash not_parseable b = refl
chosen-balance_by_ip_hash failed b = refl

-- Under `kIpHash` the server depends on the address and the number of servers alone, and it is a
-- registered one: two balancers with as many servers, at least one, choose the same index for an
-- address, whatever else they hold.
pub select_ip_hash :
    (fuel : ℕ) (clock clock' : ℕ → ℕ) (pton : Bytes → Pton) (ip : Bytes) (b b' : LoadBalancer)
    → b.balance_rule ≡ ip_hash
    → b'.balance_rule ≡ ip_hash
    → 0 < length b.web_servers
    → length b'.web_servers ≡ length b.web_servers
    → (i : ℕ) × (i < length b.web_servers)
      × (chosen (select fuel clock pton ip b) ≡ some i)
      × (chosen (select fuel clock' pton ip b') ≡ some i)
unfolding select_by
select_ip_hash fuel clock clock' pton ip b b' e e' h same = (
  hashed (pton ip) (length b.web_servers),
  hashed_lt (pton ip) (length b.web_servers) h,
  ap chosen (select_nonempty fuel clock pton ip ip_hash b h e)
      ∙ chosen-balance_by_ip_hash (pton ip) b,
  ap chosen (select_nonempty fuel clock' pton ip ip_hash b' (omega arith) e')
      ∙ chosen-balance_by_ip_hash (pton ip) b'
      ∙ ap (λ n. some (hashed (pton ip) n)) same,
)

All-get_elem? :
    {A : Type 0} {P : A → Type 0} (xs : List A) (i : ℕ)
    → All P xs
    → i < length xs
    → (x : A) × (get_elem? xs i ≡ some x) × P x
All-get_elem? [] i h l = absurd (omega arith)
All-get_elem? (x ∷ xs) zero h l = (x, refl, h.0)
All-get_elem? (x ∷ xs) (suc i) h l = All-get_elem? xs i h.1 (omega arith)

ask_next :
    (now : ℕ) (i : ℕ) (svrs : List WebServerProfile)
    → i < length svrs
    → All IsUp svrs
    → ask now i svrs ≡ (svrs, true)
ask_next now i svrs h up = let (svr, e, u) = All-get_elem? svrs i up h in ask_up now i svrs svr e u

ask_advanced :
    (now : ℕ) (b : LoadBalancer)
    → b.last_selected < length b.web_servers
    → All IsUp b.web_servers
    → ask now (advance (length b.web_servers) b.last_selected) b.web_servers ≡ (b.web_servers, true)
ask_advanced now b hi up =
    ask_next now (advance (length b.web_servers) b.last_selected) b.web_servers
      (advance_lt (length b.web_servers) b.last_selected hi) up

advance_mod : (n i : ℕ) → i < n → advance n i ≡ (i + 1) % n
unfolding advance
advance_mod n i h = elim (Bool-cases (i + 1 == n)) [
  | inl e ↦ rw e (sym (ap (λ x. x % n) ((==_iff (i + 1) n).0 e) ∙ mod_self n))
  | inr e ↦ rw e (sym (mod-eq_of_lt (ground arith)))
]

-- Under `kPoll`, when every server is up, `Select` returns the next one and changes no profile.
select_next :
    (fuel : ℕ) (clock : ℕ → ℕ) (pton : Bytes → Pton) (ip : Bytes) (b : LoadBalancer)
    → b.balance_rule ≡ poll
    → b.last_selected < length b.web_servers
    → All IsUp b.web_servers
    → select (suc fuel) clock pton ip b
      ≡ selected
          (advance (length b.web_servers) b.last_selected)
          (record b { last_selected = advance (length b.web_servers) b.last_selected })
unfolding select_by polled
select_next fuel clock pton ip b e hi up =
    select_nonempty (suc fuel) clock pton ip poll b (omega arith) e
    ∙ ap (λ r. polled r b)
        (loop_found fuel clock 0 b.last_selected b.web_servers
          (ap (λ r. r.1) (ask_advanced (clock 0) b hi up)))
    ∙ ap
        (λ r. selected (advance (length b.web_servers) b.last_selected) (record b {
          last_selected = advance (length b.web_servers) b.last_selected;
          web_servers = r.0;
        }))
        (ask_advanced (clock 0) b hi up)

-- `m` calls of `Select`.
unfoldable pub selects : ℕ → ℕ → (ℕ → ℕ) → (Bytes → Pton) → Bytes → LoadBalancer → LoadBalancer
selects zero fuel clock pton ip b = b
selects (suc m) fuel clock pton ip b =
    selects m fuel clock pton ip (after (select fuel clock pton ip b) b)

-- The balancer behind `m` calls that each take the next server.
stepped : ℕ → LoadBalancer → LoadBalancer
stepped m b = record b { last_selected = advanced (length b.web_servers) m b.last_selected }

-- Under `kPoll`, when every server is up, `m` calls record the server `m` places on.
selects-stepped :
    (m fuel : ℕ) (clock : ℕ → ℕ) (pton : Bytes → Pton) (ip : Bytes) (b : LoadBalancer)
    → b.balance_rule ≡ poll
    → b.last_selected < length b.web_servers
    → All IsUp b.web_servers
    → selects m (suc fuel) clock pton ip b ≡ stepped m b
unfolding selects after advanced stepped
selects-stepped zero fuel clock pton ip b e hi up = refl
selects-stepped (suc m) fuel clock pton ip b e hi up =
    ap (λ r. selects m (suc fuel) clock pton ip (after r b))
      (select_next fuel clock pton ip b e hi up)
    ∙ selects-stepped m fuel clock pton ip
        (record b { last_selected = advance (length b.web_servers) b.last_selected }) e
        (advance_lt (length b.web_servers) b.last_selected hi) up

advanced_mod : (n m i : ℕ) → i < n → advanced n m i ≡ (i + m) % n
unfolding advanced
advanced_mod n zero i h = sym (ap (λ x. x % n) (omega arith) ∙ mod-eq_of_lt h)
advanced_mod n (suc m) i h =
    advanced_mod n m (advance n i) (advance_lt n i h)
    ∙ ap (λ x. (x + m) % n) (advance_mod n i h)
    ∙ mod-add-mod (i + 1) n m
    ∙ ap (λ x. x % n) (omega arith)

-- Under `kPoll`, when every server is up and the last selected index `i` is in range, calls of
-- `Select` return the servers in turn: the call behind `m` calls returns `(i + m + 1) % n`.
pub selects_in_turn :
    (m fuel : ℕ) (clock : ℕ → ℕ) (pton : Bytes → Pton) (ip : Bytes) (b : LoadBalancer)
    → b.balance_rule ≡ poll
    → b.last_selected < length b.web_servers
    → All IsUp b.web_servers
    → chosen (select (suc fuel) clock pton ip (selects m (suc fuel) clock pton ip b))
      ≡ some ((b.last_selected + suc m) % length b.web_servers)
unfolding chosen stepped
selects_in_turn m fuel clock pton ip b e hi up =
    let n = length b.web_servers in
    let i = advanced n m b.last_selected in
    let i_lt : i < n = advanced_lt n m b.last_selected hi in
    ap (λ q. chosen (select (suc fuel) clock pton ip q))
      (selects-stepped m fuel clock pton ip b e hi up)
    ∙ ap chosen (select_next fuel clock pton ip (stepped m b) e i_lt up)
    ∙ ap some (
        advance_mod n i i_lt
        ∙ ap (λ x. (x + 1) % n) (advanced_mod n m b.last_selected hi)
        ∙ mod-add-mod (b.last_selected + m) n 1
        ∙ ap (λ x. x % n) (omega arith))
