-- ===== src/ReverseProxy/LoadBalancer/Poll.antt =====
-- `LoadBalancer::__BalanceByPoll`: round robin over the servers that are available.
use unixtar.Prelude.{
  ℕ, zero, suc, ◌+◌, ◌-◌, ◌<◌, true, false, List, [], ◌∷◌, Option, none, some, length, get_elem?,
  All, arith, ◌≡◌, refl, ap, ◌∙◌, leb, if◌then◌else◌, Bool-cases, inl, inr, ◌⊎◌,
}
use mathlib.Core.Option
use unixtar.ReverseProxy.LoadBalancer.{
  WebServerProfile, is_web_server_available, advance, ask, poll_loop,
}

-- A server that is never skipped.
abbrev pub IsUp : WebServerProfile → Type 0
IsUp svr = (0 < svr.weight) × (svr.is_down ≡ false)

-- A server that is always skipped.
abbrev pub IsOff : WebServerProfile → Type 0
IsOff svr = svr.weight ≡ 0

-- The index `m` rounds behind `i`.
unfoldable pub advanced : ℕ → ℕ → ℕ → ℕ
advanced n zero i = i
advanced n (suc m) i = advanced n m (advance n i)

available_up :
    (now : ℕ) (svr : WebServerProfile) → IsUp svr → is_web_server_available now svr ≡ (svr, true)
unfolding is_web_server_available
available_up now svr h = ground arith

available_off :
    (now : ℕ) (svr : WebServerProfile) → IsOff svr → is_web_server_available now svr ≡ (svr, false)
unfolding is_web_server_available
available_off now svr h = ground arith

available_refused :
    (now : ℕ) (svr : WebServerProfile)
    → (is_web_server_available now svr).1 ≡ false
    → (is_web_server_available now svr).0 ≡ svr
unfolding is_web_server_available
available_refused now svr h = ground arith

available_agreed :
    (now : ℕ) (svr : WebServerProfile)
    → (is_web_server_available now svr).1 ≡ true
    → IsUp (is_web_server_available now svr).0
unfolding is_web_server_available
available_agreed now svr h = ground arith

length-ask : (now i : ℕ) (svrs : List WebServerProfile) → length (ask now i svrs).0 ≡ length svrs
unfolding ask
length-ask now i [] = refl
length-ask now zero (svr ∷ svrs) = refl
length-ask now (suc i) (svr ∷ svrs) = ap suc (length-ask now i svrs)

-- A server that answers no is left as it was, so the profiles are.
ask_refused :
    (now i : ℕ) (svrs : List WebServerProfile)
    → (ask now i svrs).1 ≡ false
    → (ask now i svrs).0 ≡ svrs
unfolding ask
ask_refused now i [] h = refl
ask_refused now zero (svr ∷ svrs) h = ap (λ s. s ∷ svrs) (available_refused now svr h)
ask_refused now (suc i) (svr ∷ svrs) h = ap (◌∷◌ svr) (ask_refused now i svrs h)

pub ask_agreed :
    (now i : ℕ) (svrs : List WebServerProfile)
    → (ask now i svrs).1 ≡ true
    → (svr : WebServerProfile) × (get_elem? (ask now i svrs).0 i ≡ some svr) × IsUp svr
unfolding ask
ask_agreed now i [] h = cc
ask_agreed now zero (svr ∷ svrs) h = (_, refl, available_agreed now svr h)
ask_agreed now (suc i) (svr ∷ svrs) h = ask_agreed now i svrs h

pub ask_up :
    (now i : ℕ) (svrs : List WebServerProfile) (svr : WebServerProfile)
    → get_elem? svrs i ≡ some svr
    → IsUp svr
    → ask now i svrs ≡ (svrs, true)
unfolding ask
ask_up now i [] svr e h = cc
ask_up now zero (x ∷ svrs) svr e h =
    let same : x ≡ svr = ap (λ o. Option.get_or o x) e in
    rw (same) (ap (λ r. (r.0 ∷ svrs, r.1)) (available_up now svr h))
ask_up now (suc i) (x ∷ svrs) svr e h = ap (λ r. (x ∷ r.0, r.1)) (ask_up now i svrs svr e h)

ask_off :
    (now i : ℕ) (svrs : List WebServerProfile) → All IsOff svrs → ask now i svrs ≡ (svrs, false)
unfolding ask
ask_off now i [] h = refl
ask_off now zero (svr ∷ svrs) h = ap (λ r. (r.0 ∷ svrs, r.1)) (available_off now svr h.0)
ask_off now (suc i) (svr ∷ svrs) h = ap (λ r. (svr ∷ r.0, r.1)) (ask_off now i svrs h.1)

pub loop_found :
    (fuel : ℕ) (clock : ℕ → ℕ) (k i : ℕ) (svrs : List WebServerProfile)
    → (ask (clock k) (advance (length svrs) i) svrs).1 ≡ true
    → poll_loop (suc fuel) clock k i svrs
      ≡ some (advance (length svrs) i, (ask (clock k) (advance (length svrs) i) svrs).0)
unfolding poll_loop
loop_found fuel clock k i svrs h = rw (h, poll_loop) refl

loop_skipped :
    (fuel : ℕ) (clock : ℕ → ℕ) (k i : ℕ) (svrs : List WebServerProfile)
    → (ask (clock k) (advance (length svrs) i) svrs).1 ≡ false
    → poll_loop (suc fuel) clock k i svrs
      ≡ poll_loop fuel clock (k + 1) (advance (length svrs) i) svrs
unfolding poll_loop
loop_skipped fuel clock k i svrs h =
    rw (h, poll_loop)
      (ap (poll_loop fuel clock (k + 1) (advance (length svrs) i))
        (ask_refused (clock k) (advance (length svrs) i) svrs h))

-- How many servers stand between `i` and `j`, going round.
unfoldable pub gap : ℕ → ℕ → ℕ → ℕ
gap n i j = if leb (i + 1) j then j - i - 1 else j + n - i - 1

pub advance_lt : (n i : ℕ) → i < n → advance n i < n
unfolding advance
advance_lt n i h = ground arith

gap-advance : (n i j : ℕ) → i < n → j < n → (advance n i ≡ j) ⊎ (gap n (advance n i) j < gap n i j)
unfolding gap advance
gap-advance n i j hi hj = ground arith

pub gap_lt : (n i j : ℕ) → i < n → j < n → gap n i j < n
unfolding gap
gap_lt n i j hi hj = ground arith

pub get_elem?_lt :
    {A : Type 0} (xs : List A) (j : ℕ) (x : A) → get_elem? xs j ≡ some x → j < length xs
get_elem?_lt [] j x h = cc
get_elem?_lt (y ∷ xs) zero x h = omega arith
get_elem?_lt (y ∷ xs) (suc j) x h = omega (arith, get_elem?_lt xs j x h)

-- The server asked in round `m` is the first that is available, and it is the one returned.
abbrev pub IsFirst :
    (ℕ → ℕ) → ℕ → ℕ → List WebServerProfile → ℕ → Option (ℕ × List WebServerProfile) → Type 0
IsFirst clock k i svrs m result =
    ((m' : ℕ) → m' < m → (ask (clock (k + m')) (advanced (length svrs) (suc m') i) svrs).1 ≡ false)
    × ((ask (clock (k + m)) (advanced (length svrs) (suc m) i) svrs).1 ≡ true)
    × (result
        ≡ some (
          advanced (length svrs) (suc m) i,
          (ask (clock (k + m)) (advanced (length svrs) (suc m) i) svrs).0,
        ))

IsFirst-here :
    (fuel : ℕ) (clock : ℕ → ℕ) (k i : ℕ) (svrs : List WebServerProfile)
    → (ask (clock k) (advance (length svrs) i) svrs).1 ≡ true
    → IsFirst clock k i svrs 0 (poll_loop (suc fuel) clock k i svrs)
unfolding advanced
IsFirst-here fuel clock k i svrs h = (
  λ m' l. absurd (omega arith),
  ap (λ x. (ask (clock x) (advanced (length svrs) 1 i) svrs).1) (omega arith) ∙ h,
  loop_found fuel clock k i svrs h
      ∙ ap
          (λ x.
            some (advanced (length svrs) 1 i, (ask (clock x) (advanced (length svrs) 1 i) svrs).0))
          (omega arith),
)

first_skipped :
    (clock : ℕ → ℕ) (k i m : ℕ) (svrs : List WebServerProfile)
    → (ask (clock k) (advance (length svrs) i) svrs).1 ≡ false
    → ((m' : ℕ)
        → m' < m
        → (ask
            (clock (k + 1 + m'))
            (advanced (length svrs) (suc m') (advance (length svrs) i))
            svrs).1
          ≡ false)
    → (m' : ℕ) → m' < suc m
    → (ask (clock (k + m')) (advanced (length svrs) (suc m') i) svrs).1 ≡ false
unfolding advanced
first_skipped clock k i m svrs h skipped zero l =
    ap (λ x. (ask (clock x) (advanced (length svrs) 1 i) svrs).1) (omega arith) ∙ h
first_skipped clock k i m svrs h skipped (suc m') l =
    ap (λ x. (ask (clock x) (advanced (length svrs) (suc (suc m')) i) svrs).1) (omega arith)
    ∙ skipped m' (omega arith)

IsFirst-later :
    (fuel : ℕ) (clock : ℕ → ℕ) (k i m : ℕ) (svrs : List WebServerProfile)
    → (ask (clock k) (advance (length svrs) i) svrs).1 ≡ false
    → IsFirst clock
        (k + 1)
        (advance (length svrs) i)
        svrs
        m
        (poll_loop fuel clock (k + 1) (advance (length svrs) i) svrs)
    → IsFirst clock k i svrs (suc m) (poll_loop (suc fuel) clock k i svrs)
unfolding advanced
IsFirst-later fuel clock k i m svrs h (skipped, agreed, e) = (
  first_skipped clock k i m svrs h skipped,
  ap (λ x. (ask (clock x) (advanced (length svrs) (suc (suc m)) i) svrs).1) (omega arith) ∙ agreed,
  loop_skipped fuel clock k i svrs h
      ∙ e
      ∙ ap
          (λ x. some (
            advanced (length svrs) (suc (suc m)) i,
            (ask (clock x) (advanced (length svrs) (suc (suc m)) i) svrs).0,
          ))
          (omega arith),
)

-- A refusal is not that of a server that is up, so the next round is nearer to it.
nearer :
    (clock : ℕ → ℕ) (k i j : ℕ) (svrs : List WebServerProfile) (svr : WebServerProfile) (fuel : ℕ)
    → i < length svrs
    → get_elem? svrs j ≡ some svr
    → IsUp svr
    → gap (length svrs) i j < suc fuel
    → (ask (clock k) (advance (length svrs) i) svrs).1 ≡ false
    → gap (length svrs) (advance (length svrs) i) j < fuel
nearer clock k i j svrs svr fuel hi e up h f =
    elim (gap-advance (length svrs) i j hi (get_elem?_lt svrs j svr e)) [
      | inl same ↦
          let agreed : (ask (clock k) (advance (length svrs) i) svrs).1 ≡ true =
            ap (λ r. r.1)
              (ask_up (clock k) (advance (length svrs) i) svrs svr (ap (get_elem? svrs) same ∙ e)
                up) in
          cc
      | inr l ↦ omega arith
    ]

-- With a server that is up, the loop ends within as many rounds as servers stand before it.
pub poll_loop-IsFirst :
    (fuel : ℕ) (clock : ℕ → ℕ) (k i j : ℕ) (svrs : List WebServerProfile) (svr : WebServerProfile)
    → i < length svrs
    → get_elem? svrs j ≡ some svr
    → IsUp svr
    → gap (length svrs) i j < fuel
    → (m : ℕ) × (m < fuel) × IsFirst clock k i svrs m (poll_loop fuel clock k i svrs)
poll_loop-IsFirst zero clock k i j svrs svr hi e up h = absurd (omega arith)
poll_loop-IsFirst (suc fuel) clock k i j svrs svr hi e up h =
    elim (Bool-cases (ask (clock k) (advance (length svrs) i) svrs).1) [
      | inl t ↦ (0, omega arith, IsFirst-here fuel clock k i svrs t)
      | inr f ↦
          let (m, l, first) =
            poll_loop-IsFirst fuel clock (k + 1) (advance (length svrs) i) j svrs svr
              (advance_lt (length svrs) i hi) e up (nearer clock k i j svrs svr fuel hi e up h f) in
          (suc m, omega arith, IsFirst-later fuel clock k i m svrs f first)
    ]

-- When no server has a weight, the loop has no end: no fuel is enough.
pub poll_loop_never :
    (fuel : ℕ) (clock : ℕ → ℕ) (k i : ℕ) (svrs : List WebServerProfile)
    → All IsOff svrs
    → poll_loop fuel clock k i svrs ≡ none
unfolding poll_loop
poll_loop_never zero clock k i svrs h = refl
poll_loop_never (suc fuel) clock k i svrs h =
    loop_skipped fuel clock k i svrs
      (ap (λ r. r.1) (ask_off (clock k) (advance (length svrs) i) svrs h))
    ∙ poll_loop_never fuel clock (k + 1) (advance (length svrs) i) svrs h
