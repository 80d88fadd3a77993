-- ===== src/Utils/Yaml/Levels.antt =====
-- How the reader goes back to an outer level, and runs of it over several lines.
use unixtar.Prelude.{
  Outcome, ok, asserted, undefined, ◌>>=◌, ℕ, zero, suc, ◌+◌, ◌-◌, true, false, List, [], ◌∷◌, ◌++◌,
  Bytes, ltb, arith, ◌≡◌, refl, ap, ◌∙◌,
}
use unixtar.Utils.StrUtil.{delafter}
use unixtar.Utils.Yaml.{Value, fill, State, back_by, settle, bare_line, parse_lines, close}

-- The state in which the value and its ancestors stand for `parent` and the stack.
abbrev pub at : ℕ → Value → List Value → State
at n v st = record { parent = v; stack = st; last_indents = n }

-- The ancestor at the indentation has the value, once the levels below it are left.
abbrev pub Closes : ℕ → State → Value → List Value → Type 0
Closes n s v st = (k : ℕ) × (s.last_indents ≡ k + n) × (back_by k s ≡ ok (at s.last_indents v st))

pub Closes-here : (n : ℕ) (v : Value) (st : List Value) → Closes n (at n v st) v st
unfolding back_by
Closes-here n v st = (0, omega arith, refl)

back_by-two_more :
    (k n : ℕ) (v : Value) (st : List Value)
    → back_by (suc (suc k)) (at n v st) ≡ (back_by k (at n v st) >>= back_by 2)
unfolding back_by
back_by-two_more zero n v st = refl
back_by-two_more (suc zero) n v [] = refl
back_by-two_more (suc zero) n v (top ∷ st) = refl
back_by-two_more (suc (suc k)) n v [] = refl
back_by-two_more (suc (suc k)) n v (top ∷ st) = back_by-two_more k n (fill v top) st

back_by-two :
    (n : ℕ) (v top : Value) (st : List Value)
    → back_by 2 (at n v (top ∷ st)) ≡ ok (at n (fill v top) st)
unfolding back_by
back_by-two n v top st = refl

pub Closes-up :
    (n : ℕ) (s : State) (v top : Value) (st : List Value)
    → Closes (n + 2) s v (top ∷ st)
    → Closes n s (fill v top) st
Closes-up n s v top st (k, e, h) =
    let more : s.last_indents ≡ suc (suc k) + n = omega arith in
    (
      suc (suc k),
      more,
      back_by-two_more k s.last_indents s.parent s.stack
          ∙ ap (λ o. o >>= back_by 2) h
          ∙ back_by-two s.last_indents v top st,
    )

pub settle-Closes :
    (n : ℕ) (s : State) (v : Value) (st : List Value)
    → Closes n s v st
    → settle n s ≡ ok (at s.last_indents v st)
unfolding settle back_by
settle-Closes n s v st (zero, e, h) =
    let at_it : ltb n s.last_indents ≡ false = ground arith in rw (at_it) h
settle-Closes n s v st (suc k, e, h) =
    let beyond : ltb n s.last_indents ≡ true = ground arith in
    let far : s.last_indents - n ≡ suc k = omega arith in rw (beyond, far) h

close-back_by :
    (k n : ℕ) (v : Value) (st : List Value) (t : State)
    → back_by k (at n v st) ≡ ok t
    → close v st ≡ close t.parent t.stack
unfolding back_by close
close-back_by zero n v st t h =
    let same : at n v st ≡ t = cc in ap (λ u. close u.parent u.stack) same
close-back_by (suc zero) n v st t h = absurd cc
close-back_by (suc (suc k)) n v [] t h = absurd cc
close-back_by (suc (suc k)) n v (top ∷ st) t h = close-back_by k n (fill v top) st t h

pub close-Closes : (n : ℕ) (s : State) (v : Value) → Closes n s v [] → close s.parent s.stack ≡ v
unfolding close
close-Closes n s v (k, e, h) =
    close-back_by k s.last_indents s.parent s.stack (at s.last_indents v []) h

-- The reader takes the lines from the one state to the other.
abbrev pub Reaches : List Bytes → State → State → Type 0
Reaches lines s t = parse_lines lines s ≡ ok t

pub Reaches-nil : (s : State) → Reaches [] s s
unfolding parse_lines
Reaches-nil s = refl

pub Reaches-cons :
    (line : Bytes) (lines : List Bytes) (s t u : State)
    → bare_line (delafter line b'#') s ≡ ok t
    → Reaches lines t u
    → Reaches (line ∷ lines) s u
unfolding parse_lines
Reaches-cons line lines s t u h r = ap (λ o. o >>= parse_lines lines) h ∙ r

bind-bind :
    (o : Outcome State) (p q r : State → Outcome State)
    → ((s : State) → r s ≡ (p s >>= q))
    → (o >>= r) ≡ ((o >>= p) >>= q)
bind-bind (ok s) p q r h = h s
bind-bind asserted p q r h = refl
bind-bind undefined p q r h = refl

parse_lines-append :
    (front back : List Bytes) (s : State)
    → parse_lines (front ++ back) s ≡ (parse_lines front s >>= parse_lines back)
unfolding parse_lines
parse_lines-append [] back s = refl
parse_lines-append (line ∷ front) back s =
    bind-bind _ (parse_lines front) (parse_lines back) _ (parse_lines-append front back)

pub Reaches-append :
    (front back : List Bytes) (s t u : State)
    → Reaches front s t
    → Reaches back t u
    → Reaches (front ++ back) s u
Reaches-append front back s t u h r =
    parse_lines-append front back s ∙ ap (λ o. o >>= parse_lines back) h ∙ r

pub Reaches-end :
    (lines : List Bytes) (s t u : State) → Reaches lines s t → t ≡ u → Reaches lines s u
Reaches-end lines s t u h e = h ∙ ap ok e
