-- ===== src/Http/Packet/Total.antt =====
-- `HttpParser::DoParse` returns, or an exception leaves it: four rounds are enough.
use unixtar.Prelude.{
  ℕ, zero, suc, ◌<◌, ◌≤◌, Bool, true, false, none, some, Bytes, length, arith, ◌≡◌, ◌≢◌, refl, inl,
  inr, ◌⊎◌, Bool-cases, ◌==◌, ==_iff, ◌&&◌, ltb, sub_size,
}
use unixtar.Http.Packet.{
  Position, none_yet, first_line, headers, body, end, error, HttpParser, LineResult, Attempt,
  attempted, threw, Outcome, returned_0, returned_minus_1, escaped, Methods, round, verdict,
  resolve_first_line_with, resolve_headers_base, headers_parsed, resolve_body_base,
  resolve_body_of_length, do_parse_loop, do_parse,
}

-- How many rounds a position can still take.
abbrev pub rank : Position → ℕ
rank none_yet = 4
rank first_line = 4
rank headers = 3
rank body = 2
rank end = 1
rank error = 1

rank_pos : (p : Position) → (0 < rank p) × (rank p ≤ 4)
rank_pos none_yet = omega arith
rank_pos _ = omega arith

module _ {L : Type 0} where
  -- What a method leaves when it succeeds: a position with fewer rounds left.
  abbrev pub Lowers : ℕ → Attempt L → Type 0
  Lowers n (threw q) = Unit
  Lowers n (attempted q true) = rank q.position < n
  Lowers n (attempted q false) = Unit

  -- Methods each of which moves on to a later part of the message.
  pub record IsForward (m : Methods L) : Type 0 where
    pub first_line_forward :
        (p : HttpParser L) (buf : Bytes) → Lowers 4 (m.resolve_first_line p buf)
    pub headers_forward : (p : HttpParser L) (buf : Bytes) → Lowers 3 (m.resolve_headers p buf)
    pub body_forward : (p : HttpParser L) (buf : Bytes) → Lowers 2 (m.resolve_body p buf)

  pub first_line_with-Lowers :
      (parse : L → Bytes → LineResult L) (p : HttpParser L) (buf : Bytes)
      → Lowers 4 (resolve_first_line_with parse p buf)
  unfolding resolve_first_line_with
  first_line_with-Lowers parse p buf = ground arith

  pub headers_base-Lowers : (p : HttpParser L) (buf : Bytes) → Lowers 3 (resolve_headers_base p buf)
  unfolding resolve_headers_base headers_parsed
  headers_base-Lowers p buf = ground arith

  pub body_base-Lowers : (p : HttpParser L) (buf : Bytes) → Lowers 2 (resolve_body_base p buf)
  unfolding resolve_body_base resolve_body_of_length
  body_base-Lowers p buf = ground arith

  round-Lowers :
      (m : Methods L) (ok : IsForward m) (pos : Position) (p : HttpParser L) (buf : Bytes)
      → Lowers (rank pos) (round m pos p buf)
  unfolding round
  round-Lowers m ok none_yet p buf = elim (Bool-cases (p.resolved_len == 0 && ltb 0 (length buf))) [
    | inl e ↦ rw e (ok.first_line_forward (record p { position = first_line }) buf)
    | inr e ↦ rw e tt
  ]
  round-Lowers m ok first_line p buf = ok.first_line_forward p buf
  round-Lowers m ok headers p buf = ok.headers_forward p buf
  round-Lowers m ok body p buf = ok.body_forward p buf
  round-Lowers m ok end p buf = tt
  round-Lowers m ok error p buf = tt

  -- What the outcome says of the position: 0 only at the end, -1 only elsewhere.
  abbrev pub Fits : Outcome L → Type 0
  Fits (returned_0 q) = q.position ≡ end
  Fits (returned_minus_1 q) = q.position ≢ end
  Fits (escaped q) = Unit

  verdict_cases :
      (pos : Position) (b : Bool) (q : HttpParser L)
      → ((verdict pos b q ≡ none) × (b ≡ true))
        ⊎ (((verdict pos b q ≡ some (returned_0 q)) × (pos ≡ end))
            ⊎ ((verdict pos b q ≡ some (returned_minus_1 q)) × (pos ≢ end)))
  unfolding verdict
  verdict_cases end b q = inr (inl (refl, refl))
  verdict_cases error b q = inr (inr (refl, λ e. cc))
  verdict_cases _ true q = inl (refl, refl)
  verdict_cases _ false q = inr (inr (refl, λ e. cc))

  Attempt-cases :
      (a : Attempt L)
      → ((q : HttpParser L) × (a ≡ threw q))
        ⊎ ((q : HttpParser L) × (b : Bool) × (a ≡ attempted q b))
  Attempt-cases (threw q) = inl (q, refl)
  Attempt-cases (attempted q b) = inr (q, b, refl)

  Lowers-lt :
      (n : ℕ) (q : HttpParser L) (b : Bool)
      → b ≡ true
      → Lowers n (attempted q b)
      → rank q.position < n
  Lowers-lt n q true e h = h
  Lowers-lt n q false e h = cc

  do_parse_loop_total :
      (fuel : ℕ) (m : Methods L) (p : HttpParser L) (buf : Bytes)
      → IsForward m
      → rank p.position ≤ fuel
      → (o : Outcome L) × (do_parse_loop fuel m p buf ≡ some o) × Fits o
  unfolding do_parse_loop
  do_parse_loop_total zero m p buf ok h = absurd (omega (arith, rank_pos p.position))
  do_parse_loop_total (suc fuel) m p buf ok h = elim (Attempt-cases (round m p.position p buf)) [
    | inl (q, e) ↦ (escaped q, rw (e, do_parse_loop) refl, tt)
    | inr (q, b, e) ↦
        let left : Lowers (rank p.position) (attempted q b) =
          rw e at (round-Lowers m ok p.position p buf) in
        elim (verdict_cases q.position b q) [
          | inl (v, t) ↦
              let (o, r, l) =
                do_parse_loop_total fuel m q buf ok
                  (omega (arith, Lowers-lt (rank p.position) q b t left)) in
              (o, rw (e, do_parse_loop) (rw (v, verdict) r), l)
          | inr (inl (v, at_end)) ↦
              (returned_0 q, rw (e, do_parse_loop) (rw (v, verdict) refl), at_end)
          | inr (inr (v, elsewhere)) ↦
              (returned_minus_1 q, rw (e, do_parse_loop) (rw (v, verdict) refl), elsewhere)
        ]
  ]

  -- What `DoParse` leaves: the parser as it was when the buffer has nothing unread, and else what
  -- the position says.
  abbrev pub Ends : HttpParser L → Bytes → Outcome L → Type 0
  Ends p buf o =
      (((length buf ≡ 0) ⊎ (sub_size (length buf) p.resolved_len ≡ 0)) × (o ≡ returned_0 p))
      ⊎ ((length buf ≢ 0) × (sub_size (length buf) p.resolved_len ≢ 0) × Fits o)

  -- With methods that each move on, `DoParse` ends on every parser and buffer: it leaves the parser
  -- alone when there is nothing unread, and else returns 0 at the end of a message only.
  pub do_parse_forward :
      (m : Methods L) (p : HttpParser L) (buf : Bytes)
      → IsForward m
      → (o : Outcome L) × (do_parse m p buf ≡ some o) × Ends p buf o
  unfolding do_parse
  do_parse_forward m p buf ok = elim (Bool-cases (length buf == 0)) [
    | inl e ↦ (returned_0 p, rw e refl, inl (inl ((==_iff (length buf) 0).0 e), refl))
    | inr e ↦ elim (Bool-cases (sub_size (length buf) p.resolved_len == 0)) [
      | inl r ↦ (
        returned_0 p,
        rw e (rw r refl),
        inl (inr ((==_iff (sub_size (length buf) p.resolved_len) 0).0 r), refl),
      )
      | inr r ↦
          let (o, s, l) = do_parse_loop_total 4 m p buf ok (rank_pos p.position).1 in
          (o, rw e (rw r s), inr (ground arith, ground arith, l))
    ]
  ]
