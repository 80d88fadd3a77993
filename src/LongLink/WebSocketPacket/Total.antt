-- ===== src/LongLink/WebSocketPacket/Total.antt =====
-- `DoParse` returns: six rounds are enough.
use unixtar.Prelude.{
  ℕ, zero, suc, ◌<◌, ◌≤◌, Bool, true, false, none, some, Bytes, length, arith, ◌≡◌, refl, inl, inr,
  ◌⊎◌, Bool-cases, leb, sub_size,
}
use unixtar.LongLink.WebSocketPacket.{
  WebSocketParser, Position, none_yet, first_byte, end, error, Attempt, attempted, undefined,
  Outcome, returned_0, returned_minus_1, undefined_behaviour, resolve_first_byte,
  resolve_payload_len, resolve_extended_payload_len, resolve_masking_key, resolve_payload, round,
  verdict, do_parse_loop, do_parse, set_first_byte, reset_parser,
}

-- The key is awaited only for a masked frame. Without this the loop of the source would not end.
abbrev pub IsSound : WebSocketParser → Type 0
IsSound w = w.position ≡ Position.masking_key → w.ws_packet.mask ≡ true

-- How many rounds a position can still take.
abbrev rank : Position → ℕ
rank none_yet = 6
rank first_byte = 6
rank Position.payload_len = 5
rank Position.extended_payload_len = 4
rank Position.masking_key = 3
rank Position.payload = 2
rank end = 1
rank error = 1

-- What a round leaves: a sound parser, and a lower rank where the loop goes on.
abbrev Leaves : ℕ → Attempt → Type 0
Leaves n undefined = Unit
Leaves n (attempted q true) = IsSound q × (rank q.position < n)
Leaves n (attempted q false) = IsSound q

round_lowers :
    (pos : Position) (w : WebSocketParser) (buf : Bytes)
    → w.position ≡ pos
    → IsSound w
    → Leaves (rank pos) (round pos w buf)
unfolding round resolve_first_byte set_first_byte resolve_payload_len resolve_extended_payload_len
    resolve_masking_key resolve_payload
round_lowers Position.masking_key w buf e s = ground (arith, s e)
round_lowers _ w buf e s = ground arith

-- The parser that a call leaves is sound again.
abbrev pub LeavesSound : Outcome → Type 0
LeavesSound (returned_0 q) = IsSound q
LeavesSound (returned_minus_1 q) = IsSound q
LeavesSound undefined_behaviour = Unit

verdict_cases :
    (pos : Position) (b : Bool) (q : WebSocketParser)
    → ((verdict pos b q ≡ none) × (b ≡ true))
      ⊎ ((verdict pos b q ≡ some (returned_0 q)) ⊎ (verdict pos b q ≡ some (returned_minus_1 q)))
unfolding verdict
verdict_cases end b q = inr (inl refl)
verdict_cases error b q = inr (inr refl)
verdict_cases _ true q = inl (refl, refl)
verdict_cases _ false q = inr (inl refl)

Attempt-cases :
    (a : Attempt) → (a ≡ undefined) ⊎ ((q : WebSocketParser) × (b : Bool) × (a ≡ attempted q b))
Attempt-cases undefined = inl refl
Attempt-cases (attempted q b) = inr (q, b, refl)

Leaves-IsSound : (n : ℕ) (q : WebSocketParser) (b : Bool) → Leaves n (attempted q b) → IsSound q
Leaves-IsSound n q true h = h.0
Leaves-IsSound n q false h = h

Leaves-lt :
    (n : ℕ) (q : WebSocketParser) (b : Bool)
    → b ≡ true
    → Leaves n (attempted q b)
    → rank q.position < n
Leaves-lt n q true e h = h.1
Leaves-lt n q false e h = cc

rank_pos : (p : Position) → (0 < rank p) × (rank p ≤ 6)
rank_pos none_yet = omega arith
rank_pos _ = omega arith

do_parse_loop_total :
    (fuel : ℕ) (w : WebSocketParser) (buf : Bytes)
    → IsSound w
    → rank w.position ≤ fuel
    → (o : Outcome) × (do_parse_loop fuel w buf ≡ some o) × LeavesSound o
unfolding do_parse_loop
do_parse_loop_total zero w buf s h = absurd (omega (arith, rank_pos w.position))
do_parse_loop_total (suc fuel) w buf s h = elim (Attempt-cases (round w.position w buf)) [
  | inl e ↦ (undefined_behaviour, rw (e, do_parse_loop) refl, tt)
  | inr (q, b, e) ↦
      let left : Leaves (rank w.position) (attempted q b) =
        rw e at (round_lowers w.position w buf refl s) in
      let sound : IsSound q = Leaves-IsSound _ q b left in
      elim (verdict_cases q.position b q) [
        | inl (v, t) ↦
            let (o, p, l) =
              do_parse_loop_total fuel q buf sound
                (omega (arith, Leaves-lt (rank w.position) q b t left)) in
            (o, rw (e, do_parse_loop) (rw (v, verdict) p), l)
        | inr (inl v) ↦ (returned_0 q, rw (e, do_parse_loop) (rw (v, verdict) refl), sound)
        | inr (inr v) ↦ (returned_minus_1 q, rw (e, do_parse_loop) (rw (v, verdict) refl), sound)
      ]
]

-- A parser that waits for a masking key only when the frame is masked: on every buffer `DoParse`
-- returns, or meets the undefined shift, within six rounds, and the parser left is such again.
pub do_parse_total :
    (w : WebSocketParser) (buf : Bytes)
    → IsSound w
    → (o : Outcome) × (do_parse w buf ≡ some o) × LeavesSound o
unfolding do_parse
do_parse_total w buf s = elim (Bool-cases (leb (sub_size (length buf) w.resolved_len) 0)) [
  | inl e ↦ (returned_0 w, rw e refl, s)
  | inr e ↦ let (o, p, l) = do_parse_loop_total 6 w buf s (rank_pos w.position).1 in (o, rw e p, l)
]

-- A new parser, and one that was reset, is sound.
pub reset_parser-IsSound : (w : WebSocketParser) → IsSound (reset_parser w)
unfolding reset_parser
reset_parser-IsSound w e = cc
