-- ===== src/LongLink/WebSocketPacket/Fragments.antt =====
-- A payload that arrives in two pieces.
use unixtar.Prelude.{
  ℕ, ◌+◌, ◌%◌, ◌<◌, true, false, [], ◌∷◌, ◌++◌, Option, some, Bytes, length, length-append,
  append_assoc, drop, arith, ◌≡◌, ◌≢◌, refl, sym, ap, ◌∙◌, sub_size_le, drop-append_self, get_or,
  IsByte, bit_xor,
}
use unixtar.LongLink.WebSocketPacket.{
  WebSocketParser, Position, end, attempted, payload_added, do_parse_loop, decode, round, verdict,
  do_parse, Outcome, returned_0,
}
use unixtar.LongLink.WebSocketPacket.Bits.{
  decode-append, decode_period, length-decode, IsKey, xor_cancel,
}
use unixtar.LongLink.WebSocketPacket.Steps.{
  with_payload, step_payload, payload_added-end, loop_stop,
}

payload_loop :
    (w : WebSocketParser) (pre s : Bytes)
    → w.position ≡ Position.payload
    → w.resolved_len ≡ length pre
    → 0 < length s
    → do_parse w (pre ++ s) ≡ do_parse_loop 6 w (pre ++ s)
unfolding do_parse
payload_loop w pre s e r pos = ground (
  arith,
  sub_size_le (length (pre ++ s)) w.resolved_len (omega (arith, length-append pre s)),
  length-append pre s,
)

payload_round :
    (w : WebSocketParser) (pre s : Bytes)
    → w.position ≡ Position.payload
    → w.resolved_len ≡ length pre
    → 0 < length s
    → round w.position w (pre ++ s) ≡ payload_added (with_payload w s (length (pre ++ s)))
unfolding round
payload_round w pre s e r pos =
    ap (λ p. round p w (pre ++ s)) e
    ∙ step_payload w (pre ++ s) s
        (ap (λ n. drop n (pre ++ s)) r ∙ drop-append_self pre s (length pre) refl)
        (omega (arith, length-append pre s)) pos

payload_added_more :
    (w : WebSocketParser)
    → length w.ws_packet.payload < w.ws_packet.payload_len
    → payload_added w ≡ attempted w false
unfolding payload_added
payload_added_more w h = ground arith

payload_size :
    (w : WebSocketParser) (s : Bytes) (n : ℕ)
    → length (with_payload w s n).ws_packet.payload ≡ length w.ws_packet.payload + length s
payload_size w s n = omega (
  arith,
  length-append w.ws_packet.payload (decode w.ws_packet.mask w.ws_packet.masking_key 0 s),
  length-decode w.ws_packet.mask w.ws_packet.masking_key 0 s,
)

-- A part of the payload is taken in, and the parser waits.
parse_part :
    (w : WebSocketParser) (pre s : Bytes)
    → w.position ≡ Position.payload
    → w.resolved_len ≡ length pre
    → 0 < length s
    → length w.ws_packet.payload + length s < w.ws_packet.payload_len
    → do_parse w (pre ++ s) ≡ some (returned_0 (with_payload w s (length (pre ++ s))))
parse_part w pre s e r pos less =
    payload_loop w pre s e r pos
    ∙ loop_stop 5 w (with_payload w s (length (pre ++ s))) (pre ++ s) false
        (returned_0 (with_payload w s (length (pre ++ s))))
        (payload_round w pre s e r pos
          ∙ payload_added_more _ (omega (arith, payload_size w s (length (pre ++ s)))))
        (ap (λ p. verdict p false (with_payload w s (length (pre ++ s)))) e
          ∙ unfold verdict in refl)

-- The rest of the payload ends the frame.
parse_rest :
    (w : WebSocketParser) (pre s : Bytes)
    → w.position ≡ Position.payload
    → w.resolved_len ≡ length pre
    → 0 < length s
    → length w.ws_packet.payload + length s ≡ w.ws_packet.payload_len
    → do_parse w (pre ++ s)
      ≡ some (returned_0 (record (with_payload w s (length (pre ++ s))) { position = end }))
parse_rest w pre s e r pos total =
    payload_loop w pre s e r pos
    ∙ loop_stop 5 w (record (with_payload w s (length (pre ++ s))) { position = end }) (pre ++ s)
        true (returned_0 (record (with_payload w s (length (pre ++ s))) { position = end }))
        (payload_round w pre s e r pos
          ∙ payload_added-end _ (payload_size w s (length (pre ++ s)) ∙ total))
        (unfold verdict in refl)

-- The state behind the first piece.
abbrev pub part_state : WebSocketParser → Bytes → Bytes → WebSocketParser
part_state w pre s = with_payload w s (length (pre ++ s))

-- Two pieces, `s` and then `t`, complete the payload of a parser that waits for it behind `pre`.
pub record IsSplit (w : WebSocketParser) (pre s t : Bytes) : Type 0 where
  pub waits : w.position ≡ Position.payload
  pub resolved : w.resolved_len ≡ length pre
  pub first_some : 0 < length s
  pub second_some : 0 < length t
  pub total : length w.ws_packet.payload + length s + length t ≡ w.ws_packet.payload_len

-- Where the key stands for the second piece is the only difference to the payload as a whole.
abbrev text_at : WebSocketParser → Bytes → Bytes → ℕ → Bytes
text_at w s t i =
    (w.ws_packet.payload ++ decode w.ws_packet.mask w.ws_packet.masking_key 0 s)
    ++ decode w.ws_packet.mask w.ws_packet.masking_key i t

abbrev final_state : WebSocketParser → Bytes → Bytes → Bytes → ℕ → WebSocketParser
final_state w pre s t i = record w {
  ws_packet = record w.ws_packet { payload = text_at w s t i };
  position = end;
  resolved_len = length ((pre ++ s) ++ t);
}

in_pieces :
    (w : WebSocketParser) (pre s t : Bytes)
    → IsSplit w pre s t
    → do_parse (part_state w pre s) ((pre ++ s) ++ t) ≡ some (returned_0 (final_state w pre s t 0))
in_pieces w pre s t h =
    parse_rest (part_state w pre s) (pre ++ s) t h.waits refl h.second_some
      (ap (λ n. n + length t) (payload_size w s (length (pre ++ s))) ∙ h.total)

at_once :
    (w : WebSocketParser) (pre s t : Bytes)
    → IsSplit w pre s t
    → do_parse w ((pre ++ s) ++ t) ≡ some (returned_0 (final_state w pre s t (length s)))
at_once w pre s t h =
    ap (do_parse w) (append_assoc pre s t)
    ∙ parse_rest w pre (s ++ t) h.waits h.resolved (omega (arith, length-append s t, h.first_some))
        (omega (arith, length-append s t, h.total))
    ∙ λ i. some (
        returned_0 (record w {
          ws_packet = record w.ws_packet { payload = text i };
          position = end;
          resolved_len = sizes i;
        }))
  where
    text :
        w.ws_packet.payload ++ decode w.ws_packet.mask w.ws_packet.masking_key 0 (s ++ t)
        ≡ text_at w s t (length s)
    text =
        ap (λ d. w.ws_packet.payload ++ d)
          (decode-append w.ws_packet.mask w.ws_packet.masking_key 0 s t)
        ∙ sym (append_assoc w.ws_packet.payload _ _)
        ∙ ap (text_at w s t) (omega arith)

    sizes : length (pre ++ (s ++ t)) ≡ length ((pre ++ s) ++ t)
    sizes = ap length (sym (append_assoc pre s t))

-- A payload that is awaited comes in two pieces, neither of them empty, that together complete
-- it. If the first piece is a multiple of four bytes long, two calls of `DoParse` leave the same
-- state as one call on the whole.
pub parse_pieces :
    (w : WebSocketParser) (pre s t : Bytes)
    → IsSplit w pre s t
    → length s % 4 ≡ 0
    → (do_parse w (pre ++ s) ≡ some (returned_0 (part_state w pre s)))
      × (do_parse (part_state w pre s) ((pre ++ s) ++ t) ≡ do_parse w ((pre ++ s) ++ t))
parse_pieces w pre s t h four = (
  parse_part w pre s h.waits h.resolved h.first_some (omega (arith, h.total, h.second_some)),
  in_pieces w pre s t h
      ∙ ap
          (λ d. some (
            returned_0 (record w {
              ws_packet = record w.ws_packet {
                payload =
                    (w.ws_packet.payload ++ decode w.ws_packet.mask w.ws_packet.masking_key 0 s)
                    ++ d;
              };
              position = end;
              resolved_len = length ((pre ++ s) ++ t);
            })))
          (decode_period w.ws_packet.mask w.ws_packet.masking_key 0 (length s) t (omega arith))
      ∙ sym (at_once w pre s t h),
)

payload_of : Option Outcome → Bytes
payload_of (some (returned_0 q)) = q.ws_packet.payload
payload_of _ = []

masked_head :
    (key : Bytes) (x : ℕ) (t s : Bytes)
    → decode true key 0 (x ∷ t) ≡ decode true key (length s) (x ∷ t)
    → bit_xor x (get_or key 0 0) ≡ bit_xor x (get_or key (length s % 4) 0)
unfolding decode
masked_head key x t s e = ap (λ l. get_or l 0 0) e

pieces_differ :
    (w : WebSocketParser) (pre s t : Bytes) (x : ℕ)
    → IsSplit w pre s (x ∷ t)
    → w.ws_packet.mask ≡ true
    → IsByte x
    → IsKey w.ws_packet.masking_key
    → get_or w.ws_packet.masking_key 0 0 ≢ get_or w.ws_packet.masking_key (length s % 4) 0
    → do_parse (part_state w pre s) ((pre ++ s) ++ x ∷ t) ≢ do_parse w ((pre ++ s) ++ x ∷ t)
unfolding payload_of
pieces_differ w pre s t x h m hx hk ne e = ne (
    xor_cancel x _ _ hx (hk 0) (hk (length s % 4))
      (masked_head w.ws_packet.masking_key x t s heads))
  where
    key : Bytes
    key = w.ws_packet.masking_key

    before : Bytes
    before = w.ws_packet.payload ++ decode w.ws_packet.mask key 0 s

    texts : text_at w s (x ∷ t) 0 ≡ text_at w s (x ∷ t) (length s)
    texts = ap payload_of (sym (in_pieces w pre s (x ∷ t) h) ∙ e ∙ at_once w pre s (x ∷ t) h)

    tails : decode w.ws_packet.mask key 0 (x ∷ t) ≡ decode w.ws_packet.mask key (length s) (x ∷ t)
    tails =
        sym (drop-append_self before (decode w.ws_packet.mask key 0 (x ∷ t)) (length before) refl)
        ∙ ap (drop (length before)) texts
        ∙ drop-append_self before (decode w.ws_packet.mask key (length s) (x ∷ t)) (length before)
            refl

    heads : decode true key 0 (x ∷ t) ≡ decode true key (length s) (x ∷ t)
    heads = rw m at tails

-- A masked payload that is awaited comes in two pieces, neither of them empty, that together
-- complete it. Where the key byte due for the first byte of the second piece is not the first
-- key byte, the key starts anew all the same: the first call of `DoParse` returns 0 with the
-- first piece taken, and the second one leaves another state than one call on the whole.
pub parse_pieces_differ :
    (w : WebSocketParser) (pre s t : Bytes) (x : ℕ)
    → IsSplit w pre s (x ∷ t)
    → w.ws_packet.mask ≡ true
    → IsByte x
    → IsKey w.ws_packet.masking_key
    → get_or w.ws_packet.masking_key 0 0 ≢ get_or w.ws_packet.masking_key (length s % 4) 0
    → (do_parse w (pre ++ s) ≡ some (returned_0 (part_state w pre s)))
      × (do_parse (part_state w pre s) ((pre ++ s) ++ x ∷ t) ≢ do_parse w ((pre ++ s) ++ x ∷ t))
parse_pieces_differ w pre s t x h m hx hk ne = (
  parse_part w pre s h.waits h.resolved h.first_some (omega (arith, h.total, h.second_some)),
  pieces_differ w pre s t x h m hx hk ne,
)
