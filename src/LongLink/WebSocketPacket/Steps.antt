-- ===== src/LongLink/WebSocketPacket/Steps.antt =====
-- The rounds of the WebSocket parser on a frame, one by one.
use unixtar.Prelude.{
  ℕ, suc, ◌+◌, ◌<◌, Bool, true, false, [], ◌∷◌, ◌++◌, none, some, Bytes, length, take, drop,
  take-all, arith, ◌≡◌, refl, sym, ap, ◌∙◌, if◌then◌else◌, sub_size, sub_size_le,
}
use unixtar.LongLink.WebSocketPacket.{
  WebSocketPacket, WebSocketParser, Position, none_yet, end, attempted, Outcome, returned_0,
  set_first_byte, resolve_first_byte, resolve_payload_len_of, resolve_payload_len,
  resolve_masking_key, resolve_payload, payload_added, add_payload, decode, round, verdict,
  do_parse_loop, do_parse,
}
use unixtar.LongLink.WebSocketPacket.Bits.{has_bit-top, low_seven, length-decode}

pub loop_next :
    (fuel : ℕ) (w q : WebSocketParser) (buf : Bytes)
    → round w.position w buf ≡ attempted q true
    → verdict q.position true q ≡ none
    → do_parse_loop (suc fuel) w buf ≡ do_parse_loop fuel q buf
unfolding do_parse_loop
loop_next fuel w q buf h v = rw (h, do_parse_loop) (rw (v, verdict) refl)

pub loop_stop :
    (fuel : ℕ) (w q : WebSocketParser) (buf : Bytes) (success : Bool) (o : Outcome)
    → round w.position w buf ≡ attempted q success
    → verdict q.position success q ≡ some o
    → do_parse_loop (suc fuel) w buf ≡ some o
unfolding do_parse_loop
loop_stop fuel w q buf success o h v = rw (h, do_parse_loop) (rw (v, verdict) refl)

abbrev pub after_first_byte : WebSocketPacket → ℕ → WebSocketParser
after_first_byte p b = record {
  ws_packet = set_first_byte b p;
  position = Position.payload_len;
  resolved_len = 1;
}

-- The second byte of a short frame: the mask bit and a length below 126.
abbrev pub second_byte : Bool → ℕ → ℕ
second_byte mask n = (if mask then 128 else 0) + n

abbrev pub with_length : WebSocketPacket → Bool → ℕ → WebSocketPacket
with_length p mask n = record p { mask = mask; payload_len = n }

abbrev pub after_payload_len : WebSocketPacket → Bool → ℕ → WebSocketParser
after_payload_len p mask n = record {
  ws_packet = with_length p mask n;
  position = if mask then Position.masking_key else Position.payload;
  resolved_len = 2;
}

pub step_payload_len :
    (p : WebSocketPacket) (b n : ℕ) (mask : Bool) (rest : Bytes)
    → n < 126
    → resolve_payload_len
        (record { ws_packet = p; position = Position.payload_len; resolved_len = 1 })
        (b ∷ second_byte mask n ∷ rest)
      ≡ attempted (after_payload_len p mask n) true
unfolding resolve_payload_len resolve_payload_len_of sub_size
step_payload_len p b n true rest h =
    ground (arith, has_bit-top (128 + n) (omega arith), low_seven (128 + n) (omega arith))
step_payload_len p b n false rest h =
    ground (arith, has_bit-top (0 + n) (omega arith), low_seven (0 + n) (omega arith))

abbrev pub after_masking_key : WebSocketPacket → ℕ → Bytes → WebSocketParser
after_masking_key p n key = record {
  ws_packet = record p { mask = true; payload_len = n; masking_key = key };
  position = Position.payload;
  resolved_len = 6;
}

pub step_masking_key :
    (p : WebSocketPacket) (b s k0 k1 k2 k3 n : ℕ) (rest : Bytes)
    → resolve_masking_key
        (record {
          ws_packet = with_length p true n;
          position = Position.masking_key;
          resolved_len = 2;
        })
        (b ∷ s ∷ k0 ∷ k1 ∷ k2 ∷ k3 ∷ rest)
      ≡ attempted (after_masking_key p n (k0 ∷ k1 ∷ k2 ∷ k3 ∷ [])) true
unfolding resolve_masking_key sub_size
step_masking_key p b s k0 k1 k2 k3 n rest = ground arith

payload_round :
    (w : WebSocketParser) (buf : Bytes) (n : ℕ)
    → sub_size (length buf) w.resolved_len ≡ n
    → 0 < n
    → resolve_payload w buf ≡ payload_added (add_payload n w buf)
unfolding resolve_payload
payload_round w buf n e pos = rw e (ground arith)

-- What the payload round leaves in the packet when `raw` is all that is unresolved.
abbrev pub with_payload : WebSocketParser → Bytes → ℕ → WebSocketParser
with_payload w raw n = record w {
  ws_packet = record w.ws_packet {
    payload = w.ws_packet.payload ++ decode w.ws_packet.mask w.ws_packet.masking_key 0 raw;
  };
  resolved_len = n;
}

-- A payload round on a buffer of which `raw` is unresolved.
pub step_payload :
    (w : WebSocketParser) (buf raw : Bytes)
    → drop w.resolved_len buf ≡ raw
    → length buf ≡ w.resolved_len + length raw
    → 0 < length raw
    → resolve_payload w buf ≡ payload_added (with_payload w raw (length buf))
unfolding add_payload
step_payload w buf raw d l pos =
    payload_round w buf (length raw)
      (sub_size_le (length buf) w.resolved_len (omega arith) ∙ omega arith) pos
    ∙ λ i. payload_added (with_payload w (shown i) (sym l i))
  where
    shown : take (length raw) (drop w.resolved_len buf) ≡ raw
    shown = ap (take (length raw)) d ∙ take-all (length raw) raw (omega arith)

pub payload_added-end :
    (w : WebSocketParser)
    → length w.ws_packet.payload ≡ w.ws_packet.payload_len
    → payload_added w ≡ attempted (record w { position = end }) true
unfolding payload_added
payload_added-end w h = ground arith

pub starts :
    (w : WebSocketParser) (b : ℕ) (rest : Bytes)
    → w.position ≡ none_yet
    → w.resolved_len ≡ 0
    → (do_parse w (b ∷ rest) ≡ do_parse_loop 6 w (b ∷ rest))
      × (round w.position w (b ∷ rest) ≡ attempted (after_first_byte w.ws_packet b) true)
unfolding do_parse round resolve_first_byte set_first_byte
starts w b rest e z = ground arith

pub first_byte_payload : (p : WebSocketPacket) (b : ℕ) → (set_first_byte b p).payload ≡ p.payload
unfolding set_first_byte
first_byte_payload p b = refl

pub round-payload :
    (w : WebSocketParser) (buf : Bytes) → round Position.payload w buf ≡ resolve_payload w buf
unfolding round
round-payload w buf = refl

pub verdict-end : (w : WebSocketParser) → verdict end true w ≡ some (returned_0 w)
unfolding verdict
verdict-end w = refl

-- The last round of a short frame: `q` is the packet behind the header, of `r` bytes.
pub payload_end :
    (q : WebSocketPacket) (buf raw content : Bytes) (r : ℕ)
    → q.payload ≡ []
    → drop r buf ≡ raw
    → length buf ≡ r + length raw
    → decode q.mask q.masking_key 0 raw ≡ content
    → q.payload_len ≡ length content
    → 0 < length content
    → resolve_payload (record { ws_packet = q; position = Position.payload; resolved_len = r }) buf
      ≡ attempted
          (record {
            ws_packet = record q { payload = content };
            position = end;
            resolved_len = r + length content;
          })
          true
payload_end q buf raw content r e d l dec n pos =
    step_payload w buf raw d l (omega (arith, same))
    ∙ ap payload_added (λ i. record {
      ws_packet = record q { payload = text i };
      position = Position.payload;
      resolved_len = ends i;
    })
    ∙ payload_added-end
        (record {
          ws_packet = record q { payload = content };
          position = Position.payload;
          resolved_len = r + length content;
        })
        (sym n)
  where
    w : WebSocketParser
    w = record { ws_packet = q; position = Position.payload; resolved_len = r }

    text : q.payload ++ decode q.mask q.masking_key 0 raw ≡ content
    text = ap (λ t. t ++ decode q.mask q.masking_key 0 raw) e ∙ dec

    same : length raw ≡ length content
    same = sym (length-decode q.mask q.masking_key 0 raw) ∙ ap length dec

    ends : length buf ≡ r + length content
    ends = omega (arith, same)
