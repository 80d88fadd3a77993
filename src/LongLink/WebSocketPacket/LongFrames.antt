-- ===== src/LongLink/WebSocketPacket/LongFrames.antt =====
-- The rounds of the WebSocket parser on a frame whose length stands behind the second byte.
use unixtar.Prelude.{
  ℕ, suc, ◌+◌, ◌*◌, ◌<◌, ◌≤◌, Bool, true, false, [], ◌∷◌, ◌++◌, none, some, Bytes, IsByte, length,
  length-append, drop, arith, ◌≡◌, refl, ap, ◌∙◌, if◌then◌else◌, sub_size,
}
use unixtar.LongLink.WebSocketPacket.{
  WebSocketPacket, WebSocketParser, Position, error, attempted, undefined, returned_minus_1,
  undefined_behaviour, set_first_byte, resolve_payload_len_of, resolve_payload_len,
  resolve_extended_payload_len, resolve_masking_key, payload_added, decode, round, verdict,
  do_parse_loop,
}
use unixtar.LongLink.WebSocketPacket.Bits.{has_bit-top, low_seven, two_bytes-eq, length-decode}
use unixtar.LongLink.WebSocketPacket.Steps.{
  loop_next, loop_stop, with_payload, step_payload, second_byte,
}

-- The state behind a header with a two-byte length.
abbrev pub long_header : WebSocketPacket → Bool → ℕ → WebSocketParser
long_header p mask n = record {
  ws_packet = record p { mask = mask; payload_len = 126; extended_payload_len = n };
  position = if mask then Position.masking_key else Position.payload;
  resolved_len = 4;
}

abbrev pub at_extended : WebSocketPacket → Bool → ℕ → WebSocketParser
at_extended p mask n = record {
  ws_packet = record p { mask = mask; payload_len = n };
  position = Position.extended_payload_len;
  resolved_len = 2;
}

pub step_long_len :
    (p : WebSocketPacket) (b n : ℕ) (mask : Bool) (rest : Bytes)
    → 126 ≤ n
    → n < 128
    → resolve_payload_len
        (record { ws_packet = p; position = Position.payload_len; resolved_len = 1 })
        (b ∷ second_byte mask n ∷ rest)
      ≡ attempted (at_extended p mask n) true
unfolding resolve_payload_len resolve_payload_len_of sub_size
step_long_len p b n true rest lo hi =
    ground (arith, has_bit-top (128 + n) (omega arith), low_seven (128 + n) (omega arith))
step_long_len p b n false rest lo hi =
    ground (arith, has_bit-top (0 + n) (omega arith), low_seven (0 + n) (omega arith))

pub step_extended :
    (p : WebSocketPacket) (b s hi lo : ℕ) (mask : Bool) (rest : Bytes)
    → IsByte hi
    → IsByte lo
    → resolve_extended_payload_len (at_extended p mask 126) (b ∷ s ∷ hi ∷ lo ∷ rest)
      ≡ attempted (long_header p mask (hi * 256 + lo)) true
unfolding resolve_extended_payload_len sub_size
step_extended p b s hi lo mask rest hh hl = ground (arith, two_bytes-eq hi lo hh hl)

pub step_extended_eight :
    (p : WebSocketPacket) (b s : ℕ) (mask : Bool) (rest : Bytes)
    → 8 ≤ length rest
    → resolve_extended_payload_len (at_extended p mask 127) (b ∷ s ∷ rest) ≡ undefined
unfolding resolve_extended_payload_len sub_size
step_extended_eight p b s mask rest h = ground arith

pub loop_undefined :
    (fuel : ℕ) (w : WebSocketParser) (buf : Bytes)
    → round w.position w buf ≡ undefined
    → do_parse_loop (suc fuel) w buf ≡ some undefined_behaviour
unfolding do_parse_loop
loop_undefined fuel w buf h = rw (h, do_parse_loop) refl

pub payload_added-error :
    (w : WebSocketParser)
    → w.ws_packet.payload_len < length w.ws_packet.payload
    → payload_added w ≡ attempted (record w { position = error }) false
unfolding payload_added
payload_added-error w h = ground arith

-- The last round of a frame whose payload is longer than the seven-bit length.
too_long :
    (fuel : ℕ) (w : WebSocketParser) (buf raw : Bytes)
    → w.position ≡ Position.payload
    → drop w.resolved_len buf ≡ raw
    → length buf ≡ w.resolved_len + length raw
    → w.ws_packet.payload ≡ []
    → w.ws_packet.payload_len < length raw
    → (q : WebSocketParser) × (do_parse_loop (suc fuel) w buf ≡ some (returned_minus_1 q))
      × (q.position ≡ error)
      × (q.ws_packet.extended_payload_len ≡ w.ws_packet.extended_payload_len)
too_long fuel w buf raw here d l none_payload long =
    let z = with_payload w raw (length buf) in
    let added = decode w.ws_packet.mask w.ws_packet.masking_key 0 raw in
    let grown : w.ws_packet.payload_len < length (w.ws_packet.payload ++ added) = omega (
      arith,
      length-append w.ws_packet.payload added,
      length-decode w.ws_packet.mask w.ws_packet.masking_key 0 raw,
    ) in
    (
      record z { position = error },
      loop_stop fuel w (record z { position = error }) buf false
          (returned_minus_1 (record z { position = error }))
          (ap (λ p. round p w buf) here
            ∙ (unfold round in
                (step_payload w buf raw d l (omega arith) ∙ payload_added-error z grown)))
          (unfold verdict in refl),
      refl,
      refl,
    )

-- What stands behind the length of a frame: the key, if it is masked, and the payload.
abbrev pub keyed : Bool → ℕ → ℕ → ℕ → ℕ → Bytes → Bytes
keyed mask k0 k1 k2 k3 raw = if mask then k0 ∷ k1 ∷ k2 ∷ k3 ∷ raw else raw

abbrev with_key : WebSocketPacket → ℕ → Bytes → WebSocketParser
with_key p n key = record {
  ws_packet = record p {
    mask = true;
    payload_len = 126;
    extended_payload_len = n;
    masking_key = key;
  };
  position = Position.payload;
  resolved_len = 8;
}

step_long_key :
    (p : WebSocketPacket) (b s hi lo k0 k1 k2 k3 n : ℕ) (raw : Bytes)
    → resolve_masking_key (long_header p true n) (b ∷ s ∷ hi ∷ lo ∷ k0 ∷ k1 ∷ k2 ∷ k3 ∷ raw)
      ≡ attempted (with_key p n (k0 ∷ k1 ∷ k2 ∷ k3 ∷ [])) true
unfolding resolve_masking_key sub_size
step_long_key p b s hi lo k0 k1 k2 k3 n raw = ground arith

-- The rounds behind the two-byte length.
pub behind_length :
    (p : WebSocketPacket) (b s hi lo k0 k1 k2 k3 n : ℕ) (mask : Bool) (raw : Bytes)
    → p.payload ≡ []
    → 126 < length raw
    → (q : WebSocketParser) × (do_parse_loop 3
          (long_header p mask n)
          (b ∷ s ∷ hi ∷ lo ∷ keyed mask k0 k1 k2 k3 raw)
        ≡ some (returned_minus_1 q))
      × (q.position ≡ error)
      × (q.ws_packet.extended_payload_len ≡ n)
behind_length p b s hi lo k0 k1 k2 k3 n true raw none_payload long =
    let h = long_header p true n in
    let k = with_key p n (k0 ∷ k1 ∷ k2 ∷ k3 ∷ []) in
    let buf : Bytes = b ∷ s ∷ hi ∷ lo ∷ k0 ∷ k1 ∷ k2 ∷ k3 ∷ raw in
    let (q, run, at, len) = too_long 1 k buf raw refl refl (omega arith) none_payload long in
    (
      q,
      loop_next 2 h k buf (unfold round in step_long_key p b s hi lo k0 k1 k2 k3 n raw)
            (unfold verdict in refl)
          ∙ run,
      at,
      len,
    )
behind_length p b s hi lo k0 k1 k2 k3 n false raw none_payload long =
    too_long 2 (long_header p false n) (b ∷ s ∷ hi ∷ lo ∷ raw) raw refl refl (omega arith)
      none_payload long

pub first_byte_none :
    (p : WebSocketPacket) (b : ℕ) → p.payload ≡ [] → (set_first_byte b p).payload ≡ []
unfolding set_first_byte
first_byte_none p b h = h

pub long_next :
    (p : WebSocketPacket) (mask : Bool) (n : ℕ)
    → verdict (if mask then Position.masking_key else Position.payload) true (long_header p mask n)
      ≡ none
unfolding verdict
long_next p true n = refl
long_next p false n = refl
