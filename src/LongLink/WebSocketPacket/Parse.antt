-- ===== src/LongLink/WebSocketPacket/Parse.antt =====
-- Frames of less than 126 bytes that stand whole in the buffer, and what `Pack` writes.
use unixtar.Prelude.{
  ℕ, zero, suc, ◌+◌, ◌/◌, ◌%◌, ◌<◌, leb, ◌==◌, true, false, [], ◌∷◌, some, Bytes, IsByte, length,
  drop, ltb, arith, ◌≡◌, refl, sym, ap, ◌∙◌, All,
}
use unixtar.LongLink.WebSocketPacket.{
  WebSocketPacket, WebSocketParser, none_yet, end, returned_0, has_bit, set_first_byte,
  resolve_payload_len, decode, round, verdict, do_parse, pack, pack_length,
}
use unixtar.LongLink.WebSocketPacket.Bits.{
  has_bit-top, has_bit-rsv, low_four, IsKey, decode_twice, decode_unmasked, masked, decode-masked,
}
use unixtar.LongLink.WebSocketPacket.Steps.{
  loop_next, loop_stop, after_first_byte, second_byte, after_payload_len, step_payload_len,
  after_masking_key, step_masking_key, starts, first_byte_payload, round-payload, verdict-end,
  payload_end,
}

-- The flags and the op code that stand in a first byte.
abbrev pub with_first_byte : WebSocketPacket → ℕ → WebSocketPacket
with_first_byte p b = record p {
  first_byte = b;
  fin = leb 128 b;
  rsv_0 = b / 64 % 2 == 1;
  rsv_1 = b / 32 % 2 == 1;
  rsv_2 = b / 16 % 2 == 1;
  op_code = b % 16;
}

set_first_byte_lem :
    (p : WebSocketPacket) (b : ℕ) → IsByte b → set_first_byte b p ≡ with_first_byte p b
unfolding set_first_byte
set_first_byte_lem p b h =
    let (r0, r1, r2) = has_bit-rsv b h in rw (has_bit-top b h, r0, r1, r2, low_four b h) refl

-- The packet that a masked frame with these bytes leaves.
abbrev pub unmasked_packet : WebSocketPacket → ℕ → Bytes → Bytes → WebSocketPacket
unmasked_packet p b key content = record (with_first_byte p b) {
  mask = true;
  payload_len = length content;
  masking_key = key;
  payload = content;
}

-- A masked frame of 1 to 125 bytes: its header, its key and the masked text.
abbrev pub masked_frame : ℕ → ℕ → ℕ → ℕ → ℕ → Bytes → Bytes
masked_frame b k0 k1 k2 k3 content =
    b ∷ (128 + length content) ∷ k0 ∷ k1 ∷ k2 ∷ k3 ∷ masked k0 k1 k2 k3 content

masking_fits :
    (k0 k1 k2 k3 : ℕ)
    → IsByte k0
    → IsByte k1
    → IsByte k2
    → IsByte k3
    → IsKey (k0 ∷ k1 ∷ k2 ∷ k3 ∷ [])
masking_fits k0 k1 k2 k3 h0 h1 h2 h3 zero = h0
masking_fits k0 k1 k2 k3 h0 h1 h2 h3 (suc zero) = h1
masking_fits k0 k1 k2 k3 h0 h1 h2 h3 (suc (suc zero)) = h2
masking_fits k0 k1 k2 k3 h0 h1 h2 h3 (suc (suc (suc zero))) = h3
masking_fits k0 k1 k2 k3 h0 h1 h2 h3 (suc (suc (suc (suc i)))) = omega arith

parse_decoded :
    (w : WebSocketParser) (b k0 k1 k2 k3 : ℕ) (content : Bytes)
    → w.position ≡ none_yet
    → w.resolved_len ≡ 0
    → w.ws_packet.payload ≡ []
    → All IsByte (k0 ∷ k1 ∷ k2 ∷ k3 ∷ content)
    → 0 < length content
    → length content < 126
    → do_parse w (
        b
        ∷ second_byte true (length content)
        ∷ k0
        ∷ k1
        ∷ k2
        ∷ k3
        ∷ decode true (k0 ∷ k1 ∷ k2 ∷ k3 ∷ []) 0 content)
      ≡ some (
          returned_0 (record {
            ws_packet = record (set_first_byte b w.ws_packet) {
              mask = true;
              payload_len = length content;
              masking_key = k0 ∷ k1 ∷ k2 ∷ k3 ∷ [];
              payload = content;
            };
            position = end;
            resolved_len = 6 + length content;
          }))
parse_decoded w b k0 k1 k2 k3 content fresh zero_len none_payload h pos small =
    let q = set_first_byte b w.ws_packet in
    let n = length content in
    let key : Bytes = k0 ∷ k1 ∷ k2 ∷ k3 ∷ [] in
    let raw = decode true key 0 content in
    let buf : Bytes = b ∷ second_byte true n ∷ k0 ∷ k1 ∷ k2 ∷ k3 ∷ raw in
    let (started, round1) = starts w b (drop 1 buf) fresh zero_len in
    started
    ∙ loop_next 5 w (after_first_byte w.ws_packet b) buf round1 (unfold verdict in refl)
    ∙ loop_next 4 (after_first_byte w.ws_packet b) (after_payload_len q true n) buf
        (unfold round in step_payload_len q b n true (drop 2 buf) small) (unfold verdict in refl)
    ∙ loop_next 3 (after_payload_len q true n) (after_masking_key q n key) buf
        (unfold round in step_masking_key q b (second_byte true n) k0 k1 k2 k3 n raw)
        (unfold verdict in refl)
    ∙ loop_stop 2 (after_masking_key q n key) _ buf true _
        (round-payload _ buf
          ∙ payload_end (record q { mask = true; payload_len = n; masking_key = key }) buf raw
              content 6 (first_byte_payload w.ws_packet b ∙ none_payload) refl (omega arith)
              (decode_twice key 0 content (masking_fits k0 k1 k2 k3 h.0 h.1.0 h.1.1.0 h.1.1.1.0)
                h.1.1.1.1)
              refl pos)
        (verdict-end _)

-- A client's masked frame of 1 to 125 bytes, given whole to a parser with no frame begun and an
-- empty payload, is unmasked into the packet, and the parser is at its end: the content was masked by
-- the four key bytes in turn, the flags are the high four bits of the first byte, and the op code is
-- its low four bits.
pub parse_masked :
    (w : WebSocketParser) (b k0 k1 k2 k3 : ℕ) (content : Bytes)
    → w.position ≡ none_yet
    → w.resolved_len ≡ 0
    → w.ws_packet.payload ≡ []
    → All IsByte (b ∷ k0 ∷ k1 ∷ k2 ∷ k3 ∷ content)
    → 0 < length content
    → length content < 126
    → do_parse w (masked_frame b k0 k1 k2 k3 content)
      ≡ some (
          returned_0 (record {
            ws_packet = unmasked_packet w.ws_packet b (k0 ∷ k1 ∷ k2 ∷ k3 ∷ []) content;
            position = end;
            resolved_len = 6 + length content;
          }))
parse_masked w b k0 k1 k2 k3 content fresh zero_len none_payload h pos small =
    ap (λ t. do_parse w (b ∷ (128 + length content) ∷ k0 ∷ k1 ∷ k2 ∷ k3 ∷ t))
      (sym (decode-masked k0 k1 k2 k3 content))
    ∙ parse_decoded w b k0 k1 k2 k3 content fresh zero_len none_payload h.1 pos small
    ∙ ap
        (λ p. some (
          returned_0 (record {
            ws_packet = record p {
              mask = true;
              payload_len = length content;
              masking_key = k0 ∷ k1 ∷ k2 ∷ k3 ∷ [];
              payload = content;
            };
            position = end;
            resolved_len = 6 + length content;
          })))
        (set_first_byte_lem w.ws_packet b h.0)

-- The packet that a final text frame leaves, not masked.
abbrev pub text_packet : WebSocketPacket → Bytes → WebSocketPacket
text_packet p content = record p {
  first_byte = 0x81;
  fin = true;
  rsv_0 = false;
  rsv_1 = false;
  rsv_2 = false;
  op_code = 1;
  mask = false;
  payload_len = length content;
  payload = content;
}

parse_plain :
    (w : WebSocketParser) (b : ℕ) (content : Bytes)
    → w.position ≡ none_yet
    → w.resolved_len ≡ 0
    → w.ws_packet.payload ≡ []
    → 0 < length content
    → length content < 126
    → do_parse w (b ∷ length content ∷ content)
      ≡ some (
          returned_0 (record {
            ws_packet = record (set_first_byte b w.ws_packet) {
              mask = false;
              payload_len = length content;
              payload = content;
            };
            position = end;
            resolved_len = 2 + length content;
          }))
parse_plain w b content fresh zero_len none_payload pos small =
    let q = set_first_byte b w.ws_packet in
    let n = length content in
    let buf : Bytes = b ∷ n ∷ content in
    let (started, round1) = starts w b (n ∷ content) fresh zero_len in
    started
    ∙ loop_next 5 w (after_first_byte w.ws_packet b) buf round1 (unfold verdict in refl)
    ∙ loop_next 4 (after_first_byte w.ws_packet b) (after_payload_len q false n) buf
        (unfold round in
          (ap (λ s. resolve_payload_len (after_first_byte w.ws_packet b) (b ∷ s ∷ content))
              (omega arith)
            ∙ step_payload_len q b n false content small))
        (unfold verdict in refl)
    ∙ loop_stop 3 (after_payload_len q false n) _ buf true _
        (round-payload _ buf
          ∙ payload_end (record q { mask = false; payload_len = n }) buf content content 2
              (first_byte_payload w.ws_packet b ∙ none_payload) refl (omega arith)
              (decode_unmasked _ 0 content) refl pos)
        (verdict-end _)

-- What `Pack` writes for 1 to 125 bytes, a parser with no frame begun and an empty payload reads
-- back as one final text frame, not masked: FIN is set, the reserved bits are not, the op code is 1,
-- and the payload is what was packed.
pub parse-pack :
    (w : WebSocketParser) (content : Bytes)
    → w.position ≡ none_yet
    → w.resolved_len ≡ 0
    → w.ws_packet.payload ≡ []
    → 0 < length content
    → length content < 126
    → do_parse w (pack content [])
      ≡ some (
          returned_0 (record {
            ws_packet = text_packet w.ws_packet content;
            position = end;
            resolved_len = 2 + length content;
          }))
unfolding pack pack_length set_first_byte has_bit
parse-pack w content fresh zero_len none_payload pos small =
    rw (short small) (parse_plain w 0x81 content fresh zero_len none_payload pos small)
  where
    short : length content < 126 → ltb (length content) 126 ≡ true
    short h = ground arith
