-- ===== src/LongLink/WebSocketPacket/Faults.antt =====
-- Frames that the parser cannot take: lengths of two and of eight bytes, and empty payloads.
use unixtar.Prelude.{
  ℕ, ◌+◌, ◌*◌, ◌/◌, ◌%◌, ◌<◌, ◌≤◌, Bool, true, false, [], ◌∷◌, ◌++◌, some, Bytes, IsByte, length,
  length-append, drop, leb, arith, ◌≡◌, refl, ◌∙◌, sub_size, sub_size_le,
}
use unixtar.LongLink.WebSocketPacket.{
  WebSocketPacket, WebSocketParser, Position, none_yet, error, attempted, returned_0,
  returned_minus_1, undefined_behaviour, set_first_byte, resolve_extended_payload_len,
  resolve_payload, decode, round, verdict, do_parse_loop, do_parse, pack, pack_length, memory_bytes,
  after_length,
}
use unixtar.LongLink.WebSocketPacket.Bits.{two_bytes-eq, length-decode}
use unixtar.LongLink.WebSocketPacket.Steps.{
  loop_next, loop_stop, after_first_byte, with_payload, step_payload, starts, second_byte,
  after_payload_len, step_payload_len, step_masking_key, after_masking_key,
}
use unixtar.LongLink.WebSocketPacket.LongFrames.{
  long_header, at_extended, step_long_len, step_extended, step_extended_eight, loop_undefined,
  payload_added-error, keyed, behind_length, first_byte_none, long_next,
}

-- `Pack` writes a length of 126 to 65535 low byte first, and the parser, waiting for the length of
-- such a frame, reads it high byte first: it takes the two bytes in the wrong order.
pub extended_length_swapped :
    (p : WebSocketPacket) (content : Bytes)
    → p.payload_len ≡ 126
    → 126 ≤ length content
    → length content ≤ 0xffff
    → resolve_extended_payload_len
        (record { ws_packet = p; position = Position.extended_payload_len; resolved_len = 2 })
        (pack content [])
      ≡ attempted
          (record {
            ws_packet = record p {
              extended_payload_len = length content % 256 * 256 + length content / 256;
            };
            position = after_length p;
            resolved_len = 4;
          })
          true
unfolding resolve_extended_payload_len pack pack_length memory_bytes sub_size
extended_length_swapped p content e lo hi = ground (
  arith,
  two_bytes-eq (length content % 256) (length content / 256 % 256) (omega arith) (omega arith),
)

-- A frame that announces an eight-byte length runs a parser with no frame begun into an
-- undefined shift as soon as eight bytes stand behind the first two, masked or not.
pub parse_eight_bytes :
    (w : WebSocketParser) (b : ℕ) (mask : Bool) (rest : Bytes)
    → w.position ≡ none_yet
    → w.resolved_len ≡ 0
    → 8 ≤ length rest
    → do_parse w (b ∷ second_byte mask 127 ∷ rest) ≡ some undefined_behaviour
parse_eight_bytes w b mask rest fresh zero_len long =
    let q = set_first_byte b w.ws_packet in
    let buf : Bytes = b ∷ second_byte mask 127 ∷ rest in
    let (started, round1) = starts w b (second_byte mask 127 ∷ rest) fresh zero_len in
    started
    ∙ loop_next 5 w (after_first_byte w.ws_packet b) buf round1 (unfold verdict in refl)
    ∙ loop_next 4 (after_first_byte w.ws_packet b) (at_extended q mask 127) buf
        (unfold round in step_long_len q b 127 mask rest (omega arith) (omega arith))
        (unfold verdict in refl)
    ∙ loop_undefined 3 (at_extended q mask 127) buf
        (unfold round in step_extended_eight q b (second_byte mask 127) mask rest long)

-- A frame of more than 126 bytes whose length stands correctly in two bytes, masked or not, ends
-- in the error state of a parser with no frame begun and an empty payload: the payload is measured
-- against the seven-bit length, which is 126, though the length itself is read.
pub parse_two_bytes :
    (w : WebSocketParser) (b hi lo k0 k1 k2 k3 : ℕ) (mask : Bool) (raw : Bytes)
    → w.position ≡ none_yet
    → w.resolved_len ≡ 0
    → w.ws_packet.payload ≡ []
    → IsByte hi
    → IsByte lo
    → hi * 256 + lo ≡ length raw
    → 126 < length raw
    → (q : WebSocketParser) × (do_parse w
          (b ∷ second_byte mask 126 ∷ hi ∷ lo ∷ keyed mask k0 k1 k2 k3 raw)
        ≡ some (returned_minus_1 q))
      × (q.position ≡ error)
      × (q.ws_packet.extended_payload_len ≡ length raw)
parse_two_bytes w b hi lo k0 k1 k2 k3 mask raw fresh zero_len none_payload hh hl len long =
    let p = set_first_byte b w.ws_packet in
    let s = second_byte mask 126 in
    let rest : Bytes = hi ∷ lo ∷ keyed mask k0 k1 k2 k3 raw in
    let buf : Bytes = b ∷ s ∷ rest in
    let (started, round1) = starts w b (s ∷ rest) fresh zero_len in
    let (q, run, at, read) =
      behind_length p b s hi lo k0 k1 k2 k3 (hi * 256 + lo) mask raw
        (first_byte_none w.ws_packet b none_payload) long in
    (
      q,
      started
          ∙ loop_next 5 w (after_first_byte w.ws_packet b) buf round1 (unfold verdict in refl)
          ∙ loop_next 4 (after_first_byte w.ws_packet b) (at_extended p mask 126) buf
              (unfold round in step_long_len p b 126 mask rest (omega arith) (omega arith))
              (unfold verdict in refl)
          ∙ loop_next 3 (at_extended p mask 126) (long_header p mask (hi * 256 + lo)) buf
              (unfold round in step_extended p b s hi lo mask (keyed mask k0 k1 k2 k3 raw) hh hl)
              (long_next p mask (hi * 256 + lo))
          ∙ run,
      at,
      read ∙ len,
    )

resumed :
    (w : WebSocketParser) (buf : Bytes)
    → leb (sub_size (length buf) w.resolved_len) 0 ≡ false
    → do_parse w buf ≡ do_parse_loop 6 w buf
unfolding do_parse
resumed w buf h = rw h refl

payload_none :
    (w : WebSocketParser) (buf : Bytes)
    → length buf ≡ w.resolved_len
    → resolve_payload w buf ≡ attempted w false
unfolding resolve_payload
payload_none w buf h = rw (sub_size_le (length buf) w.resolved_len (omega arith)) (ground arith)

-- The bytes of a masked frame with no payload.
abbrev pub empty_frame : ℕ → ℕ → ℕ → ℕ → ℕ → Bytes
empty_frame b k0 k1 k2 k3 = b ∷ 128 ∷ k0 ∷ k1 ∷ k2 ∷ k3 ∷ []

-- The state that an empty frame leaves.
abbrev pub stalled : WebSocketPacket → ℕ → Bytes → WebSocketParser
stalled p b key = after_masking_key (set_first_byte b p) 0 key

-- A masked frame with an empty payload is never complete for a parser with no frame begun: the
-- parser takes all of it, returns 0 and goes on waiting for a payload; whatever byte comes next
-- ends in the error state.
pub parse_empty :
    (w : WebSocketParser) (b k0 k1 k2 k3 x : ℕ) (rest : Bytes)
    → w.position ≡ none_yet
    → w.resolved_len ≡ 0
    → (do_parse w (empty_frame b k0 k1 k2 k3)
        ≡ some (returned_0 (stalled w.ws_packet b (k0 ∷ k1 ∷ k2 ∷ k3 ∷ []))))
      × ((q : WebSocketParser) × (do_parse
              (stalled w.ws_packet b (k0 ∷ k1 ∷ k2 ∷ k3 ∷ []))
              (empty_frame b k0 k1 k2 k3 ++ x ∷ rest)
            ≡ some (returned_minus_1 q))
          × (q.position ≡ error))
parse_empty w b k0 k1 k2 k3 x rest fresh zero_len =
    let p = set_first_byte b w.ws_packet in
    let key : Bytes = k0 ∷ k1 ∷ k2 ∷ k3 ∷ [] in
    let q = after_masking_key p 0 key in
    let buf : Bytes = empty_frame b k0 k1 k2 k3 in
    let more : Bytes = buf ++ x ∷ rest in
    let z = with_payload q (x ∷ rest) (length more) in
    let (started, round1) = starts w b (drop 1 buf) fresh zero_len in
    (
      started
          ∙ loop_next 5 w (after_first_byte w.ws_packet b) buf round1 (unfold verdict in refl)
          ∙ loop_next 4 (after_first_byte w.ws_packet b) (after_payload_len p true 0) buf
              (unfold round in step_payload_len p b 0 true (drop 2 buf) (omega arith))
              (unfold verdict in refl)
          ∙ loop_next 3 (after_payload_len p true 0) q buf
              (unfold round in step_masking_key p b 128 k0 k1 k2 k3 0 []) (unfold verdict in refl)
          ∙ loop_stop 2 q q buf false (returned_0 q) (unfold round in payload_none q buf refl)
              (unfold verdict in refl),
      (
        record z { position = error },
        resumed q more (unfold sub_size in ground arith)
            ∙ loop_stop 5 q (record z { position = error }) more false
                (returned_minus_1 (record z { position = error }))
                (unfold round in
                  (step_payload q more (x ∷ rest) refl (omega arith) (omega arith)
                    ∙ payload_added-error z (
                        omega (
                          arith,
                          length-append p.payload (decode true key 0 (x ∷ rest)),
                          length-decode true key 0 (x ∷ rest),
                        ))))
                (unfold verdict in refl),
        refl,
      ),
    )
