-- ===== src/LongLink/WebSocketPacket.antt =====
-- longlink/websocketpacket.h and longlink/websocketpacket.cc: the frame that `Pack` writes, the
-- packet's fields and the frame parser. The buffer is the list of the bytes that it holds. `char`
-- is signed and the machine is little-endian, as on x86-64.
pub mod Bits
pub mod Steps
pub mod Parse
pub mod LongFrames
pub mod Faults
pub mod Fragments
pub mod Total
pub mod StatusCode
pub mod HandShake
use unixtar.Prelude.{
  ℕ, zero, suc, ◌+◌, ◌-◌, ◌*◌, ◌/◌, ◌%◌, ◌^◌, ◌≤◌, ◌<◌, Bool, true, false, not, ◌&&◌, ◌||◌, List,
  [], ◌∷◌, ◌++◌, Option, none, some, Bytes, length, get_or, take, drop, ltb, leb, ◌==◌,
  if◌then◌else◌, bit_and, bit_xor, sub_size,
}
use unixtar.Http.HeaderField.{HeaderField}

abbrev pub opcode_text : ℕ
opcode_text = 0b0001

abbrev pub opcode_connection_close : ℕ
opcode_connection_close = 0b1000

-- The bytes of an unsigned integer in memory, lowest first.
unfoldable pub memory_bytes : ℕ → ℕ → Bytes
memory_bytes zero n = []
memory_bytes (suc k) n = (n % 256) ∷ memory_bytes k (n / 256)

-- `Pack`: what is written behind the buffer's contents. The lengths are written as they stand in
-- memory.
unfoldable pub pack_length : ℕ → Bytes
unfolding memory_bytes
pack_length n =
    if ltb n 126
    then n ∷ []
    else if leb n 0xffff
    then 126 ∷ memory_bytes 2 n
    else 127 ∷ memory_bytes 8 n

unfoldable pub pack : Bytes → Bytes → Bytes
unfolding pack_length
pack content out = out ++ ((0x80 + opcode_text) ∷ (pack_length (length content) ++ content))

pub record WebSocketPacket : Type 0 where
  pub is_hand_shaken : Bool
  pub handshake_req : HeaderField
  pub handshake_resp : HeaderField
  pub first_byte : ℕ
  pub fin : Bool
  pub rsv_0 : Bool
  pub rsv_1 : Bool
  pub rsv_2 : Bool
  pub op_code : ℕ
  pub mask : Bool
  pub payload_len : ℕ
  pub extended_payload_len : ℕ
  pub masking_key : Bytes
  pub payload : Bytes

abbrev pub new_packet : WebSocketPacket
new_packet = record {
  is_hand_shaken = false;
  handshake_req = [];
  handshake_resp = [];
  first_byte = 0x81;
  fin = false;
  rsv_0 = false;
  rsv_1 = false;
  rsv_2 = false;
  op_code = 0;
  mask = false;
  payload_len = 0;
  extended_payload_len = 0;
  masking_key = 0 ∷ 0 ∷ 0 ∷ 0 ∷ [];
  payload = [];
}

-- A bit of a byte under a mask, as a condition.
unfoldable pub has_bit : ℕ → ℕ → Bool
has_bit b m = not (bit_and b m == 0)

unfoldable pub set_first_byte : ℕ → WebSocketPacket → WebSocketPacket
unfolding has_bit
set_first_byte first p = record p {
  first_byte = first;
  fin = has_bit first 0x80;
  rsv_0 = has_bit first 0x40;
  rsv_1 = has_bit first 0x20;
  rsv_2 = has_bit first 0x10;
  op_code = bit_and first 0x0f;
}

-- `WebSocketPacket::Reset`; it leaves the flags of the first byte and the handshake alone.
unfoldable pub reset_packet : WebSocketPacket → WebSocketPacket
reset_packet p = record p {
  first_byte = 0;
  mask = false;
  payload_len = 0;
  extended_payload_len = 0;
  masking_key = 0 ∷ 0 ∷ 0 ∷ 0 ∷ [];
  payload = [];
}

unfoldable pub alloc_new_packet : WebSocketPacket → WebSocketPacket
alloc_new_packet p = record new_packet { is_hand_shaken = true }

abbrev pub status_code_invalid : ℕ
status_code_invalid = 0

-- `StatusCode`: the first two payload bytes, the high one first.
unfoldable pub status_code : WebSocketPacket → ℕ
status_code p =
    if ltb (length p.payload) 2
    then status_code_invalid
    else bit_and (get_or p.payload 0 0 * 256) 0xff00 + bit_and (get_or p.payload 1 0) 0xff

pub data Position : Type 0 where
  none_yet first_byte payload_len extended_payload_len masking_key payload end error : Position

pub record WebSocketParser : Type 0 where
  pub ws_packet : WebSocketPacket
  pub position : Position
  pub resolved_len : ℕ

-- What a `_Resolve...` method does: it returns, or it evaluates a shift that C++ leaves undefined.
pub data Attempt : Type 0 where
  attempted : WebSocketParser → Bool → Attempt
  undefined : Attempt

-- What `DoParse` does.
pub data Outcome : Type 0 where
  returned_0 returned_minus_1 : WebSocketParser → Outcome
  undefined_behaviour : Outcome

-- The byte at an offset of the buffer.
abbrev pub byte_at : Bytes → ℕ → ℕ
byte_at buf i = get_or buf i 0

unfoldable pub resolve_first_byte : WebSocketParser → Bytes → Attempt
unfolding set_first_byte
resolve_first_byte w buf =
    attempted
      (record {
        ws_packet = set_first_byte (byte_at buf 0) w.ws_packet;
        resolved_len = w.resolved_len + 1;
        position = Position.payload_len;
      })
      true

-- `_ResolvePayloadLen` on the second byte of the buffer. Seven bits are at most 127, so the last
-- branch of the source is never taken.
unfoldable pub resolve_payload_len_of : ℕ → WebSocketParser → Attempt
unfolding has_bit
resolve_payload_len_of second w =
    let is_mask = has_bit second 0x80 in
    let len = bit_and second 0x7f in
    if len == 126 || len == 127
    then attempted
        (record {
          ws_packet = record w.ws_packet { mask = is_mask; payload_len = len };
          position = Position.extended_payload_len;
          resolved_len = w.resolved_len + 1;
        })
        true
    else if ltb len 126
    then attempted
        (record {
          ws_packet = record w.ws_packet { mask = is_mask; payload_len = len };
          position = if is_mask then Position.masking_key else Position.payload;
          resolved_len = w.resolved_len + 1;
        })
        true
    else attempted
        (record w { ws_packet = record w.ws_packet { mask = is_mask }; position = Position.error })
        false

unfoldable pub resolve_payload_len : WebSocketParser → Bytes → Attempt
unfolding resolve_payload_len_of sub_size
resolve_payload_len w buf =
    if ltb (sub_size (length buf) w.resolved_len) 1
    then attempted w false
    else resolve_payload_len_of (byte_at buf 1) w

-- `((a << 8) & 0xff00) + (b & 0xff)`
unfoldable pub two_bytes : ℕ → ℕ → ℕ
two_bytes a b = bit_and (a * 256) 0xff00 + bit_and b 0xff

abbrev pub after_length : WebSocketPacket → Position
after_length p = if p.mask then Position.masking_key else Position.payload

-- With a payload length of 127 the first round of the loop shifts an `int` by 56 bits, which C++
-- leaves undefined.
unfoldable pub resolve_extended_payload_len : WebSocketParser → Bytes → Attempt
unfolding two_bytes sub_size
resolve_extended_payload_len w buf =
    let unresolved_len = sub_size (length buf) w.resolved_len in
    if w.ws_packet.payload_len == 126
    then (if ltb unresolved_len 2
        then attempted w false
        else attempted
            (record {
              ws_packet = record w.ws_packet {
                extended_payload_len =
                    two_bytes (byte_at buf w.resolved_len) (byte_at buf (w.resolved_len + 1));
              };
              resolved_len = w.resolved_len + 2;
              position = after_length w.ws_packet;
            })
            true)
    else if w.ws_packet.payload_len == 127
    then (if ltb unresolved_len 8 then attempted w false else undefined)
    else attempted (record w { position = Position.error }) false

unfoldable pub resolve_masking_key : WebSocketParser → Bytes → Attempt
unfolding sub_size
resolve_masking_key w buf =
    if ltb (sub_size (length buf) w.resolved_len) 4
    then attempted w false
    else if w.ws_packet.mask
    then attempted
        (record {
          ws_packet = record w.ws_packet { masking_key = take 4 (drop w.resolved_len buf) };
          resolved_len = w.resolved_len + 4;
          position = Position.payload;
        })
        true
    else attempted w true

-- The loop of `_ResolvePayload` over the bytes behind the resolved ones, from index `i` on.
unfoldable pub decode : Bool → Bytes → ℕ → Bytes → Bytes
decode mask key i [] = []
decode mask key i (raw ∷ rest) =
    (if mask then bit_xor raw (get_or key (i % 4) 0) else raw) ∷ decode mask key (i + 1) rest

-- What `_ResolvePayload` does behind its loop.
unfoldable pub payload_added : WebSocketParser → Attempt
payload_added w =
    let p = w.ws_packet in
    if length p.payload == p.payload_len
    then attempted (record w { position = Position.end }) true
    else if ltb p.payload_len (length p.payload)
    then attempted (record w { position = Position.error }) false
    else attempted w false

-- The packet and the position in the buffer behind the loop.
unfoldable pub add_payload : ℕ → WebSocketParser → Bytes → WebSocketParser
unfolding decode
add_payload unresolved_len w buf =
    let p = w.ws_packet in
    record w {
      ws_packet = record p {
        payload =
            p.payload
            ++ decode p.mask p.masking_key 0 (take unresolved_len (drop w.resolved_len buf));
      };
      resolved_len = w.resolved_len + unresolved_len;
    }

unfoldable pub resolve_payload : WebSocketParser → Bytes → Attempt
unfolding payload_added add_payload sub_size
resolve_payload w buf =
    let unresolved_len = sub_size (length buf) w.resolved_len in
    if leb unresolved_len 0
    then attempted w false
    else payload_added (add_payload unresolved_len w buf)

unfoldable pub round : Position → WebSocketParser → Bytes → Attempt
round none_yet w buf =
    resolve_first_byte (record w { resolved_len = 0; position = Position.first_byte }) buf
round first_byte w buf = resolve_first_byte w buf
round payload_len w buf = resolve_payload_len w buf
round extended_payload_len w buf = resolve_extended_payload_len w buf
round masking_key w buf = resolve_masking_key w buf
round payload w buf = resolve_payload w buf
round end w buf = attempted w false
round error w buf = attempted w false

unfoldable pub verdict : Position → Bool → WebSocketParser → Option Outcome
verdict end success w = some (returned_0 w)
verdict error success w = some (returned_minus_1 w)
verdict _ true w = none
verdict _ false w = some (returned_0 w)

-- The `while (true)` of `DoParse`; `none` means that the fuel ran out.
unfoldable pub do_parse_loop : ℕ → WebSocketParser → Bytes → Option Outcome
unfolding round verdict
do_parse_loop zero w buf = none
do_parse_loop (suc fuel) w buf = elim (round w.position w buf) [
  | undefined ↦ some undefined_behaviour
  | attempted q success ↦ elim (verdict q.position success q) [
    | some o ↦ some o
    | none ↦ do_parse_loop fuel q buf
  ]
]

-- A successful round moves on, so six rounds are enough. `DoParse` asserts that the handshake is
-- done, which the caller sees to.
unfoldable pub do_parse : WebSocketParser → Bytes → Option Outcome
unfolding do_parse_loop sub_size
do_parse w buf =
    if leb (sub_size (length buf) w.resolved_len) 0
    then some (returned_0 w)
    else do_parse_loop 6 w buf

-- The constructor of `WebSocketParser` for a packet and the headers of the request.
unfoldable pub make_parser : WebSocketPacket → HeaderField → WebSocketParser
make_parser p req = record {
  ws_packet = record p { handshake_req = req };
  position = none_yet;
  resolved_len = 0;
}

-- A parser whose connection has shaken hands.
abbrev pub new_parser : WebSocketParser
new_parser = record {
  ws_packet = record new_packet { is_hand_shaken = true };
  position = none_yet;
  resolved_len = 0;
}

-- `WebSocketParser::Reset` on the parser, which also empties the buffer.
unfoldable pub reset_parser : WebSocketParser → WebSocketParser
reset_parser w = record w { position = none_yet; resolved_len = 0 }
