-- ===== src/LongLink/Examples.antt =====
-- Runs of the WebSocket parser at concrete frames, and its theorems there.
use unixtar.Prelude.{
  zero, suc, ◌+◌, ◌*◌, ◌/◌, ◌%◌, true, [], ◌∷◌, ◌++◌, some, Bytes, codes, length, replicate, arith,
  ◌≡◌, ◌≢◌, refl,
}
use unixtar.LongLink.WebSocketPacket.{
  WebSocketPacket, new_packet, WebSocketParser, Position, end, error, attempted, Outcome,
  returned_0, returned_minus_1, undefined_behaviour, pack, after_length,
  resolve_extended_payload_len, do_parse, new_parser,
}
use unixtar.LongLink.WebSocketPacket.Bits.{IsKey}
use unixtar.LongLink.WebSocketPacket.Steps.{second_byte}
use unixtar.LongLink.WebSocketPacket.Parse.{
  masked_frame, unmasked_packet, text_packet, parse_masked, parse-pack,
}
use unixtar.LongLink.WebSocketPacket.LongFrames.{keyed}
use unixtar.LongLink.WebSocketPacket.Faults.{
  empty_frame, stalled, extended_length_swapped, parse_eight_bytes, parse_two_bytes, parse_empty,
}
use unixtar.LongLink.WebSocketPacket.Fragments.{
  IsSplit, part_state, parse_pieces, parse_pieces_differ,
}
use unixtar.LongLink.WebSocketPacket.Total.{LeavesSound, do_parse_total}

parse_masked_example :
    do_parse new_parser (masked_frame 0x81 1 2 3 4 (codes "Hi"))
    ≡ some (
        returned_0 (record {
          ws_packet = unmasked_packet new_parser.ws_packet 0x81 (1 ∷ 2 ∷ 3 ∷ 4 ∷ []) (codes "Hi");
          position = end;
          resolved_len = 6 + length (codes "Hi");
        }))
parse_masked_example =
    parse_masked new_parser 0x81 1 2 3 4 (codes "Hi") refl refl refl (omega arith) (omega arith)
      (omega arith)

parse-pack_example :
    do_parse new_parser (pack (codes "Hi") [])
    ≡ some (
        returned_0 (record {
          ws_packet = text_packet new_parser.ws_packet (codes "Hi");
          position = end;
          resolved_len = 2 + length (codes "Hi");
        }))
parse-pack_example = parse-pack new_parser (codes "Hi") refl refl refl (omega arith) (omega arith)

abbrev many : Bytes
many = replicate 200 b'a'

abbrev announced : WebSocketPacket
announced = record new_packet { is_hand_shaken = true; payload_len = 126 }

extended_length_swapped_example :
    resolve_extended_payload_len
      (record { ws_packet = announced; position = Position.extended_payload_len; resolved_len = 2 })
      (pack many [])
    ≡ attempted
        (record {
          ws_packet = record announced {
            extended_payload_len = length many % 256 * 256 + length many / 256;
          };
          position = after_length announced;
          resolved_len = 4;
        })
        true
extended_length_swapped_example =
    extended_length_swapped announced many refl (omega arith) (omega arith)

parse_eight_bytes_example :
    do_parse new_parser (0x81 ∷ second_byte true 127 ∷ replicate 8 0) ≡ some undefined_behaviour
parse_eight_bytes_example =
    parse_eight_bytes new_parser 0x81 true (replicate 8 0) refl refl (omega arith)

parse_two_bytes_example :
    (q : WebSocketParser) × (do_parse new_parser (0x81 ∷ 254 ∷ 0 ∷ 200 ∷ keyed true 1 2 3 4 many)
      ≡ some (returned_minus_1 q))
    × (q.position ≡ error)
    × (q.ws_packet.extended_payload_len ≡ length many)
parse_two_bytes_example =
    parse_two_bytes new_parser 0x81 0 200 1 2 3 4 true many refl refl refl (omega arith)
      (omega arith) refl (omega arith)

parse_empty_example :
    (do_parse new_parser (empty_frame 0x81 1 2 3 4)
      ≡ some (returned_0 (stalled new_parser.ws_packet 0x81 (1 ∷ 2 ∷ 3 ∷ 4 ∷ []))))
    × ((q : WebSocketParser) × (do_parse
            (stalled new_parser.ws_packet 0x81 (1 ∷ 2 ∷ 3 ∷ 4 ∷ []))
            (empty_frame 0x81 1 2 3 4 ++ 0x81 ∷ [])
          ≡ some (returned_minus_1 q))
        × (q.position ≡ error))
parse_empty_example = parse_empty new_parser 0x81 1 2 3 4 0x81 [] refl refl

-- A masked frame of eight bytes whose header is read.
abbrev header : Bytes
header = 0x81 ∷ second_byte true 8 ∷ 1 ∷ 2 ∷ 3 ∷ 4 ∷ []

abbrev reading : WebSocketParser
reading = record {
  ws_packet = record new_packet {
    is_hand_shaken = true;
    mask = true;
    payload_len = 8;
    masking_key = 1 ∷ 2 ∷ 3 ∷ 4 ∷ [];
  };
  position = Position.payload;
  resolved_len = 6;
}

abbrev four : Bytes
four = codes "abcd"

abbrev three : Bytes
three = codes "abc"

sample_masking_fits : IsKey (1 ∷ 2 ∷ 3 ∷ 4 ∷ [])
sample_masking_fits zero = omega arith
sample_masking_fits (suc zero) = omega arith
sample_masking_fits (suc (suc zero)) = omega arith
sample_masking_fits (suc (suc (suc zero))) = omega arith
sample_masking_fits (suc (suc (suc (suc i)))) = omega arith

four-IsSplit : IsSplit reading header four four
four-IsSplit = record {
  waits = refl;
  resolved = refl;
  first_some = omega arith;
  second_some = omega arith;
  total = refl;
}

three-IsSplit : IsSplit reading header three (b'd' ∷ four)
three-IsSplit = record {
  waits = refl;
  resolved = refl;
  first_some = omega arith;
  second_some = omega arith;
  total = refl;
}

parse_pieces_example :
    (do_parse reading (header ++ four) ≡ some (returned_0 (part_state reading header four)))
    × (do_parse (part_state reading header four) ((header ++ four) ++ four)
        ≡ do_parse reading ((header ++ four) ++ four))
parse_pieces_example = parse_pieces reading header four four four-IsSplit refl

parse_pieces_differ_example :
    (do_parse reading (header ++ three) ≡ some (returned_0 (part_state reading header three)))
    × (do_parse (part_state reading header three) ((header ++ three) ++ b'd' ∷ four)
        ≢ do_parse reading ((header ++ three) ++ b'd' ∷ four))
parse_pieces_differ_example =
    parse_pieces_differ reading header three four b'd' three-IsSplit refl (omega arith)
      sample_masking_fits (omega arith)

do_parse_total_example :
    (o : Outcome) × (do_parse new_parser (codes "GET /") ≡ some o) × LeavesSound o
do_parse_total_example = do_parse_total new_parser (codes "GET /") (λ e. absurd (cc))
