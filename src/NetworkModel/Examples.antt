-- ===== src/NetworkModel/Examples.antt =====
-- Runs of a connection at concrete inputs, and its theorems there.
use unixtar.Prelude.{
  ℕ, Bool, true, false, [], ◌∷◌, ◌++◌, Option, none, some, Bytes, codes, length, ◌+◌, ◌⊎◌, ◌≡◌,
  refl, leb,
}
use unixtar.NetworkModel.TcpConnection.{
  read_bytes, read_fin, written, ApplicationProtocolParser, SendContext, accept_from,
  ConnectionProfile, socket_receive, receive, parse_protocol, is_parse_done,
  try_send_pending_packets, send_pending, socket_send, send_context_send_done_callback,
}
use unixtar.NetworkModel.TcpConnection.Stream.{all_unsent, try_send_pending_packets-all_unsent}

-- A parser that counts the bytes and wants ten of them.
abbrev counter : ApplicationProtocolParser ℕ
counter = record { do_parse = λ p buf. length buf; is_err = λ p. false; is_end = λ p. leb 10 p }

abbrev packet : ℕ → Bytes → SendContext
packet n bytes = record { seq = n; buffer = bytes; pos = 0 }

abbrev connection : Bool → Bytes → Option ℕ → ConnectionProfile ℕ
connection again bytes parser = record {
  is_eagain = again;
  connection_type = accept_from;
  is_longlink_app_proto = false;
  has_received_fin = false;
  timeout_ts = 10000;
  tcp_byte_arr = bytes;
  application_protocol_parser = parser;
  send_ctx_seq = 2;
  send_contexts = 1 ∷ 2 ∷ [];
  pending_send_ctx = packet 1 (codes "HTTP") ∷ packet 2 (codes "/1.1") ∷ [];
}

parsed_test :
    receive counter (read_bytes (codes "GET /") ∷ read_fin ∷ []) (connection false [] (some 0))
    ≡ some (true, connection false (codes "GET /") (some 5), read_fin ∷ [])
unfolding receive socket_receive parse_protocol is_parse_done
parsed_test = refl

sent_test :
    (try_send_pending_packets ((written 9, 5) ∷ (written 1, 6) ∷ []) (connection false [] none)).0
    ≡ codes "HTTP/"
unfolding try_send_pending_packets send_pending socket_send send_context_send_done_callback
sent_test = refl

try_send_pending_packets-all_unsent_example :
    ((try_send_pending_packets ((written 9, 5) ∷ (written 1, 6) ∷ []) (connection false [] none)).0
        ++ all_unsent (
            (try_send_pending_packets
              ((written 9, 5) ∷ (written 1, 6) ∷ [])
              (connection false [] none)).1.pending_send_ctx)
      ≡ codes "HTTP/1.1")
    × (((try_send_pending_packets
            ((written 9, 5) ∷ (written 1, 6) ∷ [])
            (connection false [] none)).2
          ≡ false)
        ⊎ ((try_send_pending_packets
              ((written 9, 5) ∷ (written 1, 6) ∷ [])
              (connection false [] none)).1.pending_send_ctx
            ≡ []))
try_send_pending_packets-all_unsent_example =
    try_send_pending_packets-all_unsent ((written 9, 5) ∷ (written 1, 6) ∷ [])
      (connection false [] none)

-- A vector that grows beyond the size that it is asked for.
abbrev doubled : ℕ → ℕ → ℕ
doubled capacity size = capacity + size
