-- ===== src/NetworkModel/TcpConnection.antt =====
-- networkmodel/tcpconnection.h and networkmodel/tcpconnection.cc, with `Receive` and `Send` of
-- socket/unixsocket.cc: what a connection does with the results of the system calls `read` and
-- `write`, which are parameters. The protocol parser is known by its interface alone.
pub mod Stream
pub mod Stale
use unixtar.Prelude.{
  ℕ, zero, suc, ◌+◌, ◌-◌, ◌*◌, ◌%◌, ◌^◌, Bool, true, false, not, ◌&&◌, ◌||◌, List, [], ◌∷◌, ◌++◌,
  Option, none, some, Bytes, length, take, drop, ltb, leb, ◌==◌, if◌then◌else◌, min,
}

abbrev pub buffer_size : ℕ
buffer_size = 4096

-- What `read` comes to; bytes that it reads are at least one and at most `buffer_size`.
pub data Read : Type 0 where
  read_bytes : Bytes → Read
  read_fin read_again read_failed : Read

-- What `write` comes to; it writes at most what it is given.
pub data Write : Type 0 where
  written : ℕ → Write
  write_again write_failed : Write

-- `ApplicationProtocolParser`; `do_parse` is given the bytes of the buffer.
pub record ApplicationProtocolParser (P : Type 0) : Type 0 where
  pub do_parse : P → Bytes → P
  pub is_err : P → Bool
  pub is_end : P → Bool

-- `SendContext`, with the bytes of its buffer and the buffer's position.
pub record SendContext : Type 0 where
  pub seq : ℕ
  pub buffer : Bytes
  pub pos : ℕ

pub data TConnectionType : Type 0 where
  accept_from connect_to : TConnectionType

-- What the operations here use of a `ConnectionProfile`; the socket's `is_eagain_` comes first. The contexts of `send_contexts_` are known
-- by their `seq`, as some of them are those of `pending_send_ctx_` too.
pub record ConnectionProfile (P : Type 0) : Type 0 where
  pub is_eagain : Bool
  pub connection_type : TConnectionType
  pub is_longlink_app_proto : Bool
  pub has_received_fin : Bool
  pub timeout_ts : ℕ
  pub tcp_byte_arr : Bytes
  pub application_protocol_parser : Option P
  pub send_ctx_seq : ℕ
  pub send_contexts : List ℕ
  pub pending_send_ctx : List SendContext

abbrev pub default_timeout : ℕ
default_timeout = 10000

-- `Socket::Receive` on the buffer and the flag; and whether the buffer is full.
unfoldable pub socket_receive :
    {P : Type 0} → Read → ConnectionProfile P → ConnectionProfile P × Bool
socket_receive (read_bytes bytes) c =
    (record c { tcp_byte_arr = c.tcp_byte_arr ++ bytes }, length bytes == buffer_size)
socket_receive read_fin c = (c, false)
socket_receive read_again c = (record c { is_eagain = true }, false)
socket_receive read_failed c = (record c { is_eagain = false }, false)

-- `Socket::Send` of an open socket on a buffer: what goes out, the buffer's new position, and whether it is done. The
-- position is at most the length.
unfoldable pub socket_send : Write → SendContext → Bytes × SendContext × Bool
socket_send w ctx =
    let rest = drop ctx.pos ctx.buffer in
    if length rest == 0 then ([], ctx, false) else elim w [
      | written n ↦
          if leb (length rest) n
          then (rest, record ctx { pos = length ctx.buffer }, true)
          else (take n rest, record ctx { pos = ctx.pos + n }, false)
      | write_again ↦ ([], ctx, false)
      | write_failed ↦ ([], ctx, false)
    ]

-- `DelSendContext`
unfoldable pub del_send_context : ℕ → List ℕ → List ℕ
del_send_context seq [] = []
del_send_context seq (s ∷ rest) =
    if s == seq then del_send_context seq rest else s ∷ del_send_context seq rest

module _ {P : Type 0} where
  module _ (ops : ApplicationProtocolParser P) where
    -- `ParseProtocol`, which runs the parser that there is; and the parser's `IsErr`, or none without
    -- a parser.
    unfoldable pub parse_protocol : ConnectionProfile P → ConnectionProfile P × Option Bool
    parse_protocol c = elim c.application_protocol_parser [
      | none ↦ (c, none)
      | some parser ↦
          let parser' = ops.do_parse parser c.tcp_byte_arr in
          (record c { application_protocol_parser = some parser' }, some (ops.is_err parser'))
    ]

    -- `IsParseDone`; it is called with a parser.
    unfoldable pub is_parse_done : ConnectionProfile P → Bool
    is_parse_done c = elim c.application_protocol_parser [
      | none ↦ false
      | some parser ↦ ops.is_end parser
    ]

    -- `Receive`: whether it returns 0, the connection, and the results of `read` that are left; `none`
    -- if there are no more results.
    unfoldable pub receive :
        List Read → ConnectionProfile P → Option (Bool × ConnectionProfile P × List Read)
    receive [] c = none
    receive (r ∷ reads) c =
        let (c', has_more_data) = socket_receive r c in
        let (c'', err) = parse_protocol c' in
        let rest = receive reads c'' in
        if c'.is_eagain then some (true, c', reads) else elim r [
          | read_again ↦ some (false, c', reads)
          | read_failed ↦ some (false, c', reads)
          | read_fin ↦ some (true, record c' { has_received_fin = true }, reads)
          | read_bytes bytes ↦ elim err [
            | none ↦ some (false, c'', reads)
            | some true ↦ some (false, c'', reads)
            | some false ↦
                if is_parse_done c'' || not has_more_data then some (true, c'', reads) else rest
          ]
        ]

  -- `SendContextSendDoneCallback`, at the time of the clock, which is a uint64_t.
  unfoldable pub send_context_send_done_callback :
      ℕ → SendContext → ConnectionProfile P → ConnectionProfile P
  send_context_send_done_callback now ctx c = record c {
    timeout_ts = if c.is_longlink_app_proto then c.timeout_ts else elim c.connection_type [
      | accept_from ↦ (now + default_timeout) % 2 ^ 64
      | connect_to ↦ (now + default_timeout + default_timeout) % 2 ^ 64
    ];
    send_contexts = del_send_context ctx.seq c.send_contexts;
  }

  -- The loop of `TrySendPendingPackets` over the queue: the bytes that go out, the connection, and
  -- whether all is sent. Each attempt has the result of its `write` and the time behind it; without
  -- a result the socket would block.
  unfoldable pub send_pending :
      List (Write × ℕ) → List SendContext → ConnectionProfile P → Bytes × ConnectionProfile P × Bool
  send_pending writes [] c = ([], record c { pending_send_ctx = [] }, true)
  send_pending [] (ctx ∷ rest) c = ([], record c { pending_send_ctx = ctx ∷ rest }, false)
  send_pending ((w, now) ∷ writes) (ctx ∷ rest) c =
      let (out, ctx', is_send_done) = socket_send w ctx in
      let (more, c', all_done) =
        send_pending writes rest (send_context_send_done_callback now ctx' c) in
      if is_send_done
      then (out ++ more, c', all_done)
      else (out, record c { pending_send_ctx = ctx' ∷ rest }, false)

  -- `TrySendPendingPackets`
  unfoldable pub try_send_pending_packets :
      List (Write × ℕ) → ConnectionProfile P → Bytes × ConnectionProfile P × Bool
  try_send_pending_packets writes c = send_pending writes c.pending_send_ctx c

  -- `AddPendingPacketToSend`
  unfoldable pub add_pending_packet_to_send :
      SendContext → ConnectionProfile P → ConnectionProfile P
  add_pending_packet_to_send ctx c = record c { pending_send_ctx = c.pending_send_ctx ++ ctx ∷ [] }

  -- `MakeSendContext`; the number is a uint32_t.
  unfoldable pub make_send_context : ConnectionProfile P → SendContext × ConnectionProfile P
  make_send_context c =
      let next = suc c.send_ctx_seq % 2 ^ 32 in
      (
        record { seq = next; buffer = []; pos = 0 },
        record c { send_ctx_seq = next; send_contexts = c.send_contexts ++ next ∷ [] },
      )

  -- `IsTimeout` at a time that is not 0.
  unfoldable pub is_timeout : ℕ → ConnectionProfile P → Bool
  is_timeout now c =
      if c.is_longlink_app_proto
      then false
      else elim c.pending_send_ctx [ [] ↦ ltb c.timeout_ts now | ctx ∷ rest ↦ false ]
