-- ===== src/Http/Packet.antt =====
-- http/httppacket.h and http/httppacket.cc: the parser that requests and responses share. The
-- buffer is the list of the bytes that it holds, and the packet's fields that the parser fills are
-- fields of the parser here. `L` is the type of the first line.
pub mod Total
use unixtar.Prelude.{
  ℕ, zero, suc, ◌+◌, ◌-◌, Bool, true, false, not, ◌&&◌, List, [], ◌∷◌, ◌++◌, Option, none, some,
  Bytes, codes, length, take, drop, ltb, leb, ◌==◌, if◌then◌else◌, sub_size,
}
use unixtar.Utils.StrUtil.{strnstr}
use unixtar.Http.HeaderField.{HeaderField, parse_header, content_length}

pub data Position : Type 0 where
  none_yet first_line headers body end error : Position

pub record HttpParser (L : Type 0) : Type 0 where
  pub position : Position
  pub line : L
  pub fields : HeaderField
  -- what `SetBody` made the packet's body point at
  pub body_ : Option Bytes
  pub first_line_len : ℕ
  pub header_len : ℕ
  pub resolved_len : ℕ
  pub is_upgrade_to_ws : Bool

-- What the first line's `ParseFromString` does: it returns, or an exception leaves it.
pub data LineResult (L : Type 0) : Type 0 where
  line_returned : L → Bool → LineResult L
  line_thrown : L → LineResult L

-- What a `_Resolve...` method does.
pub data Attempt (L : Type 0) : Type 0 where
  attempted : HttpParser L → Bool → Attempt L
  threw : HttpParser L → Attempt L

-- What `DoParse` does: it returns 0 or -1, or an exception leaves it.
pub data Outcome (L : Type 0) : Type 0 where
  returned_0 returned_minus_1 escaped : HttpParser L → Outcome L

abbrev pub state : {L : Type 0} → Outcome L → HttpParser L
state (returned_0 p) = p
state (returned_minus_1 p) = p
state (escaped p) = p

-- The virtual methods.
pub record Methods (L : Type 0) : Type 0 where
  pub resolve_first_line : HttpParser L → Bytes → Attempt L
  pub resolve_headers : HttpParser L → Bytes → Attempt L
  pub resolve_body : HttpParser L → Bytes → Attempt L

module _ {L : Type 0} where
  -- `_ResolveFirstLine`, which requests and responses each write out for their own first line.
  unfoldable pub resolve_first_line_with :
      (L → Bytes → LineResult L) → HttpParser L → Bytes → Attempt L
  resolve_first_line_with parse p buf = elim (strnstr buf (codes "\r\n") (length buf)) [
    | none ↦ attempted (record p { position = first_line; resolved_len = 0 }) false
    | some k ↦ elim (parse p.line (take k buf)) [
      | line_returned l true ↦
          attempted
            (record p {
              line = l;
              position = headers;
              resolved_len = k + 2;
              first_line_len = k + 2;
            })
            true
      | line_returned l false ↦ attempted (record p { line = l; position = error }) false
      | line_thrown l ↦ threw (record p { line = l })
    ]
  ]

  -- What `_ResolveHeaders` does with the result of `ParseFromString`, `k` bytes behind the ones
  -- that are resolved.
  unfoldable pub headers_parsed : ℕ → HttpParser L → HeaderField × Bool → Attempt L
  unfolding sub_size
  headers_parsed k p (parsed, true) =
      attempted
        (record p {
          fields = parsed;
          resolved_len = p.resolved_len + k + 4;
          header_len = sub_size (p.resolved_len + k + 4) p.first_line_len;
          position = body;
        })
        true
  headers_parsed k p (parsed, false) =
      attempted (record p { fields = parsed; position = error }) false

  -- `HttpParser::_ResolveHeaders`
  unfoldable pub resolve_headers_base : HttpParser L → Bytes → Attempt L
  unfolding headers_parsed sub_size
  resolve_headers_base p buf =
      let unread = drop p.resolved_len buf in
      elim (strnstr unread (codes "\r\n\r\n") (sub_size (length buf) p.resolved_len)) [
        | none ↦ attempted p false
        | some k ↦ headers_parsed k p (parse_header p.fields (take k unread))
      ]

  -- The branches of `HttpParser::_ResolveBody` on the two lengths.
  unfoldable pub resolve_body_of_length : ℕ → ℕ → HttpParser L → Bytes → Attempt L
  unfolding sub_size
  resolve_body_of_length declared present p buf =
      if ltb declared present
      then attempted (record p { position = error; resolved_len = length buf }) false
      else if declared == present
      then attempted
          (record p {
            position = end;
            resolved_len = length buf;
            body_ = some (take declared (drop (sub_size (length buf) declared) buf));
          })
          true
      else attempted (record p { resolved_len = length buf }) false

  -- `HttpParser::_ResolveBody`
  unfoldable pub resolve_body_base : HttpParser L → Bytes → Attempt L
  unfolding resolve_body_of_length content_length
  resolve_body_base p buf =
      if content_length p.fields == 0
      then attempted (record p { position = error }) false
      else resolve_body_of_length (content_length p.fields)
          (sub_size (sub_size (length buf) p.first_line_len) p.header_len) p buf

  -- The branch of the loop's body for a position; in `kNone` only an untouched parser starts.
  unfoldable pub round : Methods L → Position → HttpParser L → Bytes → Attempt L
  round m none_yet p buf =
      if p.resolved_len == 0 && ltb 0 (length buf)
      then m.resolve_first_line (record p { position = first_line }) buf
      else attempted p false
  round m first_line p buf = m.resolve_first_line p buf
  round m headers p buf = m.resolve_headers p buf
  round m body p buf = m.resolve_body p buf
  round m end p buf = attempted p false
  round m error p buf = attempted p false

  -- What the loop does behind a round; `none` is to go on.
  unfoldable pub verdict : Position → Bool → HttpParser L → Option (Outcome L)
  verdict end success p = some (returned_0 p)
  verdict error success p = some (returned_minus_1 p)
  verdict _ true p = none
  verdict _ false p = some (returned_minus_1 p)

  -- The `while (true)` of `DoParse`; `none` means that the fuel ran out.
  unfoldable pub do_parse_loop : ℕ → Methods L → HttpParser L → Bytes → Option (Outcome L)
  unfolding round verdict
  do_parse_loop zero m p buf = none
  do_parse_loop (suc fuel) m p buf = elim (round m p.position p buf) [
    | threw q ↦ some (escaped q)
    | attempted q success ↦ elim (verdict q.position success q) [
      | some o ↦ some o
      | none ↦ do_parse_loop fuel m q buf
    ]
  ]

  -- A successful round moves to the next of the positions, so four rounds are enough.
  unfoldable pub do_parse : Methods L → HttpParser L → Bytes → Option (Outcome L)
  unfolding do_parse_loop
  do_parse m p buf =
      if length buf == 0
      then some (returned_0 p)
      else if sub_size (length buf) p.resolved_len == 0
      then some (returned_0 p)
      else do_parse_loop 4 m p buf

-- `HttpPacket::ContentLength`
unfoldable pub packet_content_length : HeaderField → ℕ
unfolding content_length
packet_content_length fields = if leb (content_length fields) 0 then 0 else content_length fields
