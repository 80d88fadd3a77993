-- ===== src/Http/Total.antt =====
-- The request parser and the response parser end on every buffer.
use unixtar.Prelude.{ℕ, true, false, some, Bytes, arith, ◌≡◌}
use unixtar.Http.FirstLine.{HttpMethod, get, RequestLine, StatusLine}
use unixtar.Http.Packet.{HttpParser, Attempt, attempted, threw, Outcome, resolve_headers_base}
use unixtar.Http.Packet.Total.{
  Lowers, IsForward, Ends, first_line_with-Lowers, headers_base-Lowers, body_base-Lowers,
  do_parse_forward,
}
use unixtar.Http.Request.{
  Parser, parse_line, mark_upgrade, resolve_headers, resolve_body_for, methods, parse_request,
}
use unixtar.Http.Response.{response_line, response_methods, parse_response}

mark_upgrade-Lowers : (n : ℕ) (a : Attempt RequestLine) → Lowers n a → Lowers n (mark_upgrade a)
unfolding mark_upgrade
mark_upgrade-Lowers n (attempted q true) h = h
mark_upgrade-Lowers n (attempted q false) h = h
mark_upgrade-Lowers n (threw q) h = h

body_for-Lowers : (m : HttpMethod) (p : Parser) (buf : Bytes) → Lowers 2 (resolve_body_for m p buf)
unfolding resolve_body_for
body_for-Lowers get p buf = ground arith
body_for-Lowers _ p buf = body_base-Lowers p buf

methods-IsForward : IsForward methods
unfolding methods resolve_headers
methods-IsForward = record {
  first_line_forward = first_line_with-Lowers parse_line;
  headers_forward =
      λ p buf. mark_upgrade-Lowers 3 (resolve_headers_base p buf) (headers_base-Lowers p buf);
  body_forward = λ p buf. body_for-Lowers p.line.method p buf;
}

response_methods-IsForward : IsForward response_methods
unfolding response_methods
response_methods-IsForward = record {
  first_line_forward = first_line_with-Lowers response_line;
  headers_forward = headers_base-Lowers;
  body_forward = body_base-Lowers;
}

-- `DoParse` of the request parser ends on every parser and buffer, in no more than four rounds: it
-- returns 0 with the parser as it was when the buffer has nothing unread, and on unread bytes it
-- returns 0 with the position at the end of the message, or -1 with the position elsewhere, or an
-- exception leaves it.
pub parse_request_total :
    (p : Parser) (buf : Bytes)
    → (o : Outcome RequestLine) × (parse_request p buf ≡ some o) × Ends p buf o
unfolding parse_request
parse_request_total p buf = do_parse_forward methods p buf methods-IsForward

-- `DoParse` of the response parser ends on every parser and buffer, in no more than four rounds: it
-- returns 0 with the parser as it was when the buffer has nothing unread, and on unread bytes it
-- returns 0 with the position at the end of the message, or -1 with the position elsewhere, or an
-- exception leaves it.
parse_response_total :
    (p : HttpParser StatusLine) (buf : Bytes)
    → (o : Outcome StatusLine) × (parse_response p buf ≡ some o) × Ends p buf o
unfolding parse_response
parse_response_total p buf = do_parse_forward response_methods p buf response_methods-IsForward
