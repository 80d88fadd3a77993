-- ===== src/Http/Request.antt =====
-- http/httprequest.h and http/httprequest.cc: packing a request, and the request parser.
pub mod Steps
pub mod RoundTrip
pub mod PackParse
use unixtar.Prelude.{
  ℕ, zero, suc, ◌+◌, Bool, true, false, List, [], ◌∷◌, ◌++◌, Option, none, some, Bytes, codes,
  length, ltb, ◌==◌, if◌then◌else◌, sub_size,
}
use unixtar.Utils.Decimal.{snprintf_len}
use unixtar.Http.FirstLine.{
  HttpMethod, unknown_method, get, post, delete, http_1_1, RequestLine, new_request_line,
  request_line_to_string, parse_request_line,
}
use unixtar.Http.HeaderField.{
  HeaderField, host, content_length_name, connection_name, connection_close, insert_or_update,
  header_to_string, is_connection_upgrade,
}
use unixtar.Http.Packet.{
  none_yet, end, error, HttpParser, LineResult, line_returned, Attempt, attempted, threw, Outcome,
  Methods, resolve_first_line_with, resolve_headers_base, resolve_body_base, do_parse,
  packet_content_length,
}

-- The loop over `_headers`, which is in the order of its keys.
unfoldable pub insert_all : HeaderField → HeaderField → HeaderField
unfolding insert_or_update
insert_all [] fields = fields
insert_all ((k, v) ∷ more) fields = insert_all more (insert_or_update k v fields)

-- The header fields that `Pack` builds.
unfoldable pub pack_fields : Bytes → HeaderField → Bytes → HeaderField
unfolding insert_all insert_or_update
pack_fields host_value more body =
    insert_or_update content_length_name (snprintf_len (length body)) (
      insert_all more
        (insert_or_update connection_name connection_close (insert_or_update host host_value [])))

-- `Pack`: what the buffer holds behind it. The null `_headers` is the empty list.
unfoldable pub pack : Bytes → Bytes → HeaderField → Bytes → Bytes
unfolding pack_fields
pack host_value url more body =
    request_line_to_string (record { method = post; url = url; version = http_1_1 })
    ++ (header_to_string (pack_fields host_value more body) ++ body)

abbrev pub Parser : Type 0
Parser = HttpParser RequestLine

abbrev pub new_parser : Parser
new_parser = record {
  position = none_yet;
  line = new_request_line;
  fields = [];
  body_ = none;
  first_line_len = 0;
  header_len = 0;
  resolved_len = 0;
  is_upgrade_to_ws = false;
}

unfoldable pub line_result : RequestLine × Bool → LineResult RequestLine
line_result (r, ok) = line_returned r ok

unfoldable pub parse_line : RequestLine → Bytes → LineResult RequestLine
unfolding line_result
parse_line r from = line_result (parse_request_line r from)

-- What `Parser::_ResolveHeaders` does behind the call of the base class.
unfoldable pub mark_upgrade : Attempt RequestLine → Attempt RequestLine
mark_upgrade (attempted q true) =
    attempted
      (record q {
        is_upgrade_to_ws = if is_connection_upgrade q.fields then true else q.is_upgrade_to_ws;
      })
      true
mark_upgrade (attempted q false) = attempted q false
mark_upgrade (threw q) = threw q

-- `Parser::_ResolveHeaders`
unfoldable pub resolve_headers : Parser → Bytes → Attempt RequestLine
unfolding mark_upgrade
resolve_headers p buf = mark_upgrade (resolve_headers_base p buf)

-- `Parser::_ResolveBody`
unfoldable pub resolve_body_for : HttpMethod → Parser → Bytes → Attempt RequestLine
unfolding resolve_body_base
resolve_body_for get p buf =
    if ltb 0 (sub_size (length buf) p.resolved_len)
    then attempted (record p { position = error }) false
    else attempted (record p { position = end }) true
resolve_body_for _ p buf = resolve_body_base p buf

unfoldable pub methods : Methods RequestLine
unfolding resolve_first_line_with resolve_headers resolve_body_for parse_line
methods = record {
  resolve_first_line = resolve_first_line_with parse_line;
  resolve_headers = resolve_headers;
  resolve_body = λ p. resolve_body_for p.line.method p;
}

unfoldable pub parse_request : Parser → Bytes → Option (Outcome RequestLine)
unfolding do_parse methods
parse_request p buf = do_parse methods p buf

-- `HttpRequest::ContentLength`
unfoldable pub request_content_length : HttpMethod → HeaderField → ℕ
unfolding packet_content_length
request_content_length get fields = 0
request_content_length _ fields = packet_content_length fields
