-- ===== src/Http/Response.antt =====
-- http/httpresponse.h and http/httpresponse.cc: packing a response, and the response parser.
use unixtar.Prelude.{[], ◌++◌, Option, none, some, Bytes, length}
use mathlib.Core.Option
use unixtar.Utils.Decimal.{snprintf_len}
use unixtar.Http.FirstLine.{
  StatusLine, status_line_to_string, StatusParse, returned, thrown, parse_status_line,
}
use unixtar.Http.HeaderField.{HeaderField, content_length_name, insert_or_update, header_to_string}
use unixtar.Http.Packet.{
  HttpParser, LineResult, line_returned, line_thrown, Outcome, Methods, resolve_first_line_with,
  resolve_headers_base, resolve_body_base, do_parse,
}
use unixtar.Http.Request.{insert_all}

-- The header fields that `Pack` builds.
unfoldable pub pack_response_fields : HeaderField → Option Bytes → HeaderField
unfolding insert_all insert_or_update
pack_response_fields more none = insert_all more []
pack_response_fields more (some content) =
    insert_or_update content_length_name (snprintf_len (length content)) (insert_all more [])

-- `Pack`: what the buffer holds behind it. The null `_headers` is the empty list.
unfoldable pub pack_response : StatusLine → HeaderField → Option Bytes → Bytes
unfolding pack_response_fields
pack_response line more content =
    status_line_to_string line
    ++ (header_to_string (pack_response_fields more content) ++ Option.get_or content [])

unfoldable pub status_result : StatusParse → LineResult StatusLine
status_result (returned s ok) = line_returned s ok
status_result (thrown s) = line_thrown s

unfoldable pub response_line : StatusLine → Bytes → LineResult StatusLine
unfolding status_result
response_line s from = status_result (parse_status_line s from)

unfoldable pub response_methods : Methods StatusLine
unfolding resolve_first_line_with response_line resolve_headers_base resolve_body_base
response_methods = record {
  resolve_first_line = resolve_first_line_with response_line;
  resolve_headers = resolve_headers_base;
  resolve_body = resolve_body_base;
}

unfoldable pub parse_response : HttpParser StatusLine → Bytes → Option (Outcome StatusLine)
unfolding do_parse response_methods
parse_response p buf = do_parse response_methods p buf
