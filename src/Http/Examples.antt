-- ===== src/Http/Examples.antt =====
-- Runs of the HTTP layer at concrete messages, and its theorems there.
use unixtar.Prelude.{
  pos, true, false, [], ◌∷◌, ◌++◌, some, Bytes, codes, equal, arith, ◌≡◌, if◌then◌else◌, refl,
}
use unixtar.Utils.StrUtil.{is_prefix, find}
use unixtar.Utils.Decimal.{decimal}
use unixtar.Http.FirstLine.{
  post, http_1_1, version2string, RequestLine, new_request_line, request_line_to_string,
  parse_request_line, StatusLine, new_status_line, status_line_to_string, parse_status_line,
  returned,
}
use unixtar.Http.FirstLine.RoundTrip.{
  request_line_text, status_line_text, parse-request_line_to_string, parse-status_line_to_string,
  parse_two_words,
}
use unixtar.Http.HeaderField.{
  host, insert_or_update, get_field, header_to_string, parse_header, bytes_lt,
}
use unixtar.Http.HeaderField.Map.{IsSorted, get_field-insert_or_update}
use unixtar.Http.HeaderField.RoundTrip.{
  IsField, header_text, parse_header-header_to_string, parse_header_one_line,
}
use unixtar.Http.Packet.{Outcome, returned_0}
use unixtar.Http.Packet.Total.{Ends}
use unixtar.Http.Request.{Parser, new_parser, pack, parse_request}
use unixtar.Http.Request.PackParse.{IsPackable, ReadsBack, parse_request-pack}
use unixtar.Http.Total.{parse_request_total}

abbrev line : RequestLine
line = record { method = post; url = codes "/api"; version = http_1_1 }

parse-request_line_to_string_example :
    (request_line_to_string line ≡ request_line_text line ++ codes "\r\n")
    × (parse_request_line new_request_line (request_line_text line) ≡ (line, true))
parse-request_line_to_string_example =
    parse-request_line_to_string new_request_line line (ground arith)

abbrev ok_line : StatusLine
ok_line = record { version = http_1_1; status_code = pos 200; status_desc = codes "OK" }

abbrev switching : StatusLine
switching = record {
  version = http_1_1;
  status_code = pos 101;
  status_desc = codes "Switching Protocols";
}

parse-status_line_to_string_example :
    (status_line_to_string ok_line ≡ status_line_text ok_line ++ codes "\r\n")
    × (parse_status_line new_status_line (status_line_text ok_line) ≡ returned ok_line true)
parse-status_line_to_string_example =
    parse-status_line_to_string new_status_line ok_line 200 (omega arith) refl (ground arith)
      (λ e. cc)

parse_two_words_example :
    (status_line_to_string switching
      ≡ version2string http_1_1
        ++ (codes " "
            ++ (decimal 101
                ++ (codes " " ++ (codes "Switching" ++ (codes " " ++ codes "Protocols")))))
        ++ codes "\r\n")
    × (parse_status_line new_status_line (
          version2string http_1_1
          ++ (codes " "
              ++ (decimal 101
                  ++ (codes " " ++ (codes "Switching" ++ (codes " " ++ codes "Protocols"))))))
        ≡ returned new_status_line false)
parse_two_words_example =
    parse_two_words new_status_line switching 101 (codes "Switching") (codes "Protocols")
      (omega arith) refl (ground arith) (ground arith) refl

abbrev accept : Bytes × Bytes
accept = (codes "Accept", codes "*")

abbrev hosted : Bytes × Bytes
hosted = (host, codes "a.com")

sorted : IsSorted (accept ∷ hosted ∷ [])
unfolding bytes_lt
sorted = ground arith

get_field-insert_or_update_example :
    get_field (insert_or_update (codes "Date") (codes "now") (accept ∷ hosted ∷ [])) host ≡ (
      if equal (codes "Date") host
      then some (codes "now")
      else get_field (accept ∷ hosted ∷ []) host)
get_field-insert_or_update_example =
    get_field-insert_or_update (codes "Date") (codes "now") host (accept ∷ hosted ∷ [])
      (ground arith) (ground arith) (ground arith)

accept-IsField : IsField accept
unfolding find is_prefix
accept-IsField = record {
  key_word = ground arith;
  key_line = ground arith;
  value_line = ground arith;
  value_some = λ e. cc;
  value_one = refl;
}

hosted-IsField : IsField hosted
unfolding find is_prefix
hosted-IsField = record {
  key_word = ground arith;
  key_line = ground arith;
  value_line = ground arith;
  value_some = λ e. cc;
  value_one = refl;
}

parse_header-header_to_string_example :
    (header_to_string (accept ∷ hosted ∷ []) ≡ header_text accept (hosted ∷ []) ++ codes "\r\n\r\n")
    × (parse_header [] (header_text accept (hosted ∷ [])) ≡ (accept ∷ hosted ∷ [], true))
parse_header-header_to_string_example =
    parse_header-header_to_string accept hosted [] (accept-IsField, (hosted-IsField, tt)) sorted

parse_header_one_line_example : parse_header [] (codes "Host: a.com") ≡ ([], true)
parse_header_one_line_example = parse_header_one_line (codes "Host: a.com") [] (ground arith)

packable : IsPackable (codes "a.com") (codes "/api") (accept ∷ []) (codes "{}")
packable = record {
  host_field = hosted-IsField;
  host_text = ground arith;
  url_ok = ground arith;
  more_fields = (accept-IsField, tt);
  more_text = ground arith;
  body_some = omega arith;
  body_small = omega arith;
}

parse_request-pack_example :
    (out : Parser) × (parse_request new_parser
        (pack (codes "a.com") (codes "/api") (accept ∷ []) (codes "{}"))
      ≡ some (returned_0 out))
    × ReadsBack (codes "a.com") (codes "/api") (accept ∷ []) (codes "{}") out
parse_request-pack_example =
    parse_request-pack (codes "a.com") (codes "/api") (accept ∷ []) (codes "{}") packable

parse_request_total_example :
    (o : Outcome RequestLine) × (parse_request new_parser (codes "GET / HTTP/1.1\r\n") ≡ some o)
    × Ends new_parser (codes "GET / HTTP/1.1\r\n") o
parse_request_total_example = parse_request_total new_parser (codes "GET / HTTP/1.1\r\n")
