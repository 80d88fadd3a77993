-- ===== src/Http/FirstLine.antt =====
-- http/firstline.h and http/firstline.cc: the request line and the status line. The enumerators
-- `kMethodMax` and `kVersionMax` are array bounds that no code stores, and have no constructor.
pub mod RoundTrip
use unixtar.Prelude.{
  ℕ, zero, suc, ◌+◌, Bool, true, false, not, ◌||◌, List, [], ◌∷◌, ◌++◌, Bytes, codes, take, ltb,
  leb, ◌==◌, if◌then◌else◌, equal, c_str, ◌^◌, ◌-◌, ℤ, pos, negsuc,
}
use unixtar.Utils.StrUtil.{split}
use unixtar.Utils.Decimal.{decimal, digits_value, is_digit, skip_spaces}

pub data HttpMethod : Type 0 where
  unknown_method get post delete : HttpMethod

pub data HttpVersion : Type 0 where
  unknown_ver http_0_9 http_1_0 http_1_1 http_2_0 : HttpVersion

unfoldable pub method2string : HttpMethod → Bytes
method2string unknown_method = codes "unknown"
method2string get = codes "GET"
method2string post = codes "POST"
method2string delete = codes "DELETE"

unfoldable pub version2string : HttpVersion → Bytes
version2string unknown_ver = codes "unknown"
version2string http_0_9 = codes "HTTP/0.9"
version2string http_1_0 = codes "HTTP/1.0"
version2string http_1_1 = codes "HTTP/1.1"
version2string http_2_0 = codes "HTTP/2.0"

-- The loop over the table, first match first.
unfoldable pub first_method : Bytes → List HttpMethod → HttpMethod
unfolding equal method2string
first_method str [] = unknown_method
first_method str (m ∷ ms) = if equal str (method2string m) then m else first_method str ms

unfoldable pub get_http_method : Bytes → HttpMethod
unfolding first_method c_str
get_http_method str = first_method (c_str str) (unknown_method ∷ get ∷ post ∷ delete ∷ [])

unfoldable pub first_version : Bytes → List HttpVersion → HttpVersion
unfolding equal version2string
first_version str [] = unknown_ver
first_version str (v ∷ vs) = if equal str (version2string v) then v else first_version str vs

unfoldable pub get_http_version : Bytes → HttpVersion
unfolding first_version c_str
get_http_version str =
    first_version (c_str str) (unknown_ver ∷ http_0_9 ∷ http_1_0 ∷ http_1_1 ∷ http_2_0 ∷ [])

pub record RequestLine : Type 0 where
  pub method : HttpMethod
  pub url : Bytes
  pub version : HttpVersion

abbrev pub new_request_line : RequestLine
new_request_line = record { method = post; url = []; version = http_1_1 }

unfoldable pub request_line_to_string : RequestLine → Bytes
unfolding method2string version2string
request_line_to_string r =
    method2string r.method
    ++ (codes " " ++ (r.url ++ (codes " " ++ (version2string r.version ++ codes "\r\n"))))

-- `ParseFromString` on the pieces of `split`; the result is the line and what is returned.
unfoldable pub request_line_of : RequestLine → List Bytes → RequestLine × Bool
unfolding get_http_method get_http_version
request_line_of r (m ∷ u ∷ v ∷ []) =
    (record { method = get_http_method m; url = u; version = get_http_version v }, true)
request_line_of r _ = (r, false)

unfoldable pub parse_request_line : RequestLine → Bytes → RequestLine × Bool
unfolding request_line_of
parse_request_line r from = request_line_of r (split from (codes " "))

pub record StatusLine : Type 0 where
  pub version : HttpVersion
  pub status_code : ℤ
  pub status_desc : Bytes

abbrev pub new_status_line : StatusLine
new_status_line = record { version = http_1_1; status_code = pos 200; status_desc = [] }

-- The `unsigned` with the bits of an `int`.
unfoldable pub as_unsigned : ℤ → ℕ
as_unsigned (pos n) = n
as_unsigned (negsuc n) = 2 ^ 32 - suc n

-- `snprintf(status_code_str, 4, "%u", status_code_)` keeps three digits.
unfoldable pub status_line_to_string : StatusLine → Bytes
unfolding version2string as_unsigned
status_line_to_string s =
    version2string s.version
    ++ (codes " "
        ++ (take 3 (decimal (as_unsigned s.status_code))
            ++ (codes " " ++ (s.status_desc ++ codes "\r\n"))))

-- What `std::stoi` does: the value, or an exception.
pub data Stoi : Type 0 where
  value : ℤ → Stoi
  invalid_argument out_of_range : Stoi

unfoldable pub negated : ℕ → ℤ
negated zero = pos 0
negated (suc n) = negsuc n

unfoldable pub stoi_digits : Bool → Bytes → Stoi
unfolding is_digit negated
stoi_digits minus [] = invalid_argument
stoi_digits minus (c ∷ cs) =
    let n = digits_value 0 (c ∷ cs) in
    if not (is_digit c)
    then invalid_argument
    else if minus
    then (if leb n (2 ^ 31) then value (negated n) else out_of_range)
    else if ltb n (2 ^ 31)
    then value (pos n)
    else out_of_range

unfoldable pub stoi_signed : Bytes → Stoi
unfolding stoi_digits
stoi_signed [] = invalid_argument
stoi_signed (c ∷ cs) =
    if c == b'-'
    then stoi_digits true cs
    else if c == b'+'
    then stoi_digits false cs
    else stoi_digits false (c ∷ cs)

unfoldable pub stoi : Bytes → Stoi
unfolding stoi_signed skip_spaces
stoi s = stoi_signed (skip_spaces s)

-- `StatusLine::ParseFromString` returns, or an exception of `stoi` leaves it; either way with the
-- fields as they are then.
pub data StatusParse : Type 0 where
  returned : StatusLine → Bool → StatusParse
  thrown : StatusLine → StatusParse

-- `!(status_code_ < 0 || status_code_ > 1000)`
unfoldable pub is_status_code : ℤ → Bool
is_status_code (pos n) = not (ltb 1000 n)
is_status_code (negsuc n) = false

unfoldable pub status_line_of : StatusLine → List Bytes → StatusParse
unfolding get_http_version is_status_code
status_line_of s (v ∷ c ∷ d ∷ []) =
    let s' = record s { version = get_http_version v; status_desc = d } in
    elim (stoi c) [
      | value n ↦ returned (record s' { status_code = n }) (is_status_code n)
      | invalid_argument ↦ thrown s'
      | out_of_range ↦ thrown s'
    ]
status_line_of s _ = returned s false

unfoldable pub parse_status_line : StatusLine → Bytes → StatusParse
unfolding status_line_of
parse_status_line s from = status_line_of s (split from (codes " "))
