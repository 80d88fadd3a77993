-- ===== src/Http/HeaderField.antt =====
-- http/headerfield.h and http/headerfield.cc: the header fields. The std::map is an association
-- list in the order of its keys, which is the order that its iteration takes.
pub mod Order
pub mod Map
pub mod RoundTrip
pub mod Ends
use unixtar.Prelude.{
  ℕ, ◌+◌, Bool, true, false, ◌&&◌, ◌||◌, List, [], ◌∷◌, ◌++◌, Option, none, some, Bytes, codes,
  length, ltb, ◌==◌, if◌then◌else◌, equal, c_str,
}
use unixtar.Utils.StrUtil.{split}
use unixtar.Utils.Decimal.{strtoul}
use mathlib.Core.Option

abbrev pub HeaderField : Type 0
HeaderField = List (Bytes × Bytes)

abbrev pub host : Bytes
host = codes "Host"

abbrev pub content_length_name : Bytes
content_length_name = codes "Content-Length"

abbrev pub connection_name : Bytes
connection_name = codes "Connection"

abbrev pub connection_close : Bytes
connection_close = codes "close"

abbrev pub keep_alive : Bytes
keep_alive = codes "keep-alive"

abbrev pub connection_upgrade : Bytes
connection_upgrade = codes "Upgrade"

-- `operator<` of std::string: lexicographic, by unsigned bytes.
unfoldable pub bytes_lt : Bytes → Bytes → Bool
bytes_lt [] [] = false
bytes_lt [] (y ∷ ys) = true
bytes_lt (x ∷ xs) [] = false
bytes_lt (x ∷ xs) (y ∷ ys) = ltb x y || (x == y && bytes_lt xs ys)

-- `header_fields_[_key] = _value`
unfoldable pub insert_or_update : Bytes → Bytes → HeaderField → HeaderField
insert_or_update key value [] = (key, value) ∷ []
insert_or_update key value ((k, v) ∷ fields) =
    if equal key k
    then (k, value) ∷ fields
    else if bytes_lt key k
    then (key, value) ∷ (k, v) ∷ fields
    else (k, v) ∷ insert_or_update key value fields

unfoldable pub header_size : HeaderField → ℕ
header_size [] = 0
header_size ((k, v) ∷ fields) = length k + length v + 4 + header_size fields

-- `Get`: the comparison and the result are C strings.
unfoldable pub get_field : HeaderField → Bytes → Option Bytes
unfolding equal c_str
get_field [] field = none
get_field ((k, v) ∷ fields) field =
    if equal (c_str k) field then some (c_str v) else get_field fields field

unfoldable pub is_connection : HeaderField → Bytes → Bool
unfolding get_field equal
is_connection fields value = elim (get_field fields connection_name) [
  | none ↦ false
  | some connection ↦ equal connection value
]

abbrev pub is_keep_alive : HeaderField → Bool
is_keep_alive fields = is_connection fields keep_alive

abbrev pub is_connection_close : HeaderField → Bool
is_connection_close fields = is_connection fields connection_close

abbrev pub is_connection_upgrade : HeaderField → Bool
is_connection_upgrade fields = is_connection fields connection_upgrade

-- `ContentLength`: 0 when there is no such field.
unfoldable pub content_length : HeaderField → ℕ
content_length [] = 0
content_length ((k, v) ∷ fields) =
    if equal (c_str k) content_length_name then strtoul (c_str v) else content_length fields

-- The loop of `ToString`; the blank line ends the header.
unfoldable pub fields_to_string : HeaderField → Bytes
fields_to_string [] = []
fields_to_string ((k, v) ∷ fields) =
    k ++ (codes ": " ++ (v ++ (codes "\r\n" ++ fields_to_string fields)))

unfoldable pub header_to_string : HeaderField → Bytes
unfolding fields_to_string
header_to_string fields = fields_to_string fields ++ codes "\r\n"

-- One round of the loop of `ParseFromString`, on the pieces of a line; `none` is `return false`.
unfoldable pub insert_pair : List Bytes → HeaderField → Option HeaderField
unfolding insert_or_update
insert_pair (k ∷ v ∷ []) fields = some (insert_or_update k v fields)
insert_pair _ fields = none

-- The fields inserted before a bad line stay.
unfoldable pub insert_lines : List Bytes → HeaderField → HeaderField × Bool
unfolding insert_pair
insert_lines [] fields = (fields, true)
insert_lines (line ∷ lines) fields = elim (insert_pair (split line (codes ": ")) fields) [
  | none ↦ (fields, false)
  | some fields' ↦ insert_lines lines fields'
]

unfoldable pub parse_header : HeaderField → Bytes → HeaderField × Bool
unfolding insert_lines
parse_header fields from = insert_lines (split from (codes "\r\n")) fields
