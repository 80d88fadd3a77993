-- ===== src/Utils/Base64.antt =====
-- utils/base64.cc: `Encode` and `Decode`. The output buffer is the list of the bytes written to
-- it; the terminating NUL that both write behind it is not in the list.
pub mod Tables
pub mod RoundTrip
use unixtar.Prelude.{
  ℕ, zero, suc, ◌+◌, ◌-◌, ◌*◌, ◌/◌, ◌%◌, ◌≤◌, ◌<◌, Bool, true, false, not, ◌&&◌, List, [], ◌∷◌,
  ◌++◌, Option, none, some, Bytes, codes, length, get_elem?, get_or, ltb, leb, ◌==◌, if◌then◌else◌,
  bit_and, bit_or,
}

abbrev pub padding : ℕ
padding = b'='

unfoldable pub encode_table : Bytes
encode_table = codes "ABCDEFGHIJKLMNOPQRSTUVWXYZabcdefghijklmnopqrstuvwxyz0123456789+/"

-- The indices used are below 64.
unfoldable pub sextet : ℕ → ℕ
unfolding encode_table
sextet i = get_or encode_table i 0

-- The three values of `where` in `Encode`, and a fourth in `Decode`.
pub data Where : Type 0 where
  at_0 at_1 at_2 at_3 : Where

-- What one round of the loop of `Encode` writes; `last` is the byte of the round before.
unfoldable pub encode_byte : Where → ℕ → ℕ → Bytes
unfolding sextet
encode_byte at_0 last curr = sextet (bit_and (curr / 4) 0x3f) ∷ []
encode_byte at_1 last curr = sextet (bit_or (bit_and last 0x3 * 16) (bit_and (curr / 16) 0xf)) ∷ []
encode_byte _ last curr =
    sextet (bit_or (bit_and last 0xf * 4) (bit_and (curr / 64) 0x3))
    ∷ sextet (bit_and curr 0x3f)
    ∷ []

unfoldable pub next_encode : Where → Where
next_encode at_0 = at_1
next_encode at_1 = at_2
next_encode _ = at_0

-- What `Encode` writes behind the loop.
unfoldable pub encode_end : Where → ℕ → Bytes
unfolding sextet
encode_end at_1 last = sextet (bit_and last 0x3 * 16) ∷ padding ∷ padding ∷ []
encode_end at_2 last = sextet (bit_and last 0xf * 4) ∷ padding ∷ []
encode_end _ last = []

unfoldable pub encode_loop : Where → ℕ → Bytes → Bytes
unfolding next_encode
encode_loop place last [] = encode_end place last
encode_loop place last (curr ∷ input) =
    encode_byte place last curr ++ encode_loop (next_encode place) curr input

unfoldable pub encode : Bytes → Bytes
unfolding encode_loop
encode input = encode_loop at_0 0 input

-- 255 is an error.
unfoldable pub decode_table : Bytes
decode_table =
    255 ∷ 255 ∷ 255 ∷ 255 ∷ 255 ∷ 255 ∷ 255 ∷ 255 ∷ 255 ∷ 255 ∷ 255 ∷ 255 ∷ 255 ∷ 255 ∷ 255 ∷ 255
    ∷ 255 ∷ 255 ∷ 255 ∷ 255 ∷ 255 ∷ 255 ∷ 255 ∷ 255 ∷ 255 ∷ 255 ∷ 255 ∷ 255 ∷ 255 ∷ 255 ∷ 255 ∷ 255
    ∷ 255 ∷ 255 ∷ 255 ∷ 255 ∷ 255 ∷ 255 ∷ 255 ∷ 255 ∷ 255 ∷ 255 ∷ 255 ∷ 62 ∷ 255 ∷ 255 ∷ 255 ∷ 63
    ∷ 52 ∷ 53 ∷ 54 ∷ 55 ∷ 56 ∷ 57 ∷ 58 ∷ 59 ∷ 60 ∷ 61 ∷ 255 ∷ 255 ∷ 255 ∷ 255 ∷ 255 ∷ 255 ∷ 255 ∷ 0
    ∷ 1 ∷ 2 ∷ 3 ∷ 4 ∷ 5 ∷ 6 ∷ 7 ∷ 8 ∷ 9 ∷ 10 ∷ 11 ∷ 12 ∷ 13 ∷ 14 ∷ 15 ∷ 16 ∷ 17 ∷ 18 ∷ 19 ∷ 20 ∷ 21
    ∷ 22 ∷ 23 ∷ 24 ∷ 25 ∷ 255 ∷ 255 ∷ 255 ∷ 255 ∷ 255 ∷ 255 ∷ 26 ∷ 27 ∷ 28 ∷ 29 ∷ 30 ∷ 31 ∷ 32 ∷ 33
    ∷ 34 ∷ 35 ∷ 36 ∷ 37 ∷ 38 ∷ 39 ∷ 40 ∷ 41 ∷ 42 ∷ 43 ∷ 44 ∷ 45 ∷ 46 ∷ 47 ∷ 48 ∷ 49 ∷ 50 ∷ 51 ∷ 255
    ∷ 255 ∷ 255 ∷ 255 ∷ 255 ∷ []

-- The entry for a byte below 128.
unfoldable pub decode_entry : ℕ → ℕ
unfolding decode_table
decode_entry c = get_or decode_table c 255

pub data Decoded : Type 0 where
  decoded : Bytes → Decoded
  illegal_length illegal_text : Decoded
  -- `char` is signed: a byte from 128 on reads in front of the table's 128 entries
  out_of_table : Decoded

-- What one round of the loop of `Decode` writes; `last` and `curr` are entries of the table.
unfoldable pub decode_sextet : Where → ℕ → ℕ → Bytes
decode_sextet at_0 last curr = []
decode_sextet at_1 last curr = (bit_and (last * 4) 0xff + bit_and (curr / 16) 0x3) ∷ []
decode_sextet at_2 last curr = (bit_and last 0xf * 16 + bit_and (curr / 4) 0xf) ∷ []
decode_sextet at_3 last curr = (bit_and last 0x3 * 64 + bit_and curr 0x3f) ∷ []

unfoldable pub next_decode : Where → Where
next_decode at_0 = at_1
next_decode at_1 = at_2
next_decode at_2 = at_3
next_decode at_3 = at_0

unfoldable pub decode_loop : Where → ℕ → Bytes → Bytes → Decoded
unfolding next_decode
decode_loop place last [] res = decoded res
decode_loop place last (c ∷ input) res =
    let curr = decode_entry c in
    let rest = decode_loop (next_decode place) curr input (res ++ decode_sextet place last curr) in
    if c == padding
    then decoded res
    else if ltb 127 c
    then out_of_table
    else if curr == 255
    then illegal_text
    else rest

-- `Decode`: the length is a multiple of four (`_in_len & 3` is the remainder), or an exception.
unfoldable pub decode : Bytes → Decoded
unfolding decode_loop
decode input = if not (length input % 4 == 0) then illegal_length else decode_loop at_0 255 input []
