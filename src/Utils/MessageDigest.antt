-- ===== src/Utils/MessageDigest.antt =====
-- utils/messagedigest.h and utils/messagedigest.cc: SHA-1. A uint32_t is a number below 2 ^ 32, and
-- its operations wrap there. The machine is little-endian. `Sha1Transform` uses the 64 bytes that it
-- is given as its working space, so `transform` also returns the words that it leaves in them.
pub mod Blocks
pub mod Fips
pub mod Padding
pub mod Schedule
pub mod Standard
use unixtar.Prelude.{
  ℕ, zero, suc, ◌+◌, ◌-◌, ◌*◌, ◌/◌, ◌%◌, ◌^◌, Bool, true, false, List, [], ◌∷◌, ◌++◌, Bytes, length,
  get_or, set, take, drop, replicate, ltb, leb, ◌==◌, if◌then◌else◌, bit_and, bit_or, bit_xor,
}

-- `rol`
unfoldable pub rol : ℕ → ℕ → ℕ
rol value bits = bit_or (value * 2 ^ bits % 2 ^ 32) (value / 2 ^ (32 - bits))

-- The sixteen words of the union's `l`, as the machine reads them from `c`.
unfoldable pub words : Bytes → List ℕ
words (b0 ∷ b1 ∷ b2 ∷ b3 ∷ rest) = (b0 + 256 * b1 + 65536 * b2 + 16777216 * b3) ∷ words rest
words _ = []

-- `blk0`: the block with the word written, and the word.
unfoldable pub blk0 : ℕ → List ℕ → List ℕ × ℕ
blk0 i block =
    let l = get_or block i 0 in
    let word = bit_or (bit_and (rol l 24) 0xff00ff00) (bit_and (rol l 8) 0x00ff00ff) in
    (set block i word, word)

-- `blk`
unfoldable pub blk : ℕ → List ℕ → List ℕ × ℕ
blk i block =
    let word =
      rol
        (bit_xor
          (bit_xor
            (bit_xor (get_or block (bit_and (i + 13) 15) 0) (get_or block (bit_and (i + 8) 15) 0))
            (get_or block (bit_and (i + 2) 15) 0))
          (get_or block (bit_and i 15) 0))
        1 in
    (set block (bit_and i 15) word, word)

-- The variables `a` to `e` in the order in which a round is given them.
pub record Regs : Type 0 where
  pub v : ℕ
  pub w : ℕ
  pub x : ℕ
  pub y : ℕ
  pub z : ℕ

-- `(w&(x^y))^y`, `w^x^y` and `((w|x)&y)|(w&x)`
unfoldable pub choose : Regs → ℕ
choose r = bit_xor (bit_and r.w (bit_xor r.x r.y)) r.y

unfoldable pub parity : Regs → ℕ
parity r = bit_xor (bit_xor r.w r.x) r.y

unfoldable pub majority : Regs → ℕ
majority r = bit_or (bit_and (bit_or r.w r.x) r.y) (bit_and r.w r.x)

-- What R0 to R4 do with the value `f` of their function, their constant `k` and the word; then the
-- roles move on by one, as from `R0(a, b, c, d, e, 0)` to `R0(e, a, b, c, d, 1)`.
unfoldable pub mixed : ℕ → ℕ → ℕ → Regs → Regs
mixed f k word r = record {
  v = (r.z + (f + word + k + rol r.v 5)) % 2 ^ 32;
  w = r.v;
  x = rol r.w 30;
  y = r.x;
  z = r.y;
}

-- The `i`-th of the eighty lines of `Sha1Transform`.
unfoldable pub sha_round : ℕ → Regs × List ℕ → Regs × List ℕ
sha_round i (r, block) =
    if ltb i 16
    then (let (block', word) = blk0 i block in (mixed (choose r) 0x5a827999 word r, block'))
    else let (block', word) = blk i block in
      (
        if ltb i 20
            then mixed (choose r) 0x5a827999 word r
            else if ltb i 40
            then mixed (parity r) 0x6ed9eba1 word r
            else if ltb i 60
            then mixed (majority r) 0x8f1bbcdc word r
            else mixed (parity r) 0xca62c1d6 word r,
        block',
      )

-- `n` lines from the `i`-th on.
unfoldable pub sha_rounds : ℕ → ℕ → Regs × List ℕ → Regs × List ℕ
sha_rounds zero i s = s
sha_rounds (suc n) i s = sha_rounds n (suc i) (sha_round i s)

unfoldable pub add_regs : Regs → Regs → Regs
add_regs s r = record {
  v = (s.v + r.v) % 2 ^ 32;
  w = (s.w + r.w) % 2 ^ 32;
  x = (s.x + r.x) % 2 ^ 32;
  y = (s.y + r.y) % 2 ^ 32;
  z = (s.z + r.z) % 2 ^ 32;
}

-- `Sha1Transform`: the states, and the words that stand in the buffer behind it.
unfoldable pub transform : Regs → Bytes → Regs × List ℕ
transform states buf =
    let (r, block) = sha_rounds 80 0 (states, words buf) in (add_regs states r, block)

-- `Sha1ContextInit`
abbrev pub initial_states : Regs
initial_states = record {
  v = 0x67452301;
  w = 0xefcdab89;
  x = 0x98badcfe;
  y = 0x10325476;
  z = 0xc3d2e1f0;
}

-- The while loop of `Digest` over whole blocks; the fuel is the length of the message.
unfoldable pub whole_blocks : ℕ → Regs → Bytes → Regs
whole_blocks zero states msg = states
whole_blocks (suc fuel) states msg =
    let rest = whole_blocks fuel ((transform states (take 64 msg)).0) (drop 64 msg) in
    if leb 64 (length msg) then rest else states

-- `(_msg_len >> ((7 - i) * 8)) & 0xff` for the eight `i`.
unfoldable pub big_endian : ℕ → ℕ → Bytes
big_endian zero n = []
big_endian (suc k) n = (n / 2 ^ (k * 8) % 256) ∷ big_endian k n

-- `last_block` as the first `Sha1Transform` behind the loop gets it: what is left of the message,
-- 0x80, and in the last eight bytes the number of bits, if they are free.
unfoldable pub last_block : Bytes → ℕ → Bytes
last_block tail bits =
    let front = tail ++ 0x80 ∷ [] in
    if ltb (length tail) 56
    then front ++ (replicate (56 - length front) 0 ++ big_endian 8 bits)
    else front ++ replicate (64 - length front) 0

-- `new_block`
unfoldable pub new_block : ℕ → Bytes
new_block bits = replicate 56 0 ++ big_endian 8 bits

-- `_msg_len & 63` bytes at the end of the message.
unfoldable pub message_tail : Bytes → Bytes
message_tail msg = drop (length msg - bit_and (length msg) 63) msg

unfoldable pub final_states : Bytes → Regs
final_states msg =
    let tail = message_tail msg in
    let bits = length msg * 8 % 2 ^ 64 in
    let looped = whole_blocks (length msg) initial_states msg in
    let (once, _) = transform looped (last_block tail bits) in
    if leb 56 (length tail) then (transform once (new_block bits)).0 else once

-- The bytes of the states, the high byte first.
unfoldable pub state_bytes : Regs → Bytes
state_bytes r =
    big_endian 4 r.v
    ++ (big_endian 4 r.w ++ (big_endian 4 r.x ++ (big_endian 4 r.y ++ big_endian 4 r.z)))

-- `Digest`: the twenty bytes of `_res` before the NUL.
unfoldable pub digest : Bytes → Bytes
digest msg = state_bytes (final_states msg)
