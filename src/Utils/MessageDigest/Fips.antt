-- ===== src/Utils/MessageDigest/Fips.antt =====
-- SHA-1 as FIPS 180 has it, written without the functions of utils/messagedigest.cc, and those
-- functions against it.
use unixtar.Prelude.{
  ℕ, zero, suc, ◌+◌, ◌-◌, ◌*◌, ◌/◌, ◌%◌, ◌^◌, List, [], ◌∷◌, ◌++◌, map, Bytes, length, get_or, drop,
  replicate, ltb, arith, ◌≡◌, refl, sym, ap, ap₂, ◌∙◌, if◌then◌else◌, Bool-cases, inl, inr, bit_and,
  bit_or, bit_xor,
}
use native.Mathlib.Nat.{div-div-eq-div-mul}
use unixtar.Utils.MessageDigest.{
  rol, words, Regs, choose, parity, majority, mixed, add_regs, big_endian, initial_states,
  state_bytes,
}
use unixtar.Utils.MessageDigest.Blocks.{padded}
use unixtar.Utils.MessageDigest.Schedule.{
  next_word, slide, generated, schedule, standard_round, compress, swapped,
}

-- `ROTL^n(x)` on words of 32 bits.
unfoldable pub rotl : ℕ → ℕ → ℕ
rotl n x = bit_or (x * 2 ^ n % 4294967296) (x / 2 ^ (32 - n))

-- The standard's `Ch`, `Parity` and `Maj` of the words `b`, `c` and `d`.
unfoldable pub ch : ℕ → ℕ → ℕ → ℕ
ch b c d = bit_xor (bit_and b (bit_xor c d)) d

unfoldable pub par : ℕ → ℕ → ℕ → ℕ
par b c d = bit_xor (bit_xor b c) d

unfoldable pub maj : ℕ → ℕ → ℕ → ℕ
maj b c d = bit_or (bit_and (bit_or b c) d) (bit_and b c)

-- The function of step `t`, and its constant.
unfoldable pub step_function : ℕ → ℕ → ℕ → ℕ → ℕ
step_function t b c d =
    if ltb t 20
    then ch b c d
    else if ltb t 40
    then par b c d
    else if ltb t 60
    then maj b c d
    else par b c d

unfoldable pub step_constant : ℕ → ℕ
step_constant t =
    if ltb t 20
    then 1518500249
    else if ltb t 40
    then 1859775393
    else if ltb t 60
    then 2400959708
    else 3395469782

-- Step `t`: `T = ROTL^5(a) + f(b, c, d) + e + K + W`, and the five working variables move on.
unfoldable pub step : ℕ → ℕ → Regs → Regs
step t word r = record {
  v = (rotl 5 r.v + step_function t r.w r.x r.y + r.z + step_constant t + word) % 4294967296;
  w = r.v;
  x = rotl 30 r.w;
  y = r.x;
  z = r.y;
}

unfoldable pub steps : ℕ → List ℕ → Regs → Regs
steps t [] r = r
steps t (word ∷ ws) r = steps (suc t) ws (step t word r)

-- `ROTL^1(W[t-3] ^ W[t-8] ^ W[t-14] ^ W[t-16])`, of the sixteen words before it.
unfoldable pub scheduled_word : List ℕ → ℕ
scheduled_word window = rotl 1 (
    bit_xor (bit_xor (bit_xor (get_or window 13 0) (get_or window 8 0)) (get_or window 2 0))
      (get_or window 0 0))

unfoldable pub scheduled : ℕ → List ℕ → List ℕ
scheduled zero window = []
scheduled (suc n) window =
    scheduled_word window ∷ scheduled n (drop 1 window ++ scheduled_word window ∷ [])

-- The word of four bytes, the first one highest: the little-endian word with its bytes turned over.
unfoldable pub word_of : ℕ → ℕ → ℕ → ℕ → ℕ
word_of b0 b1 b2 b3 =
    let l = b0 + 256 * b1 + 65536 * b2 + 16777216 * b3 in
    bit_or (bit_and (rotl 24 l) 4278255360) (bit_and (rotl 8 l) 16711935)

unfoldable pub block_words : Bytes → List ℕ
block_words (b0 ∷ b1 ∷ b2 ∷ b3 ∷ rest) = word_of b0 b1 b2 b3 ∷ block_words rest
block_words _ = []

-- The hash value behind a block: the eighty steps over its sixteen words and sixty-four more.
unfoldable pub hash_block : Regs → Bytes → Regs
hash_block h block =
    let r = steps 0 (block_words block ++ scheduled 64 (block_words block)) h in
    record {
      v = (h.v + r.v) % 4294967296;
      w = (h.w + r.w) % 4294967296;
      x = (h.x + r.x) % 4294967296;
      y = (h.y + r.y) % 4294967296;
      z = (h.z + r.z) % 4294967296;
    }

unfoldable pub initial_hash : Regs
initial_hash = record {
  v = 1732584193;
  w = 4023233417;
  x = 2562383102;
  y = 271733878;
  z = 3285377520;
}

unfoldable pub word_bytes : ℕ → Bytes
word_bytes n = (n / 16777216 % 256) ∷ (n / 65536 % 256) ∷ (n / 256 % 256) ∷ (n % 256) ∷ []

unfoldable pub hash_bytes : Regs → Bytes
hash_bytes r =
    word_bytes r.v ++ (word_bytes r.w ++ (word_bytes r.x ++ (word_bytes r.y ++ word_bytes r.z)))

-- The number of bits of a message, modulo 2 ^ 64, in eight bytes, the high one first.
unfoldable pub bit_length : Bytes → Bytes
bit_length msg =
    let n = length msg * 8 % 18446744073709551616 in word_bytes (n / 4294967296) ++ word_bytes n

-- The message, the bit 1, zeros up to eight bytes before a multiple of 64, and its length in bits.
unfoldable pub padded_message : Bytes → Bytes
padded_message msg = msg ++ (128 ∷ (replicate ((119 - length msg % 64) % 64) 0 ++ bit_length msg))

rol-rotl : (n x : ℕ) → rol x n ≡ rotl n x
unfolding rol rotl
rol-rotl n x = refl

round-step : (t word : ℕ) (r : Regs) → standard_round t word r ≡ step t word r
unfolding standard_round mixed step step_function step_constant choose parity majority ch par maj
    rol rotl
round-step t word r = elim (Bool-cases (ltb t 20)) [
  | inl e ↦ rw e (summed (omega arith))
  | inr e ↦ elim (Bool-cases (ltb t 40)) [
    | inl e' ↦ rw (e, e') (summed (omega arith))
    | inr e' ↦ elim (Bool-cases (ltb t 60)) [
      | inl e'' ↦ rw (e, e', e'') (summed (omega arith))
      | inr e'' ↦ rw (e, e', e'') (summed (omega arith))
    ]
  ]
]
  where
    moved : ℕ → Regs
    moved k = record { v = k % 4294967296; w = r.v; x = rotl 30 r.w; y = r.x; z = r.y }

    summed : {m n : ℕ} → m ≡ n → moved m ≡ moved n
    summed h = ap moved h

compress-steps : (t : ℕ) (ws : List ℕ) (r : Regs) → compress t ws r ≡ steps t ws r
unfolding compress steps
compress-steps t [] r = refl
compress-steps t (w ∷ ws) r =
    compress-steps (suc t) ws (standard_round t w r) ∙ ap (steps (suc t) ws) (round-step t w r)

next_word-scheduled : (window : List ℕ) → next_word window ≡ scheduled_word window
unfolding next_word scheduled_word rol rotl
next_word-scheduled window = refl

generated-scheduled : (n : ℕ) (window : List ℕ) → generated n window ≡ scheduled n window
unfolding generated scheduled slide
generated-scheduled zero window = refl
generated-scheduled (suc n) window =
    ap₂ (λ w ws. w ∷ ws) (next_word-scheduled window)
      (generated-scheduled n (drop 1 window ++ next_word window ∷ [])
        ∙ ap (λ w. scheduled n (drop 1 window ++ w ∷ [])) (next_word-scheduled window))

swapped-word_of : (bs : Bytes) → map swapped (words bs) ≡ block_words bs
unfolding words block_words swapped word_of rol rotl
swapped-word_of (b0 ∷ b1 ∷ b2 ∷ b3 ∷ rest) =
    ap (λ ws. word_of b0 b1 b2 b3 ∷ ws) (swapped-word_of rest)
swapped-word_of [] = refl
swapped-word_of (b0 ∷ []) = refl
swapped-word_of (b0 ∷ b1 ∷ []) = refl
swapped-word_of (b0 ∷ b1 ∷ b2 ∷ []) = refl

-- What the code adds to the states behind a block.
pub compress-hash_block :
    (h : Regs) (block : Bytes)
    → add_regs h (compress 0 (schedule (map swapped (words block))) h) ≡ hash_block h block
unfolding schedule hash_block add_regs
compress-hash_block h block =
    let ws : List ℕ = map swapped (words block) in
    ap (add_regs h) (
      compress-steps 0 (ws ++ generated 64 ws) h
      ∙ ap (λ vs. steps 0 (ws ++ vs) h) (generated-scheduled 64 ws))
    ∙ ap (λ vs. add_regs h (steps 0 (vs ++ scheduled 64 vs) h)) (swapped-word_of block)

pub initial_states-initial_hash : initial_states ≡ initial_hash
unfolding initial_hash
initial_states-initial_hash = refl

big_endian_four : (n : ℕ) → big_endian 4 n ≡ word_bytes n
unfolding big_endian word_bytes
big_endian_four n =
    ap (λ k. (n / 16777216 % 256) ∷ (n / 65536 % 256) ∷ (n / 256 % 256) ∷ (k % 256) ∷ [])
      (omega arith)

pub state_bytes-hash_bytes : (r : Regs) → state_bytes r ≡ hash_bytes r
unfolding state_bytes hash_bytes
state_bytes-hash_bytes r =
    rw
      (
        big_endian_four r.v,
        big_endian_four r.w,
        big_endian_four r.x,
        big_endian_four r.y,
        big_endian_four r.z,
      )
      refl

big_endian_eight : (n : ℕ) → big_endian 8 n ≡ word_bytes (n / 4294967296) ++ word_bytes n
unfolding big_endian word_bytes
big_endian_eight n =
    ap₂ (λ a bs. (a % 256) ∷ bs) (sym (div-div-eq-div-mul n 4294967296 16777216))
      (ap₂ (λ a bs. (a % 256) ∷ bs) (sym (div-div-eq-div-mul n 4294967296 65536))
        (ap₂ (λ a bs. (a % 256) ∷ (n / 4294967296 % 256) ∷ bs)
          (sym (div-div-eq-div-mul n 4294967296 256)) (big_endian_four n)))

pub padded-padded_message : (msg : Bytes) → padded msg ≡ padded_message msg
unfolding padded padded_message bit_length
padded-padded_message msg =
    ap (λ e. msg ++ (128 ∷ (replicate ((119 - length msg % 64) % 64) 0 ++ e)))
      (big_endian_eight (length msg * 8 % 18446744073709551616))
