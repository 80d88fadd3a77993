-- ===== src/Utils/MessageDigest/Blocks.antt =====
-- The loop of `Sha1::Digest` over whole blocks, and the padding as the code lays it out.
use unixtar.Prelude.{
  ℕ, zero, suc, ◌+◌, ◌-◌, ◌*◌, ◌/◌, ◌%◌, ◌^◌, ◌<◌, ◌≤◌, true, false, [], ◌∷◌, ◌++◌, Bytes, length,
  take, drop, replicate, leb, ltb, ltb→lt, length-append, length-drop, length-replicate,
  take-append_self, take-append-drop, length-take, drop-append_self, append_assoc, arith, ◌≡◌, refl,
  sym, ap, ap₂, ◌∙◌, IsByte, All, inl, inr, ◌⊎◌, Bool-cases,
}
use native.Mathlib.Nat.{mod-lt}
use unixtar.Utils.MessageDigest.{Regs, transform, whole_blocks, big_endian, last_block, new_block}

pub length-big_endian : (k n : ℕ) → length (big_endian k n) ≡ k
unfolding big_endian
length-big_endian zero n = refl
length-big_endian (suc k) n = ap suc (length-big_endian k n)

pub big_endian-IsByte : (k n : ℕ) → All IsByte (big_endian k n)
unfolding big_endian
big_endian-IsByte zero n = tt
big_endian-IsByte (suc k) n = (mod-lt (n / 2 ^ (k * 8)) (omega arith), big_endian-IsByte k n)

-- The message with the bit 1 behind it, zeros, and the number of its bits in eight bytes.
unfoldable pub padded : Bytes → Bytes
padded msg =
    msg
    ++ (0x80
        ∷ (replicate ((119 - length msg % 64) % 64) 0 ++ big_endian 8 (length msg * 8 % 2 ^ 64)))

pub length-padded : (msg : Bytes) → length (padded msg) % 64 ≡ 0
unfolding padded
length-padded msg =
    let zeros : Bytes = replicate ((119 - length msg % 64) % 64) 0 in
    omega (
      arith,
      length-append msg (0x80 ∷ (zeros ++ big_endian 8 (length msg * 8 % 2 ^ 64))),
      length-append zeros (big_endian 8 (length msg * 8 % 2 ^ 64)),
      length-replicate {A = ℕ} ((119 - length msg % 64) % 64) 0,
      length-big_endian 8 (length msg * 8 % 2 ^ 64),
    )

-- One round of the loop, and its end.
pub block_round :
    (fuel : ℕ) (states : Regs) (block rest : Bytes)
    → length block ≡ 64
    → whole_blocks (suc fuel) states (block ++ rest)
      ≡ whole_blocks fuel ((transform states block).0) rest
unfolding whole_blocks
block_round fuel states block rest h =
    let enough : leb 64 (length (block ++ rest)) ≡ true =
      ground (arith, length-append block rest, h) in
    rw enough (
      ap₂ (λ a b. whole_blocks fuel ((transform states a).0) b)
        (take-append_self block rest 64 (sym h)) (drop-append_self block rest 64 (sym h)))

pub loop_over :
    (fuel : ℕ) (states : Regs) (rest : Bytes)
    → length rest < 64
    → whole_blocks fuel states rest ≡ states
unfolding whole_blocks
loop_over zero states rest h = refl
loop_over (suc fuel) states rest h =
    let short : leb 64 (length rest) ≡ false = ground (arith, h) in rw short refl

-- The loop over `k` whole blocks with more behind them goes on from what they leave.
pub loop_on :
    (k fuel : ℕ) (states : Regs) (front rest : Bytes)
    → length front ≡ 64 * k
    → whole_blocks (k + fuel) states (front ++ rest)
      ≡ whole_blocks fuel (whole_blocks k states front) rest
unfolding whole_blocks
loop_on zero fuel states [] rest e = ap (λ n. whole_blocks n states rest) (omega arith)
loop_on zero fuel states (b ∷ front) rest e = absurd (omega (arith, e))
loop_on (suc k) fuel states front rest e =
    let head : Bytes = take 64 front in
    let more : Bytes = drop 64 front in
    let head_len : length head ≡ 64 = omega (arith, length-take 64 front, e) in
    let more_len : length more ≡ 64 * k = omega (arith, length-drop 64 front, e) in
    let once : Regs = (transform states head).0 in
    let next : suc k + fuel ≡ suc (k + fuel) = omega arith in
    ap₂ (λ n t. whole_blocks n states t) next
      (ap (λ t. t ++ rest) (sym (take-append-drop 64 front)) ∙ append_assoc head more rest)
    ∙ block_round (k + fuel) states head (more ++ rest) head_len
    ∙ loop_on k fuel once more rest more_len
    ∙ ap (λ r. whole_blocks fuel r rest)
        (sym (
          ap (whole_blocks (suc k) states) (sym (take-append-drop 64 front))
          ∙ block_round k states head more head_len))

-- The loop of `Digest` takes the whole blocks, and leaves less than a block.
pub loop_message :
    (fuel : ℕ) (states : Regs) (front tail : Bytes) (k : ℕ)
    → length front ≡ 64 * k
    → length tail < 64
    → k ≤ fuel
    → whole_blocks fuel states (front ++ tail) ≡ whole_blocks k states front
loop_message fuel states front tail k e short h =
    ap (λ n. whole_blocks n states (front ++ tail)) (omega (arith, h))
    ∙ loop_on k (fuel - k) states front tail e
    ∙ loop_over (fuel - k) (whole_blocks k states front) tail short

pub le_or_lt : (a c : ℕ) → (a ≤ c) ⊎ (c < a)
le_or_lt a c = ground arith

replicate-add :
    {A : Type 0} (m n : ℕ) (a : A) → replicate m a ++ replicate n a ≡ replicate (m + n) a
replicate-add zero n a = ap (λ k. replicate k a) (omega arith)
replicate-add (suc m) n a =
    let next : suc m + n ≡ suc (m + n) = omega arith in
    ap (λ t. a ∷ t) (replicate-add m n a) ∙ ap (λ k. replicate k a) (sym next)

-- The padding as `Digest` lays it out behind the last whole block: in one block, or in two.
pub padding_one :
    (tail : Bytes) (bits : ℕ)
    → length tail < 56
    → last_block tail bits ≡ tail ++ (0x80 ∷ (replicate (55 - length tail) 0 ++ big_endian 8 bits))
unfolding last_block
padding_one tail bits h =
    let small : ltb (length tail) 56 ≡ true = ground (arith, h) in
    rw small (
      append_assoc tail (0x80 ∷ []) _
      ∙ ap (λ n. tail ++ (0x80 ∷ (replicate n 0 ++ big_endian 8 bits)))
          (omega (arith, length-append tail (0x80 ∷ []))))

pub padding_two :
    (tail : Bytes) (bits : ℕ)
    → 55 < length tail
    → length tail < 64
    → last_block tail bits ++ new_block bits
      ≡ tail ++ (0x80 ∷ (replicate (119 - length tail) 0 ++ big_endian 8 bits))
unfolding last_block new_block
padding_two tail bits l h =
    let large : ltb (length tail) 56 ≡ false = ground (arith, l) in
    let front : Bytes = tail ++ 0x80 ∷ [] in
    let fill : Bytes = replicate (64 - length front) 0 in
    rw large (
      append_assoc front fill (new_block bits)
      ∙ ap (λ t. front ++ t)
          (sym (append_assoc fill (replicate 56 0) (big_endian 8 bits))
            ∙ ap (λ t. t ++ big_endian 8 bits)
                (replicate-add (64 - length front) 56 0
                  ∙ ap (λ n. replicate n 0) (omega (arith, length-append tail (0x80 ∷ [])))))
      ∙ append_assoc tail (0x80 ∷ []) _)

pub length-last_block :
    (tail : Bytes) (bits : ℕ) → length tail < 64 → length (last_block tail bits) ≡ 64
unfolding last_block
length-last_block tail bits h =
    let front : Bytes = tail ++ 0x80 ∷ [] in
    let zeros : Bytes = replicate (56 - length front) 0 in
    let fill : Bytes = replicate (64 - length front) 0 in
    elim (Bool-cases (ltb (length tail) 56)) [
      | inl e ↦ rw e (
          omega (
            arith,
            ltb→lt (length tail) 56 e,
            length-append tail (0x80 ∷ []),
            length-append front (zeros ++ big_endian 8 bits),
            length-append zeros (big_endian 8 bits),
            length-replicate {A = ℕ} (56 - length front) 0,
            length-big_endian 8 bits,
          ))
      | inr e ↦ rw e (
          omega (
            arith,
            h,
            length-append tail (0x80 ∷ []),
            length-append front fill,
            length-replicate {A = ℕ} (64 - length front) 0,
          ))
    ]

pub length-new_block : (bits : ℕ) → length (new_block bits) ≡ 64
unfolding new_block
length-new_block bits =
    omega (arith, length-append (replicate 56 0) (big_endian 8 bits), length-big_endian 8 bits)
