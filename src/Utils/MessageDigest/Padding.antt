-- ===== src/Utils/MessageDigest/Padding.antt =====
-- `Sha1::Digest` is the loop over whole blocks, run on the padded message.
use unixtar.Prelude.{
  ℕ, ◌+◌, ◌-◌, ◌*◌, ◌/◌, ◌%◌, ◌^◌, ◌<◌, true, false, [], ◌∷◌, ◌++◌, Bytes, length, take, drop,
  replicate, leb, length-append, length-drop, take-append-drop, length-take, drop-append_self,
  append_assoc, append-nil, arith, ◌≡◌, sym, ap, ap₂, ◌∙◌, IsByte, All, All-append, inl, inr,
}
use unixtar.Prelude.Bits.{bit_and_63}
use unixtar.Utils.MessageDigest.{
  Regs, transform, initial_states, whole_blocks, big_endian, last_block, new_block, message_tail,
  final_states, state_bytes, digest,
}
use unixtar.Utils.MessageDigest.Blocks.{
  length-big_endian, big_endian-IsByte, padded, length-padded, block_round, loop_over, loop_on,
  loop_message, padding_one, padding_two, le_or_lt, length-last_block, length-new_block,
}

-- The states behind the loop over the `k` whole blocks of a message.
module _ (k : ℕ) (front tail : Bytes) where
  abbrev bits_of : ℕ
  bits_of = length (front ++ tail) * 8 % 2 ^ 64

  abbrev looped : Regs
  looped = whole_blocks k initial_states front

  whole :
      length front ≡ 64 * k
      → length tail < 64
      → (message_tail (front ++ tail) ≡ tail)
        × (whole_blocks (length (front ++ tail)) initial_states (front ++ tail) ≡ looped)
  unfolding message_tail
  whole e h =
      let size : length (front ++ tail) ≡ length front + length tail = length-append front tail in
      (
        ap (λ n. drop (length (front ++ tail) - n) (front ++ tail))
              (bit_and_63 (length (front ++ tail)))
            ∙ drop-append_self front tail _ (omega (arith, size, e, h)),
        loop_message (length (front ++ tail)) initial_states front tail k e h
            (omega (arith, size, e)),
      )

  final_one :
      length front ≡ 64 * k
      → length tail < 56
      → final_states (front ++ tail) ≡ (transform looped (last_block tail bits_of)).0
  unfolding final_states
  final_one e h =
      let (rest, all) = whole e (omega (arith, h)) in
      let few : leb 56 (length (message_tail (front ++ tail))) ≡ false =
        ground (arith, ap length rest, h) in
      rw few (ap₂ (λ r t. (transform r (last_block t bits_of)).0) all rest)

  final_two :
      length front ≡ 64 * k
      → 55 < length tail
      → length tail < 64
      → final_states (front ++ tail)
        ≡ (transform ((transform looped (last_block tail bits_of)).0) (new_block bits_of)).0
  unfolding final_states
  final_two e l h =
      let (rest, all) = whole e h in
      let many : leb 56 (length (message_tail (front ++ tail))) ≡ true =
        ground (arith, ap length rest, l) in
      rw many (
        ap₂ (λ r t. (transform ((transform r (last_block t bits_of)).0) (new_block bits_of)).0) all
          rest)

  -- The padded message is the whole blocks and one or two blocks more.
  padded_one :
      length front ≡ 64 * k
      → length tail < 56
      → padded (front ++ tail) ≡ front ++ last_block tail bits_of
  unfolding padded
  padded_one e h =
      append_assoc front tail _
      ∙ ap (λ t. front ++ t)
          (ap (λ n. tail ++ (0x80 ∷ (replicate n 0 ++ big_endian 8 bits_of)))
              (omega (arith, length-append front tail, e, h))
            ∙ sym (padding_one tail bits_of h))

  padded_two :
      length front ≡ 64 * k
      → 55 < length tail
      → length tail < 64
      → padded (front ++ tail) ≡ front ++ (last_block tail bits_of ++ new_block bits_of)
  unfolding padded
  padded_two e l h =
      append_assoc front tail _
      ∙ ap (λ t. front ++ t)
          (ap (λ n. tail ++ (0x80 ∷ (replicate n 0 ++ big_endian 8 bits_of)))
              (omega (arith, length-append front tail, e, l, h))
            ∙ sym (padding_two tail bits_of l h))

  looped_one :
      (states : Regs) (block : Bytes)
      → length block ≡ 64
      → whole_blocks 1 states block ≡ (transform states block).0
  looped_one states block e =
      ap (whole_blocks 1 states) (sym (append-nil block))
      ∙ block_round 0 states block [] e
      ∙ loop_over 0 _ [] (omega arith)

  looped_two :
      (states : Regs) (block last : Bytes)
      → length block ≡ 64
      → length last ≡ 64
      → whole_blocks 2 states (block ++ last) ≡ (transform ((transform states block).0) last).0
  looped_two states block last e f = block_round 1 states block last e ∙ looped_one _ last f

  states_padded :
      length front ≡ 64 * k
      → length tail < 64
      → (n : ℕ) × (n ≡ length (padded (front ++ tail)) / 64)
        × (final_states (front ++ tail) ≡ whole_blocks n initial_states (padded (front ++ tail)))
  states_padded e h = elim (le_or_lt (length tail) 55) [
    | inl few ↦
        let form = padded_one e (omega (arith, few)) in
        let len : length (last_block tail bits_of) ≡ 64 = length-last_block tail bits_of h in
        (
          k + 1,
          omega (arith, ap length form, length-append front (last_block tail bits_of), len, e),
          final_one e (omega (arith, few))
              ∙ sym (looped_one looped (last_block tail bits_of) len)
              ∙ sym (loop_on k 1 initial_states front (last_block tail bits_of) e)
              ∙ ap (whole_blocks (k + 1) initial_states) (sym form),
        )
    | inr many ↦
        let form = padded_two e (omega (arith, many)) h in
        let len : length (last_block tail bits_of) ≡ 64 = length-last_block tail bits_of h in
        let len' : length (new_block bits_of) ≡ 64 = length-new_block bits_of in
        (
          k + 2,
          omega (
            arith,
            ap length form,
            length-append front (last_block tail bits_of ++ new_block bits_of),
            length-append (last_block tail bits_of) (new_block bits_of),
            len,
            len',
            e,
          ),
          final_two e (omega (arith, many)) h
              ∙ sym (looped_two looped (last_block tail bits_of) (new_block bits_of) len len')
              ∙ sym (
                  loop_on k 2 initial_states front (last_block tail bits_of ++ new_block bits_of) e)
              ∙ ap (whole_blocks (k + 2) initial_states) (sym form),
        )
  ]

-- `Digest` is the loop over whole blocks on the padded message, which is nothing but whole blocks:
-- the message, the bit 1, fewer than 64 zero bytes, and the number of bits in eight bytes.
pub digest-padded :
    (msg : Bytes)
    → (length (padded msg) % 64 ≡ 0)
      × (digest msg
          ≡ state_bytes (whole_blocks (length (padded msg) / 64) initial_states (padded msg)))
unfolding digest
digest-padded msg =
    let front : Bytes = take (64 * (length msg / 64)) msg in
    let tail : Bytes = drop (64 * (length msg / 64)) msg in
    let whole : front ++ tail ≡ msg = take-append-drop (64 * (length msg / 64)) msg in
    let (n, e, same) =
      states_padded (length msg / 64) front tail
        (omega (arith, length-take (64 * (length msg / 64)) msg))
        (omega (arith, length-drop (64 * (length msg / 64)) msg)) in
    (
      length-padded msg,
      ap state_bytes (
          ap final_states (sym whole)
          ∙ same
          ∙ ap₂ (λ k t. whole_blocks k initial_states (padded t))
              (e ∙ ap (λ t. length (padded t) / 64) whole) whole),
    )

twenty :
    (a b c d e : Bytes)
    → length (a ++ (b ++ (c ++ (d ++ e)))) ≡ length a + length b + length c + length d + length e
twenty a b c d e = omega (
  arith,
  length-append a (b ++ (c ++ (d ++ e))),
  length-append b (c ++ (d ++ e)),
  length-append c (d ++ e),
  length-append d e,
)

-- A digest is twenty bytes.
pub length-digest : (msg : Bytes) → (length (digest msg) ≡ 20) × All IsByte (digest msg)
unfolding digest state_bytes
length-digest msg =
    let r : Regs = final_states msg in
    let bytes : (n : ℕ) → All IsByte (big_endian 4 n) = big_endian-IsByte 4 in
    (
      omega (
        arith,
        twenty (big_endian 4 r.v) (big_endian 4 r.w) (big_endian 4 r.x) (big_endian 4 r.y)
            (big_endian 4 r.z),
        length-big_endian 4 r.v,
        length-big_endian 4 r.w,
        length-big_endian 4 r.x,
        length-big_endian 4 r.y,
        length-big_endian 4 r.z,
      ),
      All-append IsByte (big_endian 4 r.v) _ (bytes r.v) (
          All-append IsByte (big_endian 4 r.w) _ (bytes r.w) (
            All-append IsByte (big_endian 4 r.x) _ (bytes r.x)
              (All-append IsByte (big_endian 4 r.y) _ (bytes r.y) (bytes r.z)))),
    )
