-- ===== src/Utils/Base64/RoundTrip.antt =====
-- `Decode` undoes `Encode`.
use unixtar.Prelude.{
  ℕ, ◌+◌, ◌*◌, ◌/◌, ◌%◌, ◌<◌, true, [], ◌∷◌, ◌++◌, Bytes, IsByte, length, append_assoc, ◌≡◌, refl,
  sym, ap, ap₂, ◌∙◌, arith, All, append-nil, ◌==◌, bit_and, bit_or,
}
use unixtar.Utils.Base64.{
  padding, sextet, Where, at_0, at_1, at_2, at_3, encode_loop, encode_byte, encode_end, encode,
  decoded, out_of_table, decode_sextet, next_decode, decode_loop, decode,
}
use unixtar.Utils.Base64.Tables.{
  sextet_good, mask_six, mask_six_byte, mask_four, mask_two, mask_eight, or_16, or_4,
}

-- The six-bit groups of a byte, and of a byte with the one before.
abbrev g0 : ℕ → ℕ
g0 a = a / 4

abbrev g1 : ℕ → ℕ → ℕ
g1 a b = a % 4 * 16 + b / 16

abbrev g2 : ℕ → ℕ → ℕ
g2 b c = b % 16 * 4 + c / 64

abbrev g3 : ℕ → ℕ
g3 c = c % 64

encode_0 : (last a : ℕ) → IsByte a → encode_byte at_0 last a ≡ sextet (g0 a) ∷ []
unfolding encode_byte
encode_0 last a h = ap (λ i. sextet i ∷ []) (mask_six (a / 4) (omega arith))

encode_1 : (a b : ℕ) → IsByte a → IsByte b → encode_byte at_1 a b ≡ sextet (g1 a b) ∷ []
unfolding encode_byte
encode_1 a b ha hb = ap (λ i. sextet i ∷ []) group
  where
    group : bit_or (bit_and a 0x3 * 16) (bit_and (b / 16) 0xf) ≡ g1 a b
    group =
        rw (mask_two a ha, mask_four (b / 16) (omega arith))
          (omega (arith, or_16 (a % 4) (b / 16 % 16) (omega arith) (omega arith)))

encode_2 :
    (b c : ℕ) → IsByte b → IsByte c → encode_byte at_2 b c ≡ sextet (g2 b c) ∷ sextet (g3 c) ∷ []
unfolding encode_byte
encode_2 b c hb hc = ap₂ (λ i j. sextet i ∷ sextet j ∷ []) group (mask_six_byte c hc)
  where
    group : bit_or (bit_and b 0xf * 4) (bit_and (c / 64) 0x3) ≡ g2 b c
    group =
        rw (mask_four b hb, mask_two (c / 64) (omega arith))
          (omega (arith, or_4 (b % 16) (c / 64 % 4) (omega arith) (omega arith)))

end_1 : (a : ℕ) → IsByte a → encode_end at_1 a ≡ sextet (g1 a 0) ∷ padding ∷ padding ∷ []
unfolding encode_end
end_1 a h = ap (λ i. sextet i ∷ padding ∷ padding ∷ []) group
  where
    group : bit_and a 0x3 * 16 ≡ g1 a 0
    group = omega (arith, mask_two a h)

end_2 : (b : ℕ) → IsByte b → encode_end at_2 b ≡ sextet (g2 b 0) ∷ padding ∷ []
unfolding encode_end
end_2 b h = ap (λ i. sextet i ∷ padding ∷ []) group
  where
    group : bit_and b 0xf * 4 ≡ g2 b 0
    group = omega (arith, mask_four b h)

encode_three :
    (last a b c : ℕ) (rest : Bytes)
    → IsByte a
    → IsByte b
    → IsByte c
    → encode_loop at_0 last (a ∷ b ∷ c ∷ rest)
      ≡ sextet (g0 a) ∷ sextet (g1 a b) ∷ sextet (g2 b c) ∷ sextet (g3 c) ∷ encode_loop at_0 c rest
unfolding encode_loop
encode_three last a b c rest ha hb hc =
    ap₂ (λ s t. s ++ t) (encode_0 last a ha)
      (ap₂ (λ s t. s ++ t) (encode_1 a b ha hb)
        (ap (λ s. s ++ encode_loop at_0 c rest) (encode_2 b c hb hc)))

-- One round of `Decode` on a character that `Encode` writes.
decode_char :
    (place : Where) (last i : ℕ) (input res : Bytes)
    → i < 64
    → decode_loop place last (sextet i ∷ input) res
      ≡ decode_loop (next_decode place) i input (res ++ decode_sextet place last i)
unfolding decode_loop
decode_char place last i input res h = ground (arith, sextet_good i h)

decode_pad :
    (place : Where) (last : ℕ) (input res : Bytes)
    → decode_loop place last (padding ∷ input) res ≡ decoded res
unfolding decode_loop
decode_pad place last input res = refl

decode_0 : (last i : ℕ) (res : Bytes) → res ++ decode_sextet at_0 last i ≡ res
unfolding decode_sextet
decode_0 last i res = append-nil res

decode_1 : (i j x : ℕ) → i < 64 → j < 64 → i * 4 + j / 16 ≡ x → decode_sextet at_1 i j ≡ x ∷ []
unfolding decode_sextet
decode_1 i j x hi hj e = ap (λ y. y ∷ []) byte
  where
    byte : bit_and (i * 4) 0xff + bit_and (j / 16) 0x3 ≡ x
    byte = omega (arith, mask_eight (i * 4) (omega arith), mask_two (j / 16) (omega arith))

decode_2 : (i j x : ℕ) → i < 64 → j < 64 → i % 16 * 16 + j / 4 ≡ x → decode_sextet at_2 i j ≡ x ∷ []
unfolding decode_sextet
decode_2 i j x hi hj e = ap (λ y. y ∷ []) byte
  where
    byte : bit_and i 0xf * 16 + bit_and (j / 4) 0xf ≡ x
    byte = omega (arith, mask_four i (omega arith), mask_four (j / 4) (omega arith))

decode_3 : (i j x : ℕ) → i < 64 → j < 64 → i % 4 * 64 + j ≡ x → decode_sextet at_3 i j ≡ x ∷ []
unfolding decode_sextet
decode_3 i j x hi hj e = ap (λ y. y ∷ []) byte
  where
    byte : bit_and i 0x3 * 64 + bit_and j 0x3f ≡ x
    byte = omega (arith, mask_two i (omega arith), mask_six j hj)

-- The first two characters of a group give its first byte, and so on.
first_of_group :
    (last a b : ℕ) (input res : Bytes)
    → IsByte a
    → IsByte b
    → decode_loop at_0 last (sextet (g0 a) ∷ sextet (g1 a b) ∷ input) res
      ≡ decode_loop at_2 (g1 a b) input (res ++ a ∷ [])
unfolding next_decode
first_of_group last a b input res ha hb =
    decode_char at_0 last (g0 a) _ res (omega arith)
    ∙ ap (decode_loop at_1 (g0 a) (sextet (g1 a b) ∷ input)) (decode_0 last (g0 a) res)
    ∙ decode_char at_1 (g0 a) (g1 a b) input res (omega arith)
    ∙ ap (λ d. decode_loop at_2 (g1 a b) input (res ++ d))
        (decode_1 (g0 a) (g1 a b) a (omega arith) (omega arith) (omega arith))

second_of_group :
    (a b c : ℕ) (input res : Bytes)
    → IsByte a
    → IsByte b
    → IsByte c
    → decode_loop at_2 (g1 a b) (sextet (g2 b c) ∷ input) res
      ≡ decode_loop at_3 (g2 b c) input (res ++ b ∷ [])
unfolding next_decode
second_of_group a b c input res ha hb hc =
    decode_char at_2 (g1 a b) (g2 b c) input res (omega arith)
    ∙ ap (λ d. decode_loop at_3 (g2 b c) input (res ++ d))
        (decode_2 (g1 a b) (g2 b c) b (omega arith) (omega arith) (omega arith))

third_of_group :
    (b c : ℕ) (input res : Bytes)
    → IsByte b
    → IsByte c
    → decode_loop at_3 (g2 b c) (sextet (g3 c) ∷ input) res
      ≡ decode_loop at_0 (g3 c) input (res ++ c ∷ [])
unfolding next_decode
third_of_group b c input res hb hc =
    decode_char at_3 (g2 b c) (g3 c) input res (omega arith)
    ∙ ap (λ d. decode_loop at_0 (g3 c) input (res ++ d))
        (decode_3 (g2 b c) (g3 c) c (omega arith) (omega arith) (omega arith))

encode_one :
    (last a : ℕ)
    → IsByte a
    → encode_loop at_0 last (a ∷ []) ≡ sextet (g0 a) ∷ sextet (g1 a 0) ∷ padding ∷ padding ∷ []
unfolding encode_loop
encode_one last a h = ap₂ (λ s t. s ++ t) (encode_0 last a h) (end_1 a h)

encode_two :
    (last a b : ℕ)
    → IsByte a
    → IsByte b
    → encode_loop at_0 last (a ∷ b ∷ [])
      ≡ sextet (g0 a) ∷ sextet (g1 a b) ∷ sextet (g2 b 0) ∷ padding ∷ []
unfolding encode_loop
encode_two last a b ha hb =
    ap₂ (λ s t. s ++ t) (encode_0 last a ha) (ap₂ (λ s t. s ++ t) (encode_1 a b ha hb) (end_2 b hb))

decode_loop-encode_loop :
    (last prev : ℕ) (input res : Bytes)
    → All IsByte input
    → decode_loop at_0 last (encode_loop at_0 prev input) res ≡ decoded (res ++ input)
decode_loop-encode_loop last prev [] res h =
    unfold decode_loop encode_loop encode_end in ap decoded (sym (append-nil res))
decode_loop-encode_loop last prev (a ∷ []) res h =
    ap (λ t. decode_loop at_0 last t res) (encode_one prev a h.0)
    ∙ first_of_group last a 0 _ res h.0 (omega arith)
    ∙ decode_pad at_2 (g1 a 0) _ (res ++ a ∷ [])
decode_loop-encode_loop last prev (a ∷ b ∷ []) res h =
    ap (λ t. decode_loop at_0 last t res) (encode_two prev a b h.0 h.1.0)
    ∙ first_of_group last a b _ res h.0 h.1.0
    ∙ second_of_group a b 0 _ (res ++ a ∷ []) h.0 h.1.0 (omega arith)
    ∙ decode_pad at_3 (g2 b 0) _ _
    ∙ ap decoded (append_assoc res (a ∷ []) (b ∷ []))
decode_loop-encode_loop last prev (a ∷ b ∷ c ∷ rest) res h =
    ap (λ t. decode_loop at_0 last t res) (encode_three prev a b c rest h.0 h.1.0 h.1.1.0)
    ∙ first_of_group last a b _ res h.0 h.1.0
    ∙ second_of_group a b c _ (res ++ a ∷ []) h.0 h.1.0 h.1.1.0
    ∙ third_of_group b c _ ((res ++ a ∷ []) ++ b ∷ []) h.1.0 h.1.1.0
    ∙ decode_loop-encode_loop (g3 c) c rest _ h.1.1.1
    ∙ ap decoded (simp append_assoc)

length-encode_loop :
    (prev : ℕ) (input : Bytes)
    → All IsByte input
    → length (encode_loop at_0 prev input) ≡ 4 * ((length input + 2) / 3)
length-encode_loop prev [] h = unfold encode_loop encode_end in refl
length-encode_loop prev (a ∷ []) h = ap length (encode_one prev a h.0)
length-encode_loop prev (a ∷ b ∷ []) h = ap length (encode_two prev a b h.0 h.1.0)
length-encode_loop prev (a ∷ b ∷ c ∷ rest) h =
    ap length (encode_three prev a b c rest h.0 h.1.0 h.1.1.0)
    ∙ omega (arith, length-encode_loop c rest h.1.1.1)

decode_loop_high :
    (last prev : ℕ) (input rest res : Bytes) (x : ℕ)
    → All IsByte input
    → length input % 3 ≡ 0
    → 127 < x
    → decode_loop at_0 last (encode_loop at_0 prev input ++ x ∷ rest) res ≡ out_of_table
decode_loop_high last prev [] rest res x h three hi =
    unfold decode_loop encode_loop encode_end in ground arith
decode_loop_high last prev (a ∷ []) rest res x h three hi = absurd (omega arith)
decode_loop_high last prev (a ∷ b ∷ []) rest res x h three hi = absurd (omega arith)
decode_loop_high last prev (a ∷ b ∷ c ∷ input) rest res x h three hi =
    ap (λ t. decode_loop at_0 last (t ++ x ∷ rest) res)
      (encode_three prev a b c input h.0 h.1.0 h.1.1.0)
    ∙ first_of_group last a b _ res h.0 h.1.0
    ∙ second_of_group a b c _ (res ++ a ∷ []) h.0 h.1.0 h.1.1.0
    ∙ third_of_group b c _ ((res ++ a ∷ []) ++ b ∷ []) h.1.0 h.1.1.0
    ∙ decode_loop_high (g3 c) c input rest _ x h.1.1.1 (omega arith) hi

-- The encoded text of bytes has four characters for each three bytes begun.
pub length-encode :
    (input : Bytes) → All IsByte input → length (encode input) ≡ 4 * ((length input + 2) / 3)
unfolding encode
length-encode input h = length-encode_loop 0 input h

-- `Decode` gives back every byte string that `Encode` was given.
pub decode-encode : (input : Bytes) → All IsByte input → decode (encode input) ≡ decoded input
unfolding decode
decode-encode input h =
    rw (multiple (encode input) (omega (arith, length-encode input h)))
      (unfold encode in decode_loop-encode_loop 255 0 input [] h)
  where
    multiple : (t : Bytes) → length t % 4 ≡ 0 → (length t % 4 == 0) ≡ true
    multiple t e = ground arith

-- A byte from 128 on behind whole groups, in a text of a length divisible by four, makes
-- `Decode` read outside its table, since `char` is signed: the text before it is decoded, and
-- then the behaviour is undefined.
pub decode_high_byte :
    (input rest : Bytes) (x : ℕ)
    → All IsByte input
    → length input % 3 ≡ 0
    → 127 < x
    → length (encode input ++ x ∷ rest) % 4 ≡ 0
    → decode (encode input ++ x ∷ rest) ≡ out_of_table
unfolding decode
decode_high_byte input rest x h three hi four =
    rw (multiple (encode input ++ x ∷ rest) four)
      (unfold encode in decode_loop_high 255 0 input rest [] x h three hi)
  where
    multiple : (t : Bytes) → length t % 4 ≡ 0 → (length t % 4 == 0) ≡ true
    multiple t e = ground arith
