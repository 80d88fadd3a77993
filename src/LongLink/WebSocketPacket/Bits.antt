-- ===== src/LongLink/WebSocketPacket/Bits.antt =====
-- The masks of the frame header as arithmetic, and masking as an involution.
use unixtar.Prelude.{
  ℕ, suc, ◌+◌, ◌*◌, ◌/◌, ◌%◌, Bool, true, false, not, [], ◌∷◌, ◌++◌, Bytes, IsByte, length, get_or,
  leb, ◌==◌, ==_iff, bit_and, bit_xor, arith, ◌≡◌, refl, sym, ap, ◌∙◌, All, if◌then◌else◌,
}
use unixtar.Prelude.Bits.{all_below, all_below_sound}
use unixtar.LongLink.WebSocketPacket.{has_bit, two_bytes, decode}

same_bool : Bool → Bool → Bool
same_bool true b = b
same_bool false b = not b

same_bool-eq : (a b : Bool) → same_bool a b ≡ true → a ≡ b
unfolding same_bool
same_bool-eq true true h = refl
same_bool-eq true false h = cc
same_bool-eq false true h = cc
same_bool-eq false false h = refl

-- The top bit says whether the byte is 128 or more.
pub has_bit-top : (b : ℕ) → IsByte b → has_bit b 0x80 ≡ leb 128 b
unfolding has_bit same_bool all_below
has_bit-top b h =
    same_bool-eq _ _ (all_below_sound 256 (λ b. same_bool (has_bit b 0x80) (leb 128 b)) b refl h)

pub low_seven : (b : ℕ) → IsByte b → bit_and b 0x7f ≡ b % 128
unfolding all_below
low_seven b h = (==_iff _ _).0 (all_below_sound 256 (λ b. bit_and b 0x7f == b % 128) b refl h)

pub low_four : (b : ℕ) → IsByte b → bit_and b 0x0f ≡ b % 16
unfolding all_below
low_four b h = (==_iff _ _).0 (all_below_sound 256 (λ b. bit_and b 0x0f == b % 16) b refl h)

-- The bits under the top one.
pub has_bit-rsv :
    (b : ℕ)
    → IsByte b
    → (has_bit b 0x40 ≡ (b / 64 % 2 == 1))
      × (has_bit b 0x20 ≡ (b / 32 % 2 == 1))
      × (has_bit b 0x10 ≡ (b / 16 % 2 == 1))
unfolding has_bit same_bool all_below
has_bit-rsv b h = (
  same_bool-eq _ _
      (all_below_sound 256 (λ b. same_bool (has_bit b 0x40) (b / 64 % 2 == 1)) b refl h),
  same_bool-eq _ _
      (all_below_sound 256 (λ b. same_bool (has_bit b 0x20) (b / 32 % 2 == 1)) b refl h),
  same_bool-eq _ _
      (all_below_sound 256 (λ b. same_bool (has_bit b 0x10) (b / 16 % 2 == 1)) b refl h),
)

high_part : (a : ℕ) → IsByte a → bit_and (a * 256) 0xff00 ≡ a * 256
unfolding all_below
high_part a h =
    (==_iff _ _).0 (all_below_sound 256 (λ a. bit_and (a * 256) 0xff00 == a * 256) a refl h)

low_part : (a : ℕ) → IsByte a → bit_and a 0xff ≡ a
unfolding all_below
low_part a h = (==_iff _ _).0 (all_below_sound 256 (λ a. bit_and a 0xff == a) a refl h)

-- Two bytes are read with the high one first.
pub two_bytes-eq : (a b : ℕ) → IsByte a → IsByte b → two_bytes a b ≡ a * 256 + b
unfolding two_bytes
two_bytes-eq a b ha hb = rw (high_part a ha, low_part b hb) refl

xor_table : all_below 256 (λ a. all_below 256 (λ b. bit_xor (bit_xor a b) b == a)) ≡ true
unfolding all_below
xor_table = refl

pub xor_twice : (a b : ℕ) → IsByte a → IsByte b → bit_xor (bit_xor a b) b ≡ a
xor_twice a b ha hb = (==_iff _ _).0 (
    all_below_sound 256 _ b
      (all_below_sound 256 (λ a. all_below 256 (λ b. bit_xor (bit_xor a b) b == a)) a xor_table ha)
      hb)

xor_first_table : all_below 256 (λ x. all_below 256 (λ a. bit_xor (bit_xor x a) x == a)) ≡ true
unfolding all_below
xor_first_table = refl

xor_first : (x a : ℕ) → IsByte x → IsByte a → bit_xor (bit_xor x a) x ≡ a
xor_first x a hx ha = (==_iff _ _).0 (
    all_below_sound 256 _ a
      (all_below_sound 256 (λ x. all_below 256 (λ a. bit_xor (bit_xor x a) x == a)) x
        xor_first_table hx)
      ha)

-- Different key bytes mask a byte differently.
pub xor_cancel : (x a b : ℕ) → IsByte x → IsByte a → IsByte b → bit_xor x a ≡ bit_xor x b → a ≡ b
xor_cancel x a b hx ha hb e =
    sym (xor_first x a hx ha) ∙ ap (λ y. bit_xor y x) e ∙ xor_first x b hx hb

abbrev pub IsKey : Bytes → Type 0
IsKey key = (i : ℕ) → IsByte (get_or key i 0)

-- Decoding with the key that masked the text gives the text back.
pub decode_twice :
    (key : Bytes) (i : ℕ) (s : Bytes)
    → IsKey key
    → All IsByte s
    → decode true key i (decode true key i s) ≡ s
unfolding decode
decode_twice key i [] k h = refl
decode_twice key i (x ∷ s) k h =
    rw (xor_twice x (get_or key (i % 4) 0) h.0 (k (i % 4)), decode_twice key (i + 1) s k h.1) refl

pub decode_unmasked : (key : Bytes) (i : ℕ) (s : Bytes) → decode false key i s ≡ s
unfolding decode
decode_unmasked key i [] = refl
decode_unmasked key i (x ∷ s) = ap (◌∷◌ x) (decode_unmasked key (i + 1) s)

pub length-decode :
    (m : Bool) (key : Bytes) (i : ℕ) (s : Bytes) → length (decode m key i s) ≡ length s
unfolding decode
length-decode m key i [] = refl
length-decode m key i (x ∷ s) = ap suc (length-decode m key (i + 1) s)

pub decode-append :
    (m : Bool) (key : Bytes) (i : ℕ) (s t : Bytes)
    → decode m key i (s ++ t) ≡ decode m key i s ++ decode m key (i + length s) t
unfolding decode
decode-append m key i [] t = ap (λ j. decode m key j t) (omega arith)
decode-append m key i (x ∷ s) t = ap (◌∷◌ (if m then bit_xor x (get_or key (i % 4) 0) else x)) (
    decode-append m key (i + 1) s t
    ∙ ap (λ j. decode m key (i + 1) s ++ decode m key j t) (omega arith))

-- The key repeats every four bytes.
pub decode_period :
    (m : Bool) (key : Bytes) (i j : ℕ) (t : Bytes)
    → i % 4 ≡ j % 4
    → decode m key i t ≡ decode m key j t
unfolding decode
decode_period m key i j [] h = refl
decode_period m key i j (x ∷ t) h = rw h (
    ap (◌∷◌ (if m then bit_xor x (get_or key (j % 4) 0) else x))
      (decode_period m key (i + 1) (j + 1) t (omega arith)))

-- A text masked as RFC 6455 has it: the key's four bytes are used in turn.
unfoldable pub masked : ℕ → ℕ → ℕ → ℕ → Bytes → Bytes
masked k0 k1 k2 k3 [] = []
masked k0 k1 k2 k3 (x ∷ s) = bit_xor x k0 ∷ masked k1 k2 k3 k0 s

pub decode-masked :
    (k0 k1 k2 k3 : ℕ) (s : Bytes) → decode true (k0 ∷ k1 ∷ k2 ∷ k3 ∷ []) 0 s ≡ masked k0 k1 k2 k3 s
unfolding decode masked
decode-masked k0 k1 k2 k3 [] = refl
decode-masked k0 k1 k2 k3 (x ∷ []) = refl
decode-masked k0 k1 k2 k3 (x ∷ y ∷ []) = refl
decode-masked k0 k1 k2 k3 (x ∷ y ∷ z ∷ []) = refl
decode-masked k0 k1 k2 k3 (x ∷ y ∷ z ∷ u ∷ s) =
    ap (λ t. bit_xor x k0 ∷ bit_xor y k1 ∷ bit_xor z k2 ∷ bit_xor u k3 ∷ t)
      (decode_period true (k0 ∷ k1 ∷ k2 ∷ k3 ∷ []) 4 0 s refl ∙ decode-masked k0 k1 k2 k3 s)
