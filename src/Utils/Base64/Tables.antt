-- ===== src/Utils/Base64/Tables.antt =====
-- The two tables undo one another, and the masks of the code as arithmetic.
use unixtar.Prelude.{
  ℕ, ◌+◌, ◌*◌, ◌%◌, ◌<◌, Bool, false, not, ◌&&◌, ◌≡◌, refl, ◌==◌, ==_iff, leb, ltb, arith, IsByte,
  bit_and, bit_or,
}
use unixtar.Prelude.Bits.{all_below, all_below_sound}
use unixtar.Utils.Base64.{padding, sextet, decode_entry}

good : ℕ → Bool
good i =
    decode_entry (sextet i) == i
    && (not (sextet i == padding) && (leb (sextet i) 127 && leb 33 (sextet i)))

-- A character that stands for six bits is none of the special ones, and is decoded to these bits.
pub sextet_good :
    (i : ℕ)
    → i < 64
    → (decode_entry (sextet i) ≡ i) × ((sextet i == padding) ≡ false) × (ltb 127 (sextet i) ≡ false)
unfolding good
sextet_good i h =
    ground (arith, all_below_sound 64 good i (unfold all_below decode_entry sextet in refl) h)

pub mask_six : (b : ℕ) → b < 64 → bit_and b 0x3f ≡ b
mask_six b h =
    (==_iff _ _).0 (all_below_sound 64 (λ b. bit_and b 0x3f == b) b (unfold all_below in refl) h)

pub mask_six_byte : (b : ℕ) → IsByte b → bit_and b 0x3f ≡ b % 64
mask_six_byte b h =
    (==_iff _ _).0
      (all_below_sound 256 (λ b. bit_and b 0x3f == b % 64) b (unfold all_below in refl) h)

pub mask_four : (b : ℕ) → IsByte b → bit_and b 0xf ≡ b % 16
mask_four b h =
    (==_iff _ _).0
      (all_below_sound 256 (λ b. bit_and b 0xf == b % 16) b (unfold all_below in refl) h)

pub mask_two : (b : ℕ) → IsByte b → bit_and b 0x3 ≡ b % 4
mask_two b h =
    (==_iff _ _).0
      (all_below_sound 256 (λ b. bit_and b 0x3 == b % 4) b (unfold all_below in refl) h)

pub mask_eight : (b : ℕ) → IsByte b → bit_and b 0xff ≡ b
mask_eight b h =
    (==_iff _ _).0 (all_below_sound 256 (λ b. bit_and b 0xff == b) b (unfold all_below in refl) h)

pub or_16 : (a b : ℕ) → a < 4 → b < 16 → bit_or (a * 16) b ≡ a * 16 + b
or_16 a b ha hb = (==_iff _ _).0 (
    all_below_sound 16 (λ b. bit_or (a * 16) b == a * 16 + b) b
      (all_below_sound 4 (λ a. all_below 16 (λ b. bit_or (a * 16) b == a * 16 + b)) a
        (unfold all_below in refl) ha)
      hb)

pub or_4 : (a b : ℕ) → a < 16 → b < 4 → bit_or (a * 4) b ≡ a * 4 + b
or_4 a b ha hb = (==_iff _ _).0 (
    all_below_sound 4 (λ b. bit_or (a * 4) b == a * 4 + b) b
      (all_below_sound 16 (λ a. all_below 4 (λ b. bit_or (a * 4) b == a * 4 + b)) a
        (unfold all_below in refl) ha)
      hb)
