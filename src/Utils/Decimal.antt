-- ===== src/Utils/Decimal.antt =====
-- The number formatting of the C library that the HTTP layer calls: `%zu` and `%u` of `snprintf`,
-- `strtoul` and the digits that `std::stoi` reads.
use unixtar.Prelude.{
  ℕ, zero, suc, ◌+◌, ◌-◌, ◌*◌, ◌/◌, ◌%◌, ◌^◌, ◌≤◌, ◌<◌, Bool, true, false, ◌&&◌, ◌||◌, [], ◌∷◌,
  Bytes, length, take, leb, ltb, ◌==◌, if◌then◌else◌, arith, ◌≡◌, ap, ◌∙◌, All, take-all,
}

-- The decimal digits of `n` in front of `acc`.
unfoldable pub decimal_loop : ℕ → ℕ → Bytes → Bytes
decimal_loop zero n acc = acc
decimal_loop (suc fuel) n acc = elim (ltb n 10) [
  | true ↦ (b'0' + n) ∷ acc
  | false ↦ decimal_loop fuel (n / 10) ((b'0' + n % 10) ∷ acc)
]

-- `n + 1` rounds are enough for the digits of `n`.
unfoldable pub decimal : ℕ → Bytes
unfolding decimal_loop
decimal n = decimal_loop (suc n) n []

unfoldable pub is_digit : ℕ → Bool
is_digit c = leb b'0' c && leb c b'9'

unfoldable pub is_space : ℕ → Bool
is_space c = c == b' ' || (leb 9 c && leb c 13)

-- The number that the leading digits of a text stand for, without a bound.
unfoldable pub digits_value : ℕ → Bytes → ℕ
unfolding is_digit
digits_value acc [] = acc
digits_value acc (c ∷ cs) = if is_digit c then digits_value (acc * 10 + (c - b'0')) cs else acc

unfoldable pub skip_spaces : Bytes → Bytes
unfolding is_space
skip_spaces [] = []
skip_spaces (c ∷ cs) = if is_space c then skip_spaces cs else c ∷ cs

-- `unsigned long` has 64 bits; a value that does not fit gives ULONG_MAX.
unfoldable pub clamp_ulong : ℕ → ℕ
clamp_ulong n = if ltb n (2 ^ 64) then n else 2 ^ 64 - 1

-- `strtoul(s, nullptr, 10)` behind the white space: a minus sign negates modulo 2 ^ 64, except
-- for the value out of range.
unfoldable pub strtoul_signed : Bytes → ℕ
unfolding digits_value clamp_ulong
strtoul_signed [] = 0
strtoul_signed (c ∷ cs) =
    if c == b'-'
    then (if ltb (digits_value 0 cs) (2 ^ 64)
        then (2 ^ 64 - digits_value 0 cs) % 2 ^ 64
        else 2 ^ 64 - 1)
    else if c == b'+'
    then clamp_ulong (digits_value 0 cs)
    else clamp_ulong (digits_value 0 (c ∷ cs))

unfoldable pub strtoul : Bytes → ℕ
unfolding strtoul_signed skip_spaces
strtoul s = strtoul_signed (skip_spaces s)

digits_value-decimal_loop :
    (fuel n : ℕ) (acc : Bytes)
    → n < fuel
    → digits_value 0 (decimal_loop fuel n acc) ≡ digits_value n acc
unfolding digits_value decimal_loop
digits_value-decimal_loop zero n acc h = absurd (omega arith)
digits_value-decimal_loop (suc fuel) n acc h =
    ground (arith, digits_value-decimal_loop fuel (n / 10) ((b'0' + n % 10) ∷ acc))

decimal_loop-length :
    (k fuel n : ℕ) (acc : Bytes)
    → n < 10 ^ suc k
    → length (decimal_loop fuel n acc) ≤ suc k + length acc
unfolding decimal_loop
decimal_loop-length k zero n acc h = omega arith
decimal_loop-length zero (suc fuel) n acc h = ground arith
decimal_loop-length (suc k) (suc fuel) n acc h =
    ground (arith, decimal_loop-length k fuel (n / 10) ((b'0' + n % 10) ∷ acc))

decimal_loop-ne-nil :
    (fuel n : ℕ) (acc : Bytes) → length acc < length (decimal_loop (suc fuel) n acc)
unfolding decimal_loop
decimal_loop-ne-nil zero n acc = ground arith
decimal_loop-ne-nil (suc fuel) n acc =
    ground (arith, decimal_loop-ne-nil fuel (n / 10) ((b'0' + n % 10) ∷ acc))

abbrev pub IsDigit : ℕ → Type 0
IsDigit c = (b'0' ≤ c) × (c ≤ b'9')

decimal_loop-IsDigit :
    (fuel n : ℕ) (acc : Bytes) → All IsDigit acc → All IsDigit (decimal_loop fuel n acc)
unfolding decimal_loop
decimal_loop-IsDigit zero n acc h = h
decimal_loop-IsDigit (suc fuel) n acc h =
    ground (arith, decimal_loop-IsDigit fuel (n / 10) ((b'0' + n % 10) ∷ acc))

strtoul-IsDigit :
    (s : Bytes) → All IsDigit s → 0 < length s → strtoul s ≡ clamp_ulong (digits_value 0 s)
unfolding strtoul
strtoul-IsDigit [] h n = absurd (omega arith)
strtoul-IsDigit (c ∷ s) h n = ground arith

pub decimal-IsDigit : (n : ℕ) → All IsDigit (decimal n) × (0 < length (decimal n))
unfolding decimal
decimal-IsDigit n =
    (decimal_loop-IsDigit (suc n) n [] tt, omega (arith, decimal_loop-ne-nil n n []))

pub decimal-length : (k n : ℕ) → n < 10 ^ suc k → length (decimal n) ≤ suc k
unfolding decimal
decimal-length k n h = omega (arith, decimal_loop-length k (suc n) n [] h)

-- `snprintf(len_str, 9, "%zu", n)` keeps eight digits.
unfoldable pub snprintf_len : ℕ → Bytes
unfolding decimal
snprintf_len n = take 8 (decimal n)

pub snprintf_len-decimal : (n : ℕ) → n < 10 ^ 8 → snprintf_len n ≡ decimal n
unfolding snprintf_len
snprintf_len-decimal n h = take-all 8 _ (omega (arith, decimal_loop-length 7 (suc n) n []))

pub digits_value-decimal : (n : ℕ) → digits_value 0 (decimal n) ≡ n
unfolding decimal digits_value
digits_value-decimal n = digits_value-decimal_loop (suc n) n [] (omega arith)

clamp_ulong_self : (n : ℕ) → n < 2 ^ 64 → clamp_ulong n ≡ n
unfolding clamp_ulong
clamp_ulong_self n h = ground arith

-- `strtoul` reads back every 64-bit number that `%zu` prints.
pub strtoul-decimal : (n : ℕ) → n < 2 ^ 64 → strtoul (decimal n) ≡ n
strtoul-decimal n h =
    let (d, ne) = decimal-IsDigit n in
    strtoul-IsDigit (decimal n) d ne
    ∙ ap clamp_ulong (digits_value-decimal n)
    ∙ clamp_ulong_self n h
