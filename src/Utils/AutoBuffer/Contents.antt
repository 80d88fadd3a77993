-- ===== src/Utils/AutoBuffer/Contents.antt =====
-- `AutoBuffer::Write`: the buffer holds what was written, in order.
use unixtar.Prelude.{
  ℕ, zero, suc, ◌+◌, ◌-◌, ◌*◌, ◌/◌, ◌%◌, ◌^◌, ◌<◌, ◌≤◌, false, List, [], ◌∷◌, ◌++◌, some, Bytes,
  length, take, drop, replicate, length-append, length-take, length-drop, length-replicate,
  take-append_self, take-all, append_assoc, append-nil, arith, ◌≡◌, ◌≢◌, refl, sym, ap, ◌∙◌, inl,
  inr, ◌⊎◌, Bool-cases, ◌==◌, sub_size, sub_size_le,
}
use mathlib.Core.Option
use native.Mathlib.Nat.{mod-lt, div-add-mod', add-mul}
use unixtar.Utils.AutoBuffer.{
  null, own, AutoBuffer, rounded_up, resize, add_capacity, copied_to, append_bytes, write, contents,
}

-- A buffer that owns its bytes.
pub record IsValid (b : AutoBuffer) : Type 0 where
  pub owner : b.is_shallow_copy ≡ false
  pub pointer : (b.byte_array_p ≡ own) ⊎ ((b.byte_array_p ≡ null) × (b.capacity ≡ 0))
  pub filled : b.length_ ≤ b.capacity
  pub sized : length b.byte_array ≡ b.capacity
  pub unit : 0 < b.malloc_unit_size
  pub bounded : b.capacity < 2 ^ 64

take-append_less :
    {A : Type 0} (n : ℕ) (xs ys : List A) → n ≤ length xs → take n (xs ++ ys) ≡ take n xs
take-append_less zero xs ys h = refl
take-append_less (suc n) [] ys h = absurd (omega arith)
take-append_less (suc n) (x ∷ xs) ys h = ap (◌∷◌ x) (take-append_less n xs ys (omega arith))

length-resize : (n : ℕ) (xs : Bytes) → length xs ≤ n → length (resize n xs) ≡ n
unfolding resize
length-resize n xs h = omega (
  arith,
  length-append (take n xs) (replicate (n - length xs) 0),
  length-take n xs,
  length-replicate {A = ℕ} (n - length xs) 0,
)

take-resize :
    (k n : ℕ) (xs : Bytes) → length xs ≤ n → k ≤ length xs → take k (resize n xs) ≡ take k xs
unfolding resize
take-resize k n xs h l =
    ap (λ t. take k (t ++ replicate (n - length xs) 0)) (take-all n xs h)
    ∙ take-append_less k xs _ l

-- A size is rounded up by less than a unit.
rounded_up_lem :
    (n unit : ℕ)
    → 0 < unit
    → n + unit < 2 ^ 64
    → (n ≤ rounded_up n unit) × (rounded_up n unit < n + unit)
unfolding rounded_up
rounded_up_lem n unit h l = elim (Bool-cases (n % unit == 0)) [
  | inl e ↦ (rw e (omega arith), rw e (omega arith))
  | inr e ↦
      let parts : n / unit * unit + n % unit ≡ n = div-add-mod' n unit in
      let next : (n / unit + 1) * unit ≡ n / unit * unit + 1 * unit = add-mul (n / unit) 1 unit in
      let left : n % unit < unit = mod-lt n h in
      let some_left : n % unit ≢ 0 = (λ z. absurd (ground arith)) in
      (rw e (omega arith), rw e (omega arith))
]

take_none : {A : Type 0} (n : ℕ) (xs : List A) → length xs ≡ 0 → [] ≡ take n xs
take_none zero xs h = refl
take_none (suc n) [] h = refl
take_none (suc n) (x ∷ xs) h = absurd (omega arith)

contents_own : (b : AutoBuffer) → IsValid b → contents b ≡ take b.length_ b.byte_array
unfolding contents
contents_own b v = elim v.pointer [
  | inl e ↦ rw (e, contents) refl
  | inr (e, z) ↦ rw (e, contents) (take_none b.length_ b.byte_array (omega (arith, v.sized, z)))
]

add_capacity_owned :
    (n : ℕ) (b : AutoBuffer)
    → 0 < n
    → b.is_shallow_copy ≡ false
    → add_capacity n b
      ≡ some (record b {
        byte_array = resize ((b.capacity + rounded_up n b.malloc_unit_size) % 2 ^ 64) b.byte_array;
        capacity = (b.capacity + rounded_up n b.malloc_unit_size) % 2 ^ 64;
        byte_array_p = own;
      })
unfolding add_capacity
add_capacity_owned n b h e = ground arith

-- A buffer grows to at least the capacity asked for, and holds what it held.
add_capacity_lem :
    (n : ℕ) (b : AutoBuffer)
    → IsValid b
    → 0 < n
    → b.capacity + n + b.malloc_unit_size < 2 ^ 64
    → (b' : AutoBuffer) × (add_capacity n b ≡ some b')
      × IsValid b'
      × (b'.byte_array_p ≡ own)
      × (b.capacity + n ≤ b'.capacity)
      × (b'.length_ ≡ b.length_)
      × (b'.pos ≡ b.pos)
      × (contents b' ≡ contents b)
unfolding add_capacity
add_capacity_lem n b v h l =
    let added : ℕ = rounded_up n b.malloc_unit_size in
    let (low, high) = rounded_up_lem n b.malloc_unit_size v.unit (omega arith) in
    let total : ℕ = (b.capacity + added) % 2 ^ 64 in
    let total_is : total ≡ b.capacity + added = omega arith in
    let grown : AutoBuffer = record b {
      byte_array = resize total b.byte_array;
      capacity = total;
      byte_array_p = own;
    } in
    let fits : length b.byte_array ≤ total = omega (arith, v.sized) in
    let valid : IsValid grown = record {
      owner = v.owner;
      pointer = inl refl;
      filled = omega (arith, v.filled);
      sized = length-resize total b.byte_array fits;
      unit = v.unit;
      bounded = omega arith;
    } in
    (
      grown,
      add_capacity_owned n b h v.owner,
      valid,
      refl,
      omega arith,
      refl,
      refl,
      contents_own grown valid
          ∙ take-resize b.length_ total b.byte_array fits (omega (arith, v.filled, v.sized))
          ∙ sym (contents_own b v),
    )

append_bytes_lem :
    (bytes : Bytes) (b : AutoBuffer)
    → IsValid b
    → b.byte_array_p ≡ own
    → b.length_ + length bytes ≤ b.capacity
    → IsValid (append_bytes bytes b) × (contents (append_bytes bytes b) ≡ contents b ++ bytes)
unfolding append_bytes copied_to
append_bytes_lem bytes b v e h =
    let total : ℕ = (b.length_ + length bytes) % 2 ^ 64 in
    let total_is : total ≡ b.length_ + length bytes = omega (arith, v.bounded) in
    let front : Bytes = take b.length_ b.byte_array in
    let back : Bytes = drop (b.length_ + length bytes) b.byte_array in
    let front_len : length front ≡ b.length_ =
      omega (arith, length-take b.length_ b.byte_array, v.sized, v.filled) in
    let valid : IsValid (append_bytes bytes b) = record {
      owner = v.owner;
      pointer = inl e;
      filled = omega arith;
      sized = omega (
        arith,
        length-append front (bytes ++ back),
        length-append bytes back,
        length-drop (b.length_ + length bytes) b.byte_array,
        v.sized,
      );
      unit = v.unit;
      bounded = v.bounded;
    } in
    (
      valid,
      contents_own (append_bytes bytes b) valid
          ∙ ap (take total) (sym (append_assoc front bytes back))
          ∙ take-append_self (front ++ bytes) back total (omega (arith, length-append front bytes))
          ∙ ap (λ t. t ++ bytes) (sym (contents_own b v)),
    )

le_or_lt : (a c : ℕ) → (a ≤ c) ⊎ (c < a)
le_or_lt a c = ground arith

own_of : (b : AutoBuffer) → IsValid b → 0 < b.capacity → b.byte_array_p ≡ own
own_of b v h = elim v.pointer [ inl e ↦ e | inr (e, z) ↦ absurd (omega (arith, z)) ]

write_fits :
    (bytes : Bytes) (b : AutoBuffer)
    → 0 < length bytes
    → b.is_shallow_copy ≡ false
    → (b.length_ + length bytes) % 2 ^ 64 ≤ b.capacity
    → write bytes b ≡ some (append_bytes bytes b)
unfolding write
write_fits bytes b pos e h = ground arith

write_grows :
    (bytes : Bytes) (b : AutoBuffer)
    → 0 < length bytes
    → b.is_shallow_copy ≡ false
    → b.capacity < (b.length_ + length bytes) % 2 ^ 64
    → write bytes b
      ≡ Option.map
          (append_bytes bytes)
          (add_capacity (sub_size ((b.length_ + length bytes) % 2 ^ 64) b.capacity) b)
unfolding write
write_grows bytes b pos e h = ground arith

-- `Write` of bytes that fit in 64-bit sizes succeeds on a buffer that owns its bytes, and leaves such
-- a buffer: it holds what it held before, followed by the bytes, and the read position stays.
pub write_lem :
    (bytes : Bytes) (b : AutoBuffer)
    → IsValid b
    → b.capacity + length bytes + b.malloc_unit_size < 2 ^ 64
    → (b' : AutoBuffer) × (write bytes b ≡ some b')
      × IsValid b'
      × (contents b' ≡ contents b ++ bytes)
      × (b'.pos ≡ b.pos)
unfolding write append_bytes
write_lem [] b v h = (b, refl, v, sym (append-nil _), refl)
write_lem (x ∷ bytes) b v h =
    let n : ℕ = length (x ∷ bytes) in
    let whole : (b.length_ + n) % 2 ^ 64 ≡ b.length_ + n = omega (arith, v.filled) in
    elim (le_or_lt (b.length_ + n) b.capacity) [
      | inl fits ↦
          let (valid, e) = append_bytes_lem (x ∷ bytes) b v (own_of b v (omega arith)) fits in
          (
            append_bytes (x ∷ bytes) b,
            write_fits (x ∷ bytes) b (omega arith) v.owner (omega arith),
            valid,
            e,
            refl,
          )
      | inr lacks ↦
          let lacking : sub_size ((b.length_ + n) % 2 ^ 64) b.capacity
              ≡ b.length_ + n - b.capacity =
            ap (λ t. sub_size t b.capacity) whole
            ∙ sub_size_le (b.length_ + n) b.capacity (omega arith) in
          let (b', grown, valid', is_own, size, len, pos, same) =
            add_capacity_lem (b.length_ + n - b.capacity) b v (omega arith)
              (omega (arith, v.filled)) in
          let (valid, e) =
            append_bytes_lem (x ∷ bytes) b' valid' is_own (omega (arith, len, size)) in
          (
            append_bytes (x ∷ bytes) b',
            write_grows (x ∷ bytes) b (omega arith) v.owner (omega arith)
                ∙ ap (λ t. Option.map (append_bytes (x ∷ bytes)) (add_capacity t b)) lacking
                ∙ ap (Option.map (append_bytes (x ∷ bytes))) grown,
            valid,
            e ∙ ap (λ t. t ++ x ∷ bytes) same,
            pos,
          )
    ]
