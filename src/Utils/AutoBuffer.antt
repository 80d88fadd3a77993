-- ===== src/Utils/AutoBuffer.antt =====
-- utils/autobuffer.h and utils/autobuffer.cc: the growing byte buffer that the packers write to.
pub mod Contents
use unixtar.Prelude.{
  ℕ, ◌+◌, ◌-◌, ◌*◌, ◌/◌, ◌%◌, ◌^◌, Bool, true, false, List, [], ◌++◌, Option, none, some, Bytes,
  length, take, drop, replicate, ltb, ◌==◌, if◌then◌else◌, sub_size,
}
use mathlib.Core.Option

-- Where `byte_array_p_` points: nowhere, at the buffer's own vector, or at bytes of a caller.
pub data Pointer : Type 0 where
  null own : Pointer
  shallow : Bytes → Pointer

pub record AutoBuffer : Type 0 where
  pub byte_array_p : Pointer
  pub is_shallow_copy : Bool
  pub byte_array : Bytes
  pub pos : ℕ
  pub length_ : ℕ
  pub capacity : ℕ
  pub malloc_unit_size : ℕ

pub data Whence : Type 0 where
  start current end : Whence

abbrev pub new_auto_buffer : ℕ → AutoBuffer
new_auto_buffer unit = record {
  byte_array_p = null;
  is_shallow_copy = false;
  byte_array = [];
  pos = 0;
  length_ = 0;
  capacity = 0;
  malloc_unit_size = unit;
}

-- The size to add, as a multiple of the unit.
unfoldable pub rounded_up : ℕ → ℕ → ℕ
rounded_up size unit = if size % unit == 0 then size else (size / unit + 1) * unit % 2 ^ 64

-- `resize` of a vector of char, which fills with zeros.
unfoldable pub resize : ℕ → Bytes → Bytes
resize n bytes = take n bytes ++ replicate (n - length bytes) 0

-- `AddCapacity`; `none` is a failed assertion.
unfoldable pub add_capacity : ℕ → AutoBuffer → Option AutoBuffer
unfolding rounded_up resize
add_capacity size b =
    if size == 0
    then some b
    else if b.is_shallow_copy
    then none
    else let added = rounded_up size b.malloc_unit_size in
      some (record b {
        byte_array = resize ((b.capacity + added) % 2 ^ 64) b.byte_array;
        capacity = (b.capacity + added) % 2 ^ 64;
        byte_array_p = own;
      })

-- `memcpy` to an offset of the vector.
unfoldable pub copied_to : ℕ → Bytes → Bytes → Bytes
copied_to offset bytes into = take offset into ++ (bytes ++ drop (offset + length bytes) into)

-- What `Write` does when the capacity is there.
unfoldable pub append_bytes : Bytes → AutoBuffer → AutoBuffer
unfolding copied_to
append_bytes bytes b = record b {
  byte_array = copied_to b.length_ bytes b.byte_array;
  length_ = (b.length_ + length bytes) % 2 ^ 64;
}

-- `Write` of the bytes at a pointer that is not null.
unfoldable pub write : Bytes → AutoBuffer → Option AutoBuffer
unfolding add_capacity append_bytes sub_size
write bytes b =
    if length bytes == 0
    then some b
    else if b.is_shallow_copy
    then none
    else if ltb b.capacity ((b.length_ + length bytes) % 2 ^ 64)
    then Option.map (append_bytes bytes)
        (add_capacity (sub_size ((b.length_ + length bytes) % 2 ^ 64) b.capacity) b)
    else some (append_bytes bytes b)

unfoldable pub seek : Whence → ℕ → AutoBuffer → AutoBuffer
seek start n b = record b { pos = 0 }
seek current n b = record b { pos = (b.pos + n) % 2 ^ 64 }
seek end n b = record b { pos = b.length_ }

unfoldable pub set_length : ℕ → AutoBuffer → AutoBuffer
set_length n b = record b { length_ = n }

unfoldable pub add_length : ℕ → AutoBuffer → AutoBuffer
add_length n b = record b { length_ = (b.length_ + n) % 2 ^ 64 }

unfoldable pub available_size : AutoBuffer → ℕ
unfolding sub_size
available_size b = sub_size b.capacity b.length_

unfoldable pub shallow_copy_from : Bytes → ℕ → AutoBuffer → AutoBuffer
unfolding set_length
shallow_copy_from bytes n b = record (set_length n (record b { byte_array_p = shallow bytes })) {
  is_shallow_copy = true;
  byte_array = [];
}

unfoldable pub reset : AutoBuffer → AutoBuffer
reset b = record b {
  capacity = 0;
  length_ = 0;
  pos = 0;
  byte_array = [];
  byte_array_p = null;
  is_shallow_copy = false;
}

-- What a reader finds: `Length()` bytes from `Ptr()` on.
unfoldable pub contents : AutoBuffer → Bytes
contents b = elim b.byte_array_p [
  | null ↦ []
  | own ↦ take b.length_ b.byte_array
  | shallow bytes ↦ take b.length_ bytes
]
