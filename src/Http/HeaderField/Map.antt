-- ===== src/Http/HeaderField/Map.antt =====
-- `header_fields_` as a map: it stays sorted by key, a field that was written is read back, and
-- no other field changes.
use unixtar.Prelude.{
  true, [], ◌∷◌, ◌++◌, some, Bytes, arith, ◌≡◌, ◌≢◌, refl, All, equal, equal_iff, c_str_self,
  if◌then◌else◌,
}
use unixtar.Http.HeaderField.{HeaderField, bytes_lt, insert_or_update, get_field}
use unixtar.Http.HeaderField.Order.{bytes_lt_trans, bytes_lt_total, bytes_lt_asym, bytes_lt-ne}

abbrev pub Above : Bytes → HeaderField → Type 0
Above k = All (λ p. bytes_lt k p.0 ≡ true)

-- The keys rise along the list, so none stands twice.
abbrev pub IsSorted : HeaderField → Type 0
IsSorted [] = Unit
IsSorted ((k, v) ∷ fields) = Above k fields × IsSorted fields

Above-trans :
    (j k : Bytes) (fields : HeaderField) → bytes_lt j k ≡ true → Above k fields → Above j fields
Above-trans j k [] h a = tt
Above-trans j k (p ∷ fields) h a = (bytes_lt_trans j k p.0 h a.0, Above-trans j k fields h a.1)

insert-Above :
    (j key value : Bytes) (fields : HeaderField)
    → bytes_lt j key ≡ true
    → Above j fields
    → Above j (insert_or_update key value fields)
unfolding insert_or_update
insert-Above j key value [] h a = (h, tt)
insert-Above j key value ((k, v) ∷ fields) h a = ground (arith, insert-Above j key value fields h)

-- Writing a field keeps the keys sorted and apart.
pub insert_or_update-IsSorted :
    (key value : Bytes) (fields : HeaderField)
    → IsSorted fields
    → IsSorted (insert_or_update key value fields)
unfolding insert_or_update
insert_or_update-IsSorted key value [] s = (tt, tt)
insert_or_update-IsSorted key value ((k, v) ∷ fields) s = ground (
  arith,
  Above-trans key k fields,
  bytes_lt_total key k,
  insert-Above k key value fields,
  insert_or_update-IsSorted key value fields s.1,
)

abbrev pub NoNul : Bytes → Type 0
NoNul = All (λ x. x ≢ 0)

-- The map holds C strings without a NUL inside.
abbrev pub IsText : HeaderField → Type 0
IsText = All (λ p. NoNul p.0 × NoNul p.1)

-- After a write the field reads as the new value, and every other field as before, when no key
-- or value has a NUL.
pub get_field-insert_or_update :
    (key value field : Bytes) (fields : HeaderField)
    → NoNul key
    → NoNul value
    → IsText fields
    → get_field (insert_or_update key value fields) field
      ≡ (if equal key field then some value else get_field fields field)
unfolding insert_or_update get_field
get_field-insert_or_update key value field [] nk nv t =
    rw (c_str_self key nk, c_str_self value nv) refl
get_field-insert_or_update key value field ((k, v) ∷ fields) nk nv t = ground (
  arith,
  c_str_self key nk,
  c_str_self value nv,
  c_str_self k t.0.0,
  c_str_self v t.0.1,
  equal_iff key k,
  equal_iff key field,
  equal_iff k field,
  get_field-insert_or_update key value field fields nk nv t.1,
)

-- Writing a key above all others puts the field at the end.
abbrev pub Below : Bytes → HeaderField → Type 0
Below k = All (λ p. bytes_lt p.0 k ≡ true)

pub insert_last :
    (key value : Bytes) (fields : HeaderField)
    → Below key fields
    → insert_or_update key value fields ≡ fields ++ (key, value) ∷ []
unfolding insert_or_update
insert_last key value [] b = refl
insert_last key value ((k, v) ∷ fields) b =
    ground (arith, bytes_lt-ne k key b.0, bytes_lt_asym k key b.0, insert_last key value fields b.1)
