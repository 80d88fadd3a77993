-- ===== src/Http/Request/PackParse.antt =====
-- What `Pack` writes, the request parser reads.
use unixtar.Prelude.{
  ℕ, ◌^◌, ◌<◌, true, false, [], ◌∷◌, none, some, Bytes, codes, length, arith, ◌≡◌, ◌≢◌, refl, sym,
  ap, ◌∙◌, inl, inr, ◌⊎◌, All, equal, equal_iff, c_str, c_str_self, Bool-cases,
}
use unixtar.Utils.StrUtil.Words.{Free, find-Free}
use unixtar.Utils.Decimal.{
  decimal, snprintf_len, snprintf_len-decimal, strtoul, strtoul-decimal, decimal-IsDigit, IsDigit,
}
use unixtar.Http.FirstLine.{post, http_1_1, RequestLine}
use unixtar.Http.FirstLine.RoundTrip.{IsUrl, request_line_text}
use unixtar.Http.HeaderField.{
  HeaderField, host, content_length_name, connection_name, connection_close, insert_or_update,
  get_field, content_length, bytes_lt,
}
use unixtar.Http.HeaderField.Map.{
  IsSorted, IsText, NoNul, insert_or_update-IsSorted, get_field-insert_or_update,
}
use unixtar.Http.HeaderField.RoundTrip.{IsField, header_text}
use unixtar.Http.Packet.{end, returned_0}
use unixtar.Http.Request.{Parser, insert_all, pack_fields, pack, new_parser, parse_request}
use unixtar.Http.Request.Steps.{parsed_request}
use unixtar.Http.Request.RoundTrip.{message, parse_request-message}

positive-ne-nil : (s : Bytes) → 0 < length s → s ≢ []
positive-ne-nil [] h = absurd (omega arith)
positive-ne-nil (x ∷ s) h = λ e. cc

insert-All :
    (P : Bytes × Bytes → Type 0) (key value : Bytes) (fields : HeaderField)
    → P (key, value)
    → All P fields
    → All P (insert_or_update key value fields)
unfolding insert_or_update
insert-All P key value [] h a = (h, tt)
insert-All P key value ((k, v) ∷ fields) h a = elim (Bool-cases (equal key k)) [
  | inl e ↦ ground (arith, equal_iff key k)
  | inr e ↦ ground (arith, insert-All P key value fields h a.1)
]

insert_all-All :
    (P : Bytes × Bytes → Type 0) (more fields : HeaderField)
    → All P more
    → All P fields
    → All P (insert_all more fields)
unfolding insert_all
insert_all-All P [] fields h a = a
insert_all-All P ((k, v) ∷ more) fields h a =
    insert_all-All P more (insert_or_update k v fields) h.1 (insert-All P k v fields h.0 a)

insert_all-IsSorted :
    (more fields : HeaderField) → IsSorted fields → IsSorted (insert_all more fields)
unfolding insert_all
insert_all-IsSorted [] fields s = s
insert_all-IsSorted ((k, v) ∷ more) fields s =
    insert_all-IsSorted more (insert_or_update k v fields) (insert_or_update-IsSorted k v fields s)

-- The map has the field.
abbrev Has : Bytes → HeaderField → Type 0
Has f fields = get_field fields f ≢ none

Has-insert :
    (f key value : Bytes) (fields : HeaderField)
    → NoNul key
    → NoNul value
    → IsText fields
    → Has f fields
    → Has f (insert_or_update key value fields)
Has-insert f key value fields nk nv t h =
    rw (get_field-insert_or_update key value f fields nk nv t)
      (elim (Bool-cases (equal key f)) [ inl e ↦ rw e (λ p. cc) | inr e ↦ rw e h ])

Has-insert_self :
    (key value : Bytes) (fields : HeaderField)
    → NoNul key
    → NoNul value
    → IsText fields
    → Has key (insert_or_update key value fields)
Has-insert_self key value fields nk nv t =
    rw (get_field-insert_or_update key value key fields nk nv t, (equal_iff key key).1 refl)
      (λ p. cc)

Has-insert_all :
    (f : Bytes) (more fields : HeaderField)
    → IsText more
    → IsText fields
    → Has f fields
    → Has f (insert_all more fields)
unfolding insert_all
Has-insert_all f [] fields m t h = h
Has-insert_all f ((k, v) ∷ more) fields m t h =
    Has-insert_all f more (insert_or_update k v fields) m.1
      (insert-All (λ p. NoNul p.0 × NoNul p.1) k v fields m.0 t)
      (Has-insert f k v fields m.0.0 m.0.1 t h)

two_fields :
    (f g : Bytes) (fields : HeaderField)
    → f ≢ g
    → Has f fields
    → Has g fields
    → (p : Bytes × Bytes) × (q : Bytes × Bytes) × (more : HeaderField) × (fields ≡ p ∷ q ∷ more)
unfolding get_field
two_fields f g [] ne hf hg = absurd (hf refl)
two_fields f g (p ∷ []) ne hf hg =
    absurd (ground (arith, equal_iff (c_str p.0) f, equal_iff (c_str p.0) g))
two_fields f g (p ∷ q ∷ more) ne hf hg = (p, q, more, refl)

name-NoNul : NoNul content_length_name
name-NoNul = omega arith

content_length-head :
    (k value : Bytes) (fields : HeaderField)
    → equal content_length_name k ≡ true
    → NoNul value
    → content_length ((k, value) ∷ fields) ≡ strtoul value
unfolding content_length
content_length-head k value fields e nv =
    rw
      (
        ← (equal_iff content_length_name k).0 e,
        c_str_self content_length_name name-NoNul,
        (equal_iff content_length_name _).1 refl,
      )
      (ap strtoul (c_str_self value nv))

content_length-skip :
    (k v : Bytes) (fields : HeaderField)
    → equal content_length_name k ≡ false
    → NoNul k
    → content_length ((k, v) ∷ fields) ≡ content_length fields
unfolding content_length
content_length-skip k v fields e nk = elim (Bool-cases (equal k content_length_name)) [
  | inl h ↦
      cc (e, (equal_iff content_length_name k).1 (sym ((equal_iff k content_length_name).0 h)))
  | inr h ↦ rw (c_str_self k nk, h) refl
]

-- The length that was written last is the one that is read.
content_length-insert :
    (value : Bytes) (fields : HeaderField)
    → NoNul value
    → IsText fields
    → content_length (insert_or_update content_length_name value fields) ≡ strtoul value
unfolding insert_or_update
content_length-insert value [] nv t =
    content_length-head content_length_name value [] ((equal_iff content_length_name _).1 refl) nv
content_length-insert value ((k, v) ∷ fields) nv t =
    elim (Bool-cases (equal content_length_name k)) [
      | inl e ↦ rw e (content_length-head k value fields e nv)
      | inr e ↦ rw e (elim (Bool-cases (bytes_lt content_length_name k)) [
        | inl b ↦ rw b (
            content_length-head content_length_name value ((k, v) ∷ fields)
              ((equal_iff content_length_name _).1 refl) nv)
        | inr b ↦
            rw b (content_length-skip k v _ e t.0.0 ∙ content_length-insert value fields nv t.1)
      ])
    ]

-- Arguments of `Pack` that give a request the parser can read.
pub record IsPackable (host_value url : Bytes) (more : HeaderField) (body : Bytes) : Type 0 where
  pub host_field : IsField (host, host_value)
  pub host_text : NoNul host_value
  pub url_ok : IsUrl url
  pub more_fields : All IsField more
  pub more_text : IsText more
  pub body_some : 0 < length body
  -- eight digits of the length are all that `Pack` prints
  pub body_small : length body < 10 ^ 8

IsDigit-Free : (c : ℕ) (s : Bytes) → (c < b'0') ⊎ (b'9' < c) → All IsDigit s → Free c s
IsDigit-Free c [] h d = tt
IsDigit-Free c (x ∷ s) h d = ((λ e. ground arith), IsDigit-Free c s h d.1)

length_digits :
    (n : ℕ) → n < 10 ^ 8 → IsField (content_length_name, snprintf_len n) × NoNul (snprintf_len n)
length_digits n h =
    let (d, some_digits) = decimal-IsDigit n in
    rw (snprintf_len-decimal n h) (
      record {
        key_word = (omega arith, λ e. cc);
        key_line = omega arith;
        value_line = IsDigit-Free b'\r' _ (inl (omega arith)) d;
        value_some = positive-ne-nil (decimal n) some_digits;
        value_one = find-Free b':' (codes " ") _ (IsDigit-Free b':' _ (inr (omega arith)) d);
      },
      IsDigit-Free 0 _ (inl (omega arith)) d,
    )

connection-IsField : IsField (connection_name, connection_close)
connection-IsField = record {
  key_word = (omega arith, λ e. cc);
  key_line = omega arith;
  value_line = omega arith;
  value_some = λ e. cc;
  value_one = find-Free b':' (codes " ") _ (omega arith);
}

abbrev HasText : Bytes × Bytes → Type 0
HasText p = NoNul p.0 × NoNul p.1

abbrev written : Bytes → RequestLine
written url = record { method = post; url = url; version = http_1_1 }

-- The parser's state behind the request: at its end, with the request line, the fields in the
-- order of their keys, and the body.
pub record ReadsBack (host_value url : Bytes) (more : HeaderField) (body : Bytes) (p : Parser)
    : Type 0 where
  pub at_end : p.position ≡ end
  pub line_is : p.line ≡ written url
  pub fields_are : p.fields ≡ pack_fields host_value more body
  pub body_is : p.body_ ≡ some body

module _ (host_value url : Bytes) (more : HeaderField) (body : Bytes)
    (ok : IsPackable host_value url more body) where
  abbrev before_length : HeaderField
  before_length =
      insert_all more
        (insert_or_update connection_name connection_close (insert_or_update host host_value []))

  abbrev fields_of : HeaderField
  fields_of = insert_or_update content_length_name (snprintf_len (length body)) before_length

  pack_fields-eq : pack_fields host_value more body ≡ fields_of
  unfolding pack_fields
  pack_fields-eq = refl

  two-IsText :
      IsText
        (insert_or_update connection_name connection_close (insert_or_update host host_value []))
  two-IsText =
      insert-All HasText connection_name connection_close _ (omega arith, omega arith)
        (insert-All HasText host host_value [] (omega arith, ok.host_text) tt)

  before-IsText : IsText before_length
  before-IsText = insert_all-All HasText more _ ok.more_text two-IsText

  fields-IsText : IsText fields_of
  fields-IsText =
      insert-All HasText content_length_name _ before_length
        (omega arith, (length_digits (length body) ok.body_small).1) before-IsText

  fields_ok : All IsField fields_of
  fields_ok =
      insert-All IsField content_length_name _ before_length
        ((length_digits (length body) ok.body_small).0)
        (insert_all-All IsField more _ ok.more_fields (
          insert-All IsField connection_name connection_close _ connection-IsField
            (insert-All IsField host host_value [] ok.host_field tt)))

  fields-IsSorted : IsSorted fields_of
  fields-IsSorted = insert_or_update-IsSorted content_length_name _ before_length (
      insert_all-IsSorted more _ (
        insert_or_update-IsSorted connection_name connection_close _
          (insert_or_update-IsSorted host host_value [] tt)))

  Has-host : Has host fields_of
  Has-host =
      Has-insert host content_length_name _ before_length (omega arith)
        ((length_digits (length body) ok.body_small).1) before-IsText
        (Has-insert_all host more _ ok.more_text two-IsText (
          Has-insert host connection_name connection_close _ (omega arith) (omega arith)
            (insert-All HasText host host_value [] (omega arith, ok.host_text) tt)
            (Has-insert_self host host_value [] (omega arith) ok.host_text tt)))

  Has-length : Has content_length_name fields_of
  Has-length =
      Has-insert_self content_length_name _ before_length (omega arith)
        ((length_digits (length body) ok.body_small).1) before-IsText

  length_read : content_length fields_of ≡ length body
  length_read =
      content_length-insert _ before_length ((length_digits (length body) ok.body_small).1)
        before-IsText
      ∙ ap strtoul (snprintf_len-decimal (length body) ok.body_small)
      ∙ strtoul-decimal (length body) (omega (arith, ok.body_small))

  reads_back :
      (p q : Bytes × Bytes) (rest : HeaderField)
      → fields_of ≡ p ∷ q ∷ rest
      → (out : Parser) × (parse_request new_parser (pack host_value url more body)
          ≡ some (returned_0 out))
        × ReadsBack host_value url more body out
  unfolding pack parsed_request
  reads_back p q rest e = (
    parsed_request (written url) (p ∷ q ∷ rest) (request_line_text (written url))
        (header_text p (q ∷ rest)) body,
    ap (λ f. parse_request new_parser (message (written url) f body)) (pack_fields-eq ∙ e)
        ∙ parse_request-message (written url) p q rest body (record {
          url_ok = ok.url_ok;
          has_body = λ h. cc;
          fields_ok = rw e at fields_ok;
          sorted = rw e at fields-IsSorted;
          text = rw e at fields-IsText;
          declared = ap content_length (sym e) ∙ length_read;
          content_some = ok.body_some;
        }),
    record { at_end = refl; line_is = refl; fields_are = sym (pack_fields-eq ∙ e); body_is = refl },
  )

-- What `Pack` writes for a body of 1 to 99,999,999 bytes, the parser reads in one call of
-- `DoParse`, when the host, the URL and the further fields are fit for a line and have no NUL:
-- it returns 0 at the end, with the method, URL, version, header fields and body packed.
pub parse_request-pack :
    (host_value url : Bytes) (more : HeaderField) (body : Bytes)
    → IsPackable host_value url more body
    → (out : Parser) × (parse_request new_parser (pack host_value url more body)
        ≡ some (returned_0 out))
      × ReadsBack host_value url more body out
parse_request-pack host_value url more body ok =
    let (p, q, rest, e) =
      two_fields host content_length_name (fields_of host_value url more body ok) (λ h. cc)
        (Has-host host_value url more body ok) (Has-length host_value url more body ok) in
    reads_back host_value url more body ok p q rest e
