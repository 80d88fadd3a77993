-- ===== src/Http/Request/RoundTrip.antt =====
-- The request parser reads a request that stands whole in the buffer.
use unixtar.Prelude.{
  ℕ, ◌<◌, [], ◌∷◌, ◌++◌, some, Bytes, codes, length, arith, ◌≡◌, ◌≢◌, refl, sym, ap, ap₂, ◌∙◌, All,
  All-append, append_assoc,
}
use unixtar.Utils.StrUtil.Words.{Free, strnstr-word}
use unixtar.Http.FirstLine.{
  get, RequestLine, new_request_line, method2string, version2string, request_line_to_string,
}
use unixtar.Http.FirstLine.RoundTrip.{
  IsUrl, method2string-IsPlain, version2string-IsPlain, request_line_text,
  request_line_to_string-text, parse-request_line_to_string,
}
use unixtar.Http.HeaderField.{HeaderField, header_to_string, content_length}
use unixtar.Http.HeaderField.Map.{IsSorted, IsText}
use unixtar.Http.HeaderField.RoundTrip.{
  IsField, header_text, lines_before, last_line, header_line, header_to_string-text,
  parse_header-header_to_string, lines_before-IsWord,
}
use unixtar.Http.HeaderField.Ends.{blank_line, strnstr_block}
use unixtar.Http.Packet.{returned_0}
use unixtar.Http.Request.{new_parser, parse_request}
use unixtar.Http.Request.Steps.{parsed_request, reads_message}

header_line-NoNul :
    (p : Bytes × Bytes)
    → All (λ x. x ≢ 0) p.0
    → All (λ x. x ≢ 0) p.1
    → All (λ x. x ≢ 0) (header_line p)
header_line-NoNul p k v =
    All-append (λ x. x ≢ 0) p.0 _ k ((λ e. omega arith), ((λ e. omega arith), v))

header_text-NoNul :
    (p : Bytes × Bytes) (fields : HeaderField)
    → IsText (p ∷ fields)
    → All (λ x. x ≢ 0) (header_text p fields)
header_text-NoNul p [] t = header_line-NoNul p t.0.0 t.0.1
header_text-NoNul p (q ∷ fields) t =
    All-append (λ x. x ≢ 0) (header_line p) _ (header_line-NoNul p t.0.0 t.0.1)
      ((λ e. omega arith), ((λ e. omega arith), header_text-NoNul q fields t.1))

request_line_text-Free :
    (c : ℕ) (r : RequestLine)
    → c ≢ b' '
    → Free c (method2string r.method)
    → Free c r.url
    → Free c (version2string r.version)
    → Free c (request_line_text r)
request_line_text-Free c r ne m u v =
    All-append (λ x. x ≢ c) (method2string r.method) _ m
      ((λ e. ne (sym e)), All-append (λ x. x ≢ c) r.url _ u ((λ e. ne (sym e)), v))

-- A request that the parser can read: the line, the fields and the body that they declare.
pub record IsRequest (r : RequestLine) (p q : Bytes × Bytes) (more : HeaderField) (content : Bytes)
    : Type 0 where
  pub url_ok : IsUrl r.url
  pub has_body : r.method ≢ get
  pub fields_ok : All IsField (p ∷ q ∷ more)
  pub sorted : IsSorted (p ∷ q ∷ more)
  pub text : IsText (p ∷ q ∷ more)
  pub declared : content_length (p ∷ q ∷ more) ≡ length content
  pub content_some : 0 < length content

-- The bytes of a request.
abbrev pub message : RequestLine → HeaderField → Bytes → Bytes
message r fields content = request_line_to_string r ++ (header_to_string fields ++ content)

message-buf :
    (r : RequestLine) (p : Bytes × Bytes) (fields : HeaderField) (content : Bytes)
    → message r (p ∷ fields) content
      ≡ request_line_text r ++ (codes "\r\n" ++ (header_text p fields ++ (blank_line ++ content)))
message-buf r p fields content =
    ap₂ (λ a b. a ++ (b ++ content)) (request_line_to_string-text r)
      (header_to_string-text p fields)
    ∙ ap (λ t. (request_line_text r ++ codes "\r\n") ++ t)
        (append_assoc (header_text p fields) blank_line content)
    ∙ append_assoc (request_line_text r) (codes "\r\n") _

-- A request with two header fields or more is read in one call of `DoParse`: it ends, and the
-- packet holds the printed line and fields, and the body that Content-Length announced.
pub parse_request-message :
    (r : RequestLine) (p q : Bytes × Bytes) (more : HeaderField) (content : Bytes)
    → IsRequest r p q more content
    → parse_request new_parser (message r (p ∷ q ∷ more) content)
      ≡ some (
          returned_0 (
            parsed_request r
              (p ∷ q ∷ more)
              (request_line_text r)
              (header_text p (q ∷ more))
              content))
parse_request-message r p q more content ok =
    let (m, _) = method2string-IsPlain r.method in
    let (v, _) = version2string-IsPlain r.version in
    let first : Bytes = request_line_text r in
    let block : Bytes = header_text p (q ∷ more) in
    let (before, last) = lines_before-IsWord p (q ∷ more) ok.fields_ok in
    let line_free : Free b'\r' first =
      request_line_text-Free b'\r' r (λ e. omega arith) m.1 ok.url_ok.0.1 v.1 in
    let line_text : Free 0 first =
      request_line_text-Free 0 r (λ e. omega arith) m.2 ok.url_ok.0.2 v.2 in
    ap (parse_request new_parser) (message-buf r p (q ∷ more) content)
    ∙ reads_message r (p ∷ q ∷ more) first block content
        (strnstr-word b'\r' (codes "\n") first (block ++ (blank_line ++ content)) _ line_free
          (All-append (λ x. x ≢ 0) first (codes "\r\n") line_text (omega arith)) refl)
        ((parse-request_line_to_string new_request_line r ok.url_ok).1)
        (strnstr_block (lines_before p (q ∷ more)) (last_line p (q ∷ more)) content _ before last
          (All-append (λ x. x ≢ 0) block blank_line (header_text-NoNul p (q ∷ more) ok.text)
            (omega arith))
          refl)
        ((parse_header-header_to_string p q more ok.fields_ok ok.sorted).1) ok.has_body ok.declared
        ok.content_some
