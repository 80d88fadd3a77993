-- ===== src/Http/FirstLine/RoundTrip.antt =====
-- The request line and the status line read back what was printed.
use unixtar.Prelude.{
  ℕ, ◌^◌, ◌<◌, true, false, [], ◌∷◌, ◌++◌, Bytes, codes, length, take, pos, arith, ◌≡◌, ◌≢◌, refl,
  ap, ap₂, ◌∙◌, All, append_assoc, take-all,
}
use unixtar.Utils.StrUtil.{split}
use unixtar.Utils.StrUtil.Words.{Free, IsWord, joined, split-joined, find-Free}
use unixtar.Utils.Decimal.{
  decimal, decimal-IsDigit, IsDigit, digits_value-decimal, digits_value, decimal-length,
}
use unixtar.Http.FirstLine.{
  HttpMethod, unknown_method, get, post, delete, HttpVersion, unknown_ver, http_0_9, http_1_0,
  http_1_1, http_2_0, method2string, version2string, get_http_method, get_http_version, RequestLine,
  request_line_to_string, request_line_of, parse_request_line, StatusLine, status_line_to_string,
  returned, status_line_of, parse_status_line, stoi, value, as_unsigned,
}

pub get_http_method-method2string : (m : HttpMethod) → get_http_method (method2string m) ≡ m
unfolding get_http_method method2string
get_http_method-method2string unknown_method = refl
get_http_method-method2string get = refl
get_http_method-method2string post = refl
get_http_method-method2string delete = refl

pub get_http_version-version2string : (v : HttpVersion) → get_http_version (version2string v) ≡ v
unfolding get_http_version version2string
get_http_version-version2string unknown_ver = refl
get_http_version-version2string http_0_9 = refl
get_http_version-version2string http_1_0 = refl
get_http_version-version2string http_1_1 = refl
get_http_version-version2string http_2_0 = refl

-- Neither a space, a carriage return nor a NUL.
abbrev pub IsPlain : Bytes → Type 0
IsPlain s = Free b' ' s × Free b'\r' s × Free 0 s

pub method2string-IsPlain : (m : HttpMethod) → IsPlain (method2string m) × (method2string m ≢ [])
unfolding method2string
method2string-IsPlain unknown_method = ground arith
method2string-IsPlain get = ground arith
method2string-IsPlain post = ground arith
method2string-IsPlain delete = ground arith

pub version2string-IsPlain :
    (v : HttpVersion) → IsPlain (version2string v) × (version2string v ≢ [])
unfolding version2string
version2string-IsPlain unknown_ver = ground arith
version2string-IsPlain http_0_9 = ground arith
version2string-IsPlain http_1_0 = ground arith
version2string-IsPlain http_1_1 = ground arith
version2string-IsPlain http_2_0 = ground arith

-- The request line without its CRLF.
abbrev pub request_line_text : RequestLine → Bytes
request_line_text r =
    joined (codes " ") (method2string r.method ∷ r.url ∷ []) (version2string r.version)

pub request_line_to_string-text :
    (r : RequestLine) → request_line_to_string r ≡ request_line_text r ++ codes "\r\n"
unfolding request_line_to_string
request_line_to_string-text r = simp append_assoc

abbrev pub IsUrl : Bytes → Type 0
IsUrl url = IsPlain url × (url ≢ [])

-- The pieces of a printed request line.
split-request_line :
    (r : RequestLine)
    → IsUrl r.url
    → split (request_line_text r) (codes " ")
      ≡ method2string r.method ∷ r.url ∷ version2string r.version ∷ []
split-request_line r h =
    let (m, mne) = method2string-IsPlain r.method in
    let (v, vne) = version2string-IsPlain r.version in
    split-joined b' ' [] (method2string r.method) (r.url ∷ []) (version2string r.version)
      ((m.0, mne), ((h.0.0, h.1), tt)) vne (find-Free b' ' [] _ v.0)

-- A request line whose URL is not empty and has no space, carriage return or NUL reads back as
-- it was printed, whatever the line held before.
pub parse-request_line_to_string :
    (old r : RequestLine)
    → IsUrl r.url
    → (request_line_to_string r ≡ request_line_text r ++ codes "\r\n")
      × (parse_request_line old (request_line_text r) ≡ (r, true))
unfolding parse_request_line
parse-request_line_to_string old r h = (
  request_line_to_string-text r,
  ap (request_line_of old) (split-request_line r h)
      ∙ unfold request_line_of in
        rw (get_http_method-method2string r.method, get_http_version-version2string r.version) refl,
)

stoi-IsDigit :
    (s : Bytes)
    → All IsDigit s
    → 0 < length s
    → digits_value 0 s < 2 ^ 31
    → stoi s ≡ value (pos (digits_value 0 s))
unfolding stoi
stoi-IsDigit [] h n b = absurd (omega arith)
stoi-IsDigit (c ∷ s) h n b = ground arith

pub stoi-decimal : (n : ℕ) → n < 2 ^ 31 → stoi (decimal n) ≡ value (pos n)
stoi-decimal n h =
    let (d, ne) = decimal-IsDigit n in
    stoi-IsDigit (decimal n) d ne (rw (digits_value-decimal n) h)
    ∙ ap (λ k. value (pos k)) (digits_value-decimal n)

IsDigit-Free : (s : Bytes) → All IsDigit s → Free b' ' s
IsDigit-Free [] h = tt
IsDigit-Free (c ∷ s) h = ((λ e. omega arith), IsDigit-Free s h.1)

length-ne-nil : (s : Bytes) → 0 < length s → s ≢ []
length-ne-nil [] h = absurd (omega arith)
length-ne-nil (x ∷ s) h = λ e. cc

-- The status line without its CRLF.
abbrev pub status_line_text : StatusLine → Bytes
status_line_text s =
    joined (codes " ")
      (version2string s.version ∷ take 3 (decimal (as_unsigned s.status_code)) ∷ []) s.status_desc

status_line_to_string-text :
    (s : StatusLine) → status_line_to_string s ≡ status_line_text s ++ codes "\r\n"
unfolding status_line_to_string
status_line_to_string-text s = simp append_assoc

code_digits :
    (s : StatusLine) (n : ℕ)
    → n < 1000
    → s.status_code ≡ pos n
    → take 3 (decimal (as_unsigned s.status_code)) ≡ decimal n
unfolding as_unsigned
code_digits s n h e =
    ap (λ c. take 3 (decimal (as_unsigned c))) e ∙ take-all 3 _ (decimal-length 2 n (omega arith))

status_line_of-digits :
    (old s : StatusLine) (n : ℕ)
    → n < 1000
    → s.status_code ≡ pos n
    → status_line_of old (version2string s.version ∷ decimal n ∷ s.status_desc ∷ [])
      ≡ returned s true
unfolding status_line_of
status_line_of-digits old s n h e =
    ground (arith, stoi-decimal n, get_http_version-version2string s.version)

-- A status line with a code below 1000 and a reason that is not empty and has no space reads back
-- as it was printed, whatever the line held before.
pub parse-status_line_to_string :
    (old s : StatusLine) (n : ℕ)
    → n < 1000
    → s.status_code ≡ pos n
    → Free b' ' s.status_desc
    → s.status_desc ≢ []
    → (status_line_to_string s ≡ status_line_text s ++ codes "\r\n")
      × (parse_status_line old (status_line_text s) ≡ returned s true)
unfolding parse_status_line
parse-status_line_to_string old s n h e free ne =
    let (v, vne) = version2string-IsPlain s.version in
    let (d, dne) = decimal-IsDigit n in
    (
      status_line_to_string-text s,
      rw (code_digits s n h e) (
          ap (status_line_of old) (
            split-joined b' ' [] (version2string s.version) (decimal n ∷ []) s.status_desc
              ((v.0, vne), ((IsDigit-Free (decimal n) d, length-ne-nil (decimal n) dne), tt)) ne
              (find-Free b' ' [] _ free))
          ∙ status_line_of-digits old s n h e),
    )

-- Four words are no status line.
four_words :
    (old : StatusLine) (v c a b : Bytes)
    → IsWord b' ' v
    → IsWord b' ' c
    → IsWord b' ' a
    → IsWord b' ' b
    → parse_status_line old (joined (codes " ") (v ∷ c ∷ a ∷ []) b) ≡ returned old false
unfolding parse_status_line status_line_of
four_words old v c a b wv wc wa wb =
    ap (status_line_of old)
      (split-joined b' ' [] v (c ∷ a ∷ []) b (wv, (wc, (wa, tt))) wb.1 (find-Free b' ' [] _ wb.0))

-- A status line with a code below 1000 and a reason of two words, such as "Switching Protocols",
-- is printed as the version, the code, the reason and CRLF, and what is printed before the CRLF is
-- refused by the parser of the same class; the old fields stay.
pub parse_two_words :
    (old s : StatusLine) (n : ℕ) (a b : Bytes)
    → n < 1000
    → s.status_code ≡ pos n
    → IsWord b' ' a
    → IsWord b' ' b
    → s.status_desc ≡ a ++ (codes " " ++ b)
    → (status_line_to_string s
        ≡ version2string s.version
          ++ (codes " " ++ (decimal n ++ (codes " " ++ (a ++ (codes " " ++ b)))))
          ++ codes "\r\n")
      × (parse_status_line old (
            version2string s.version
            ++ (codes " " ++ (decimal n ++ (codes " " ++ (a ++ (codes " " ++ b))))))
          ≡ returned old false)
parse_two_words old s n a b h e wa wb de =
    let (v, vne) = version2string-IsPlain s.version in
    let (d, dne) = decimal-IsDigit n in
    let text : status_line_text s
        ≡ version2string s.version
          ++ (codes " " ++ (decimal n ++ (codes " " ++ (a ++ (codes " " ++ b))))) =
      ap₂ (λ c r. version2string s.version ++ (codes " " ++ (c ++ (codes " " ++ r))))
        (code_digits s n h e) de in
    (
      status_line_to_string-text s ∙ ap (λ t. t ++ codes "\r\n") text,
      four_words old (version2string s.version) (decimal n) a b (v.0, vne)
          (IsDigit-Free (decimal n) d, length-ne-nil (decimal n) dne) wa wb,
    )
