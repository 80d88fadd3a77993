-- ===== src/Http/Request/Steps.antt =====
-- The three rounds of the request parser, and the loop that runs through them.
use unixtar.Prelude.{
  ℕ, suc, ◌+◌, ◌-◌, ◌<◌, Bool, true, false, [], ◌++◌, Option, none, some, Bytes, codes, length,
  take, drop, arith, ◌≡◌, ◌≢◌, refl, sym, ap, ap₂, ◌∙◌, length-append, take-append_self, take-all,
  drop-append_self, append_assoc, sub_size, sub_size_le, if◌then◌else◌,
}
use unixtar.Utils.StrUtil.{strnstr}
use unixtar.Http.FirstLine.{HttpMethod, get, RequestLine, new_request_line, parse_request_line}
use unixtar.Http.HeaderField.{HeaderField, parse_header, content_length, is_connection_upgrade}
use unixtar.Http.HeaderField.Ends.{blank_line}
use unixtar.Http.Packet.{
  Position, none_yet, first_line, headers, body, end, error, attempted, Outcome, returned_0,
  resolve_first_line_with, resolve_headers_base, headers_parsed, resolve_body_base,
  resolve_body_of_length, round, verdict, do_parse_loop, do_parse,
}
use unixtar.Http.Request.{
  Parser, new_parser, parse_line, mark_upgrade, resolve_headers, resolve_body_for, methods,
  parse_request,
}

abbrev after_first_line : Parser → RequestLine → ℕ → Parser
after_first_line p r k = record p {
  line = r;
  position = headers;
  resolved_len = k + 2;
  first_line_len = k + 2;
}

step_first_line :
    (p : Parser) (buf : Bytes) (k : ℕ) (r : RequestLine)
    → strnstr buf (codes "\r\n") (length buf) ≡ some k
    → parse_request_line p.line (take k buf) ≡ (r, true)
    → resolve_first_line_with parse_line p buf ≡ attempted (after_first_line p r k) true
unfolding resolve_first_line_with parse_line
step_first_line p buf k r found parsed = ground arith

abbrev after_headers : Parser → HeaderField → ℕ → Parser
after_headers p fields k = record p {
  fields = fields;
  resolved_len = p.resolved_len + k + 4;
  header_len = sub_size (p.resolved_len + k + 4) p.first_line_len;
  position = body;
  is_upgrade_to_ws = if is_connection_upgrade fields then true else p.is_upgrade_to_ws;
}

step_headers_base :
    (p : Parser) (buf : Bytes) (k : ℕ) (fields : HeaderField)
    → strnstr (drop p.resolved_len buf) blank_line (sub_size (length buf) p.resolved_len) ≡ some k
    → parse_header p.fields (take k (drop p.resolved_len buf)) ≡ (fields, true)
    → resolve_headers_base p buf ≡ headers_parsed k p (fields, true)
unfolding resolve_headers_base
step_headers_base p buf k fields found parsed =
    rw (found, resolve_headers_base) (ap (headers_parsed k p) parsed)

step_headers :
    (p : Parser) (buf : Bytes) (k : ℕ) (fields : HeaderField)
    → strnstr (drop p.resolved_len buf) blank_line (sub_size (length buf) p.resolved_len) ≡ some k
    → parse_header p.fields (take k (drop p.resolved_len buf)) ≡ (fields, true)
    → resolve_headers p buf ≡ attempted (after_headers p fields k) true
unfolding resolve_headers headers_parsed
step_headers p buf k fields found parsed =
    ap mark_upgrade (step_headers_base p buf k fields found parsed)

step_body :
    (m : HttpMethod) (p : Parser) (buf : Bytes) (n : ℕ)
    → m ≢ get
    → content_length p.fields ≡ n
    → 0 < n
    → sub_size (sub_size (length buf) p.first_line_len) p.header_len ≡ n
    → resolve_body_for m p buf
      ≡ attempted
          (record p {
            position = end;
            resolved_len = length buf;
            body_ = some (take n (drop (sub_size (length buf) n) buf));
          })
          true
unfolding resolve_body_for resolve_body_base resolve_body_of_length
step_body get p buf n h c pos l = absurd (h refl)
step_body _ p buf n h c pos l = ground arith

loop_round :
    (fuel : ℕ) (p q : Parser) (buf : Bytes)
    → round methods p.position p buf ≡ attempted q true
    → q.position ≢ end
    → q.position ≢ error
    → do_parse_loop (suc fuel) methods p buf ≡ do_parse_loop fuel methods q buf
unfolding do_parse_loop
loop_round fuel p q buf h e1 e2 = rw (h, do_parse_loop) (go q.position e1 e2)
  where
    go :
        (pos : Position)
        → pos ≢ end
        → pos ≢ error
        → ◌≡◌ {A = Option (Outcome RequestLine)}
            (elim (verdict pos true q) [
              | none ↦ do_parse_loop fuel methods q buf
              | some o ↦ some o
            ])
            (do_parse_loop fuel methods q buf)
    go none_yet e1 e2 = refl
    go first_line e1 e2 = refl
    go headers e1 e2 = refl
    go body e1 e2 = refl
    go end e1 e2 = absurd (e1 refl)
    go error e1 e2 = absurd (e2 refl)

loop_end :
    (fuel : ℕ) (p q : Parser) (buf : Bytes)
    → round methods p.position p buf ≡ attempted q true
    → q.position ≡ end
    → do_parse_loop (suc fuel) methods p buf ≡ some (returned_0 q)
unfolding do_parse_loop verdict
loop_end fuel p q buf h e = rw (h, do_parse_loop) (rw (e, verdict) refl)

drop-first : (first t : Bytes) → drop (length first + 2) (first ++ (codes "\r\n" ++ t)) ≡ t
drop-first first t =
    ap (drop (length first + 2)) (sym (append_assoc first (codes "\r\n") t))
    ∙ drop-append_self (first ++ codes "\r\n") t _
        (omega (arith, length-append first (codes "\r\n")))

start_round :
    (p : Parser) (buf : Bytes)
    → p.position ≡ none_yet
    → p.resolved_len ≡ 0
    → 0 < length buf
    → (parse_request p buf ≡ do_parse_loop 4 methods p buf)
      × (round methods p.position p buf
          ≡ resolve_first_line_with parse_line (record p { position = first_line }) buf)
unfolding parse_request do_parse round methods sub_size
start_round p buf e z h = ground arith

-- The state in which a request of these lengths leaves the parser.
unfoldable pub parsed_request : RequestLine → HeaderField → Bytes → Bytes → Bytes → Parser
parsed_request r fields first block content = record {
  position = end;
  line = r;
  fields = fields;
  body_ = some content;
  first_line_len = length first + 2;
  header_len = length block + 4;
  resolved_len = length first + 2 + length block + 4 + length content;
  is_upgrade_to_ws = is_connection_upgrade fields;
}

flag : (b : Bool) → (if b then true else false) ≡ b
flag true = refl
flag false = refl

module _ (r : RequestLine) (fields : HeaderField) (first block content : Bytes) where
  abbrev tail_of : Bytes
  tail_of = block ++ (blank_line ++ content)

  abbrev buf : Bytes
  buf = first ++ (codes "\r\n" ++ tail_of)

  abbrev second : Parser
  second = after_first_line (record new_parser { position = first_line }) r (length first)

  abbrev third : Parser
  third = after_headers second fields (length block)

  lengths :
      (length buf ≡ length first + 2 + length block + 4 + length content)
      × (length tail_of ≡ length block + 4 + length content)
  lengths = omega (
    arith,
    length-append first (codes "\r\n" ++ tail_of),
    length-append block (blank_line ++ content),
  )

  second_round :
      strnstr tail_of blank_line (length tail_of) ≡ some (length block)
      → parse_header [] block ≡ (fields, true)
      → resolve_headers second buf ≡ attempted third true
  second_round e3 e4 =
      step_headers second buf (length block) fields
        (ap₂ (λ t n. strnstr t blank_line n) (drop-first first tail_of)
            (sub_size_le (length buf) (length first + 2) (omega (arith, lengths))
              ∙ omega (arith, lengths))
          ∙ e3)
        (ap (λ t. parse_header [] (take (length block) t)) (drop-first first tail_of)
          ∙ ap (parse_header []) (take-append_self block _ _ refl)
          ∙ e4)

  regroup : (first ++ (codes "\r\n" ++ (block ++ blank_line))) ++ content ≡ buf
  regroup = simp append_assoc

  content_at : take (length content) (drop (sub_size (length buf) (length content)) buf) ≡ content
  content_at =
      ap (λ n. take (length content) (drop n buf))
        (sub_size_le (length buf) (length content) (omega (arith, lengths)))
      ∙ ap (λ t. take (length content) (drop (length buf - length content) t)) (sym regroup)
      ∙ ap (take (length content)) (
          drop-append_self (first ++ (codes "\r\n" ++ (block ++ blank_line))) content _ (
            omega (
              arith,
              lengths,
              length-append first (codes "\r\n" ++ (block ++ blank_line)),
              length-append block blank_line,
            )))
      ∙ take-all (length content) content (omega arith)

  header_len_is : third.header_len ≡ length block + 4
  header_len_is =
      sub_size_le (length first + 2 + length block + 4) (length first + 2) (omega arith)
      ∙ omega arith

  body_len_is :
      sub_size (sub_size (length buf) (length first + 2)) third.header_len ≡ length content
  body_len_is =
      ap₂ sub_size (sub_size_le (length buf) (length first + 2) (omega (arith, lengths)))
        header_len_is
      ∙ sub_size_le (length buf - (length first + 2)) (length block + 4) (omega (arith, lengths))
      ∙ omega (arith, lengths)

  third_round :
      r.method ≢ get
      → content_length fields ≡ length content
      → 0 < length content
      → resolve_body_for r.method third buf
        ≡ attempted (parsed_request r fields first block content) true
  unfolding parsed_request
  third_round ne c pos = step_body r.method third buf (length content) ne c pos body_len_is ∙ λ i.
      attempted
        (record third {
          position = end;
          header_len = header_len_is i;
          resolved_len = lengths.0 i;
          body_ = some (content_at i);
          is_upgrade_to_ws = flag (is_connection_upgrade fields) i;
        })
        true

  -- The three rounds, and the end of the loop.
  pub reads_message :
      strnstr buf (codes "\r\n") (length buf) ≡ some (length first)
      → parse_request_line new_request_line first ≡ (r, true)
      → strnstr tail_of blank_line (length tail_of) ≡ some (length block)
      → parse_header [] block ≡ (fields, true)
      → r.method ≢ get
      → content_length fields ≡ length content
      → 0 < length content
      → parse_request new_parser buf
        ≡ some (returned_0 (parsed_request r fields first block content))
  reads_message e1 e2 e3 e4 ne c pos =
      let (started, round1) = start_round new_parser buf refl refl (omega (arith, lengths)) in
      started
      ∙ loop_round 3 new_parser second buf
          (round1
            ∙ step_first_line _ buf (length first) r e1
                (ap (parse_request_line new_request_line) (take-append_self first _ _ refl) ∙ e2))
          (λ e. cc) (λ e. cc)
      ∙ loop_round 2 second third buf (unfold round methods in second_round e3 e4) (λ e. cc)
          (λ e. cc)
      ∙ loop_end 1 third (parsed_request r fields first block content) buf
          (unfold round methods in third_round ne c pos) (unfold parsed_request in refl)
