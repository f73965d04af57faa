-- ===== src/Http/Request/Conditional/Answers.antt =====
-- src/httplib/httplib.cc: what the conditional fields answer.
use angel.Prelude.{
  ℕ, ◌≡◌, ◌⊎◌, refl, ap, ap₂, subst, false, List, [], ◌∷◌, ◌++◌, ◌||◌, codes, length, ltb, leb,
  if◌then◌else◌, inl, inr, Option-holds,
}
use angel.Connection.Stream.{if-holds}
use angel.Buffer.Search.{crlf}
use angel.Util.{same, split}
use angel.Http.Message.{Headers, find}
use angel.Http.Request.{Request}
use angel.Http.Request.Conditional.{
  ConditionCode, no_header, successful, failed, any_equal, is_get_or_head, if_range, send_err,
  answer, answer_err, if_match, if_modified_since, if_none_match, if_unmodified_since, or_else,
  handle_conditional, err_page,
}
use angel.Http.Response.{
  Response, bytes, header, add_header, format_headers, status_line, set_status_code, send,
  to_string, buffered_size,
}
use angel.Http.Status.{not_modified, precondition_failed}
use angel.Http.Validators.{strong_etag_equal, weak_etag_equal}

-- Exactly one more send: the status line, fields, an empty line and the entity.
abbrev pub Sends : List ℕ → List ℕ → Response → Response → Type 0
Sends line entity res res' =
    (fields : List ℕ) × (res'.sent ≡ res.sent ++ bytes ((line ++ (fields ++ crlf)) ++ entity) ∷ [])

-- A condition that fails has been answered with 304 or 412, any other has left the response alone.
abbrev pub IsAnswered : Response → ConditionCode × Response → Type 0
IsAnswered res (no_header, res') = res' ≡ res
IsAnswered res (successful, res') = res' ≡ res
IsAnswered res (failed, res') =
    Sends (codes "HTTP/1.1 304 Not Modified" ++ crlf) [] res res'
    ⊎ Sends (codes "HTTP/1.1 412 Precondition Failed" ++ crlf) (err_page precondition_failed) res
        res'

line_304 : status_line not_modified ≡ codes "HTTP/1.1 304 Not Modified" ++ crlf
unfolding status_line
line_304 = refl

line_412 : status_line precondition_failed ≡ codes "HTTP/1.1 412 Precondition Failed" ++ crlf
unfolding status_line
line_412 = refl

page_is_short : leb buffered_size (length (err_page precondition_failed)) ≡ false
unfolding err_page
page_is_short = refl

module _ (iterate : Headers → Headers) (date : List ℕ) where
  header_lem :
      (r res : Response)
      → r.sent ≡ res.sent
      → r.status_code ≡ res.status_code
      → ((header iterate date r).sent ≡ res.sent)
        × ((fields : List ℕ) × ((header iterate date r).buf
              ≡ status_line res.status_code ++ (fields ++ crlf)))
  unfolding header add_header
  header_lem r res sent code =
      let r' = add_header (codes "Date") date (add_header (codes "Server") (codes "angel") r) in
      let fields = format_headers (iterate r'.headers) in
      (sent, (fields, ap (λ c. status_line c ++ (fields ++ crlf)) code))

  send_lem :
      (entity : List ℕ) (res : Response)
      → leb buffered_size (length entity) ≡ false
      → Sends (status_line res.status_code) entity res (send iterate date entity res)
  unfolding send add_header
  send_lem entity res short =
      let r1 =
        if ltb 0 (length entity)
        then add_header (codes "Content-Length") (to_string (length entity)) res
        else res in
      let P = λ (r : Response). (r.sent ≡ res.sent) × (r.status_code ≡ res.status_code) in
      let (same_sent, same_code) =
        if-holds P (add_header (codes "Content-Length") (to_string (length entity)) res) res
          (ltb 0 (length entity)) (refl, refl) (refl, refl) in
      let (sent, (fields, buf)) = header_lem r1 res same_sent same_code in
      (fields, rw short (ap₂ (λ s b. s ++ bytes (b ++ entity) ∷ []) sent buf))

  not_modified_lem : (res : Response) → IsAnswered res (answer iterate date not_modified res)
  unfolding set_status_code
  not_modified_lem res = inl (
      subst (λ line. Sends line [] res (answer iterate date not_modified res).1) line_304
        (send_lem [] (set_status_code not_modified res) refl))

  precondition_lem :
      (res : Response) → IsAnswered res (answer_err iterate date precondition_failed res)
  unfolding set_status_code send_err add_header
  precondition_lem res = inr (
      subst
        (λ line.
          Sends line (err_page precondition_failed) res
            (answer_err iterate date precondition_failed res).1)
        line_412
        (send_lem (err_page precondition_failed)
          (add_header (codes "Content-Type") (codes "text/html")
            (set_status_code precondition_failed res))
          page_is_short))

  or_else-IsAnswered :
      (res : Response) (r next : ConditionCode × Response)
      → IsAnswered res r
      → IsAnswered res next
      → IsAnswered res (or_else iterate date r next)
  or_else-IsAnswered res (no_header, res') next h h' = h'
  or_else-IsAnswered res (successful, res') next h h' = h
  or_else-IsAnswered res (failed, res') next h h' = h

  if_none_match-IsAnswered :
      (r : Request) (res : Response) → IsAnswered res (if_none_match iterate date r res)
  unfolding if_none_match
  if_none_match-IsAnswered r res =
      Option-holds (IsAnswered res) (find (codes "If-None-Match") r.message.headers) _ _ refl
        (λ value.
          let equal = if is_get_or_head r.req_method then weak_etag_equal else strong_etag_equal in
          if-holds (IsAnswered res) _ _
            (same value (codes "*") || any_equal equal (split value b',') r.etag)
            (if-holds (IsAnswered res) _ _ (is_get_or_head r.req_method) (not_modified_lem res)
              (precondition_lem res))
            refl)

  if_modified_since-IsAnswered :
      (r : Request) (res : Response) → IsAnswered res (if_modified_since iterate date r res)
  unfolding if_modified_since
  if_modified_since-IsAnswered r res =
      Option-holds (IsAnswered res) (find (codes "If-Modified-Since") r.message.headers) _ _ refl
        (λ value.
          if-holds (IsAnswered res) _ _ (same value r.last_modified) (not_modified_lem res) refl)

  if_match-IsAnswered :
      (r : Request) (res : Response) → IsAnswered res (if_match iterate date r res)
  unfolding if_match
  if_match-IsAnswered r res =
      Option-holds (IsAnswered res) (find (codes "If-Match") r.message.headers) _ _ refl (λ value.
        if-holds (IsAnswered res) _ _
          (same value (codes "*") || any_equal strong_etag_equal (split value b',') r.etag) refl
          (precondition_lem res))

  if_unmodified_since-IsAnswered :
      (r : Request) (res : Response) → IsAnswered res (if_unmodified_since iterate date r res)
  unfolding if_unmodified_since
  if_unmodified_since-IsAnswered r res =
      Option-holds (IsAnswered res) (find (codes "If-Unmodified-Since") r.message.headers) _ _ refl
        (λ value.
          if-holds (IsAnswered res) _ _ (same value r.last_modified) refl (precondition_lem res))

  -- Whatever conditional fields a request has: a condition that fails has been answered by exactly
  -- one send, whose bytes are the status line of 304, fields and an empty line, or the status line of
  -- 412, fields, an empty line and the error page; any other has left the response as it was.
  pub handle_conditional-IsAnswered :
      (r : Request) (res : Response) → IsAnswered res (handle_conditional iterate date r res).1
  unfolding handle_conditional
  handle_conditional-IsAnswered r res =
      let r' = if_range r in
      or_else-IsAnswered res _ _ (if_none_match-IsAnswered r' res) (
        or_else-IsAnswered res _ _ (if_modified_since-IsAnswered r' res) (
          or_else-IsAnswered res _ _ (if_match-IsAnswered r' res)
            (if_unmodified_since-IsAnswered r' res)))
