-- ===== src/Http/Request/Conditional.antt =====
-- The conditional fields of a request: src/httplib/httplib.cc.
pub mod Answers
use angel.Prelude.{
  ℕ, zero, suc, ◌+◌, ◌≡◌, List, [], ◌∷◌, ◌++◌, Bool, true, false, not, ◌&&◌, ◌||◌, Option, none,
  some, codes, length, if◌then◌else◌,
}
use angel.Util.{same, split, equal_case}
use angel.Http.Message.{Headers, same_key, find, is_some}
use angel.Http.Request.{Request, Method, get, head}
use angel.Http.Response.{Response, set_status_code, add_header, send, to_string}
use angel.Http.Status.{StatusCode, not_modified, precondition_failed, expectation_failed, to_str}
use angel.Http.Status
use angel.Http.Validators.{is_etag, strong_etag_equal, weak_etag_equal}

pub data ConditionCode : Type 0 where
  no_header : ConditionCode
  successful : ConditionCode
  failed : ConditionCode

-- The page is cut off at 1023 bytes by `snprintf`; no text of a code is as long.
unfoldable pub err_page : StatusCode → List ℕ
unfolding to_string
err_page code =
    let title = to_string (Status.number code) ++ b' ' ∷ to_str code in
    codes "<html>\n<head><title>"
    ++ (title
        ++ (codes "</title></head>\n<body>\n<center><h1>"
            ++ (title
                ++ codes "</h1></center>\n<hr><center>ange-server</center>\n</body>\n</html>")))

-- `headers.erase`
unfoldable pub erase : List ℕ → Headers → Headers
unfolding same_key
erase field [] = []
erase field ((k, v) ∷ headers) =
    let rest = erase field headers in if same_key k field then rest else (k, v) ∷ rest

abbrev pub is_get_or_head : Method → Bool
is_get_or_head get = true
is_get_or_head head = true
is_get_or_head m = false

abbrev pub any_equal : (List ℕ → List ℕ → Bool) → List (List ℕ) → List ℕ → Bool
any_equal equal [] etag = false
any_equal equal (x ∷ etags) etag = equal x etag || any_equal equal etags etag

-- `if_range` can only take the field `Range` away.
unfoldable pub if_range : Request → Request
unfolding find is_etag strong_etag_equal erase
if_range r =
    let without = record r {
      message = record r.message { headers = erase (codes "Range") r.message.headers };
    } in
    elim (find (codes "If-Range") r.message.headers) [
      | none ↦ r
      | some value ↦
          if not (is_some (find (codes "Range") r.message.headers))
          then r
          else if is_etag value
          then if strong_etag_equal value r.etag then r else without
          else if same value r.last_modified
          then r
          else without
    ]

module _ (iterate : Headers → Headers) (date : List ℕ) where
  unfoldable pub send_err : Response → Response
  unfolding send add_header err_page
  send_err res =
      send iterate date (err_page res.status_code)
        (add_header (codes "Content-Type") (codes "text/html") res)

  -- An answer without the entity.
  abbrev pub answer : StatusCode → Response → ConditionCode × Response
  answer code res = (failed, send iterate date [] (set_status_code code res))

  abbrev pub answer_err : StatusCode → Response → ConditionCode × Response
  answer_err code res = (failed, send_err (set_status_code code res))

  unfoldable pub if_match : Request → Response → ConditionCode × Response
  unfolding find split strong_etag_equal send_err set_status_code
  if_match r res = elim (find (codes "If-Match") r.message.headers) [
    | none ↦ (no_header, res)
    | some value ↦
        if same value (codes "*") || any_equal strong_etag_equal (split value b',') r.etag
        then (successful, res)
        else answer_err precondition_failed res
  ]

  unfoldable pub if_modified_since : Request → Response → ConditionCode × Response
  unfolding find send set_status_code
  if_modified_since r res = elim (find (codes "If-Modified-Since") r.message.headers) [
    | none ↦ (no_header, res)
    | some value ↦ if same value r.last_modified then answer not_modified res else (successful, res)
  ]

  unfoldable pub if_none_match : Request → Response → ConditionCode × Response
  unfolding find split strong_etag_equal weak_etag_equal send send_err set_status_code
  if_none_match r res = elim (find (codes "If-None-Match") r.message.headers) [
    | none ↦ (no_header, res)
    | some value ↦
        let equal = if is_get_or_head r.req_method then weak_etag_equal else strong_etag_equal in
        if same value (codes "*") || any_equal equal (split value b',') r.etag
        then if is_get_or_head r.req_method
          then answer not_modified res
          else answer_err precondition_failed res
        else (successful, res)
  ]

  unfoldable pub if_unmodified_since : Request → Response → ConditionCode × Response
  unfolding find send_err set_status_code
  if_unmodified_since r res = elim (find (codes "If-Unmodified-Since") r.message.headers) [
    | none ↦ (no_header, res)
    | some value ↦
        if same value r.last_modified then (successful, res) else answer_err precondition_failed res
  ]

  -- The first condition that a field sets decides.
  abbrev pub or_else :
      ConditionCode × Response → ConditionCode × Response → ConditionCode × Response
  or_else (no_header, res) next = next
  or_else (successful, res) next = (successful, res)
  or_else (failed, res) next = (failed, res)

  unfoldable pub handle_conditional : Request → Response → Request × (ConditionCode × Response)
  unfolding if_range if_none_match if_modified_since if_match if_unmodified_since
  handle_conditional r res =
      let r' = if_range r in
      (
        r',
        or_else (if_none_match r' res) (
            or_else (if_modified_since r' res)
              (or_else (if_match r' res) (if_unmodified_since r' res))),
      )

  unfoldable pub expect : Request → Response → ConditionCode × Response
  unfolding find equal_case send_err set_status_code
  expect r res = elim (find (codes "Expect") r.message.headers) [
    | none ↦ (no_header, res)
    | some value ↦
        if equal_case value (codes "100-continue")
        then (successful, res)
        else answer_err expectation_failed res
  ]
