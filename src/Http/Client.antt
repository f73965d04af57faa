-- ===== src/Http/Client.antt =====
-- The HTTP client: `http_request`, `http_response` and `http_connection_pool` of
-- include/angel/httplib.h and src/httplib/httplib.cc. A connection of a pool is a number.
pub mod Pool
pub mod Receive
use angel.Prelude.{
  ℕ, zero, suc, ◌+◌, ◌-◌, ◌≡◌, List, [], ◌∷◌, ◌++◌, Bool, true, false, not, ◌&&◌, ◌||◌, Option,
  none, some, codes, ltb, ◌==◌, length, drop, take, if◌then◌else◌,
}
use angel.Buffer.Search.{crlf, search_first}
use angel.Mime.Qp.{pop_back}
use angel.Util.{Integer, same, svtoi}
use angel.Http.Uri.{Uri, Params, encode, before, from}
use angel.Http.Message.{
  Headers, Message, Outcome, parsed, overrun, same_key, parse_header, parse_body_length, parse_body,
}
use angel.Http.Request.{
  ParseState, Version, http_version_1_0, http_version_1_1, parse_line_state, parse_header_state,
  parse_body_state,
}
use angel.Http.Response.{format_headers}
use angel.Http.Status.{StatusCode, ok, continue, bad_request}
use mathlib.Core.Option

pub record HttpRequest : Type 0 where
  pub uri : Uri
  pub headers : Headers
  pub body : List ℕ
  pub method : List ℕ

-- `headers[field] = value`
unfoldable pub assign : List ℕ → List ℕ → Headers → Headers
unfolding same_key
assign field value [] = (field, value) ∷ []
assign field value ((k, v) ∷ headers) =
    let rest = assign field value headers in
    if same_key k field then (k, value) ∷ headers else (k, v) ∷ rest

unfoldable pub format_params : Params → List ℕ
unfolding encode
format_params [] = []
format_params ((k, v) ∷ params) = encode k ++ b'=' ∷ (encode v ++ b'&' ∷ format_params params)

-- The table of the parameters and that of the fields are gone through in some order. The body is
-- no part of the text.
unfoldable pub str : (Params → Params) → (Headers → Headers) → HttpRequest → List ℕ
unfolding assign format_params format_headers
str iterate_params iterate r =
    let query = pop_back (b'?' ∷ format_params (iterate_params r.uri.params)) in
    r.method
    ++ b' '
      ∷ (r.uri.path
          ++ ((if length r.uri.params == 0 then [] else query)
              ++ b' '
                ∷ (codes "HTTP/1.1"
                    ++ (crlf
                        ++ (format_headers (iterate (assign (codes "Host") r.uri.host r.headers))
                            ++ crlf)))))

pub data ErrorCode : Type 0 where
  no_error : ErrorCode
  invalid_request : ErrorCode
  invalid_response : ErrorCode
  resolve_timeout_or_no_available_addr : ErrorCode
  connection_timeout : ErrorCode
  request_timeout : ErrorCode
  pending_timeout : ErrorCode
  connection_reset_by_peer : ErrorCode

abbrev pub err_str : ErrorCode → List ℕ
err_str invalid_request = codes "Invalid Request"
err_str invalid_response = codes "Invalid Response"
err_str resolve_timeout_or_no_available_addr = codes "Resolve Timeout Or No Available Addr"
err_str connection_timeout = codes "Connection Timeout"
err_str request_timeout = codes "Request Timeout"
err_str pending_timeout = codes "Pending Timeout"
err_str connection_reset_by_peer = codes "Connection Reset By Peer"
err_str no_error = codes "None"

pub record HttpResponse : Type 0 where
  pub message : Message
  pub err_code : ErrorCode
  pub http_version : Version
  pub status_code : Integer
  pub status_message : List ℕ
  pub state : ParseState

-- What a line gives; without a second space the rest would begin behind the end of the line.
pub data Line : Type 0 where
  line : StatusCode → HttpResponse → List ℕ → Line
  overrun_line : Line

-- A code that is no number is 0.
abbrev pub code_or : Option Integer → Integer
code_or none = record { negative = false; size = 0 }
code_or (some n) = n

-- Behind the code: the rest begins with the space, or is empty.
abbrev pub parse_status : List ℕ → HttpResponse → List ℕ → List ℕ → Line
parse_status message r buf rest =
    let bad = r.status_code.negative || r.status_code.size == 0 in
    elim message [
      | [] ↦ if bad then line bad_request r buf else overrun_line
      | c ∷ text ↦
          if bad then line bad_request r buf else line ok (record r { status_message = text }) rest
    ]

unfoldable pub parse_code : List ℕ → HttpResponse → List ℕ → List ℕ → Line
unfolding svtoi
parse_code [] r buf rest = overrun_line
parse_code (c ∷ p) r buf rest =
    parse_status (from b' ' p) (record r { status_code = code_or (svtoi (before b' ' p)) }) buf rest

unfoldable pub parse_line : HttpResponse → List ℕ → Line
unfolding parse_code search_first
parse_line r buf = elim (search_first crlf buf) [
  | none ↦ line continue r buf
  | some n ↦
      let text = take n buf in
      let rest = drop (n + 2) buf in
      if same (before b' ' text) (codes "HTTP/1.1")
      then parse_code (from b' ' text) (record r { http_version = http_version_1_1 }) buf rest
      else if same (before b' ' text) (codes "HTTP/1.0")
      then parse_code (from b' ' text) (record r { http_version = http_version_1_0 }) buf rest
      else line bad_request r buf
]
