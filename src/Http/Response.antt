-- ===== src/Http/Response.antt =====
-- `response` of include/angel/httplib.h and src/httplib/httplib.cc. What goes to the connection is
-- a list of its calls. The order in which the table of the fields is gone through, and the date,
-- are arguments.
pub mod Stream
use angel.Prelude.{
  ℕ, zero, suc, ◌+◌, ◌-◌, ◌*◌, ◌/◌, ◌%◌, ◌≡◌, List, [], ◌∷◌, ◌++◌, Bool, true, false, not, codes,
  leb, ltb, ◌==◌, length, take, if◌then◌else◌,
}
use angel.Buffer.Search.{crlf}
use angel.Http.Integers.{hex_text}
use angel.Http.Message.{Headers, emplace}
use angel.Http.Status.{StatusCode, to_str}
use angel.Http.Status

-- `std::to_string` of a size; 20 digits are enough for 64 bits.
unfoldable pub decimal_text : ℕ → ℕ → List ℕ
decimal_text zero n = []
decimal_text (suc digits) n =
    (if n / 10 == 0 then [] else decimal_text digits (n / 10)) ++ (n % 10 + b'0') ∷ []

unfoldable pub to_string : ℕ → List ℕ
unfolding decimal_text
to_string n = decimal_text 20 n

-- What the connection is told: to send bytes, a part of the open file from an offset on, to close.
pub data Sent : Type 0 where
  bytes : List ℕ → Sent
  file : ℕ → ℕ → Sent
  close : Sent

pub record Response : Type 0 where
  pub status_code : StatusCode
  pub headers : Headers
  pub buf : List ℕ
  pub chunked : Bool
  pub chunked_buf : List ℕ
  pub sent : List Sent

unfoldable pub set_status_code : StatusCode → Response → Response
set_status_code code r = record r { status_code = code }

unfoldable pub add_header : List ℕ → List ℕ → Response → Response
unfolding emplace
add_header field value r = record r { headers = emplace field value r.headers }

abbrev pub conn_send : List ℕ → Response → Response
conn_send s r = record r { sent = r.sent ++ bytes s ∷ [] }

abbrev pub conn_close : Response → Response
conn_close r = record r { sent = r.sent ++ close ∷ [] }

unfoldable pub format_header : List ℕ → List ℕ → List ℕ
format_header field value = field ++ (codes ": " ++ (value ++ crlf))

unfoldable pub format_headers : Headers → List ℕ
unfolding format_header
format_headers [] = []
format_headers ((field, value) ∷ headers) = format_header field value ++ format_headers headers

unfoldable pub status_line : StatusCode → List ℕ
unfolding to_string
status_line code =
    codes "HTTP/1.1" ++ b' ' ∷ (to_string (Status.number code) ++ b' ' ∷ (to_str code ++ crlf))

abbrev pub buffered_size : ℕ
buffered_size = 4096

-- `snprintf` into 16 bytes, the last of which is the zero.
unfoldable pub size_line : List ℕ → List ℕ
unfolding hex_text
size_line chunk = take 15 (hex_text 16 (length chunk) ++ crlf)

unfoldable pub put_chunk : List ℕ → Response → Response
unfolding size_line
put_chunk chunk r =
    let line = r.chunked_buf ++ size_line chunk in
    let all = line ++ (chunk ++ crlf) in
    if leb buffered_size (length chunk)
    then record (conn_send chunk (conn_send line r)) { chunked_buf = crlf }
    else if leb buffered_size (length all)
    then record (conn_send all r) { chunked_buf = [] }
    else record r { chunked_buf = all }

module _ (iterate : Headers → Headers) (date : List ℕ) where
  -- The head is left in `buf`.
  unfoldable pub header : Response → Response
  unfolding add_header format_headers status_line
  header r =
      let r' = add_header (codes "Date") date (add_header (codes "Server") (codes "angel") r) in
      record r' {
        buf = status_line r.status_code ++ (format_headers (iterate r'.headers) ++ crlf);
        headers = [];
      }

  unfoldable pub send : List ℕ → Response → Response
  unfolding header add_header to_string
  send body r =
      let r1 =
        if ltb 0 (length body)
        then add_header (codes "Content-Length") (to_string (length body)) r
        else r in
      let r2 = header r1 in
      let all = r2.buf ++ body in
      if leb buffered_size (length body)
      then conn_send body (conn_send r2.buf r2)
      else conn_send all (record r2 { buf = all })

  unfoldable pub set_content : List ℕ → List ℕ → Response → Response
  unfolding send add_header
  set_content body type r = send body (add_header (codes "Content-Type") type r)

  -- The head, before the first chunk.
  unfoldable pub open_chunks : List ℕ → Response → Response
  unfolding header add_header
  open_chunks chunk r =
      let r1 =
        header (
          add_header (codes "Transfer-Encoding") (codes "chunked") (record r { chunked = true })) in
      if r.chunked
      then r
      else if leb buffered_size (length chunk)
      then conn_send r1.buf r1
      else record r1 { chunked_buf = r1.chunked_buf ++ r1.buf }

  unfoldable pub send_chunk : List ℕ → Response → Response
  unfolding open_chunks put_chunk
  send_chunk chunk r = put_chunk chunk (open_chunks chunk r)

unfoldable pub send_done : Response → Response
send_done r = record (conn_send (r.chunked_buf ++ b'0' ∷ (crlf ++ crlf)) r) {
  chunked = false;
  chunked_buf = [];
}
