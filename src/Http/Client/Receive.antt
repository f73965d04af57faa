-- ===== src/Http/Client/Receive.antt =====
-- `http_client::receive` of src/httplib/httplib.cc: the response of a leased connection.
pub mod Ends
use angel.Prelude.{
  ℕ, zero, suc, ◌+◌, ◌≡◌, List, [], ◌∷◌, Bool, true, false, Option, none, some, length,
  if◌then◌else◌,
}
use angel.Http.Client.{HttpResponse, Line, line, overrun_line, invalid_response, parse_line}
use angel.Http.Client.Pool.{Pool, release_connection, wakeup}
use angel.Http.Message.{
  Message, Outcome, parsed, overrun, parse_header, parse_body_length, parse_body,
}
use angel.Http.Request.{ParseState, parse_line_state, parse_header_state, parse_body_state}
use angel.Http.Status.{StatusCode, ok, continue}
use mathlib.Core.Option

-- A round goes on, waits for more bytes, or gives a response to the promise.
pub data Round : Type 0 where
  next : HttpResponse → List ℕ → Round
  wait : HttpResponse → List ℕ → Round
  answer : HttpResponse → List ℕ → Round
  crash : Round

-- `err`
abbrev pub refuse : HttpResponse → List ℕ → Round
refuse res buf = answer (record res { err_code = invalid_response }) buf

abbrev pub after_line : Line → Round
after_line overrun_line = crash
after_line (line code res buf) = elim code [
  | ok ↦ next (record res { state = parse_header_state }) buf
  | continue ↦ wait res buf
  | _ ↦ refuse res buf
]

abbrev pub start_with : StatusCode → HttpResponse → List ℕ → Round
start_with code res buf = elim code [
  | ok ↦ next (record res { state = parse_body_state }) buf
  | continue ↦ answer res buf
  | _ ↦ refuse res buf
]

abbrev pub after_header : HttpResponse → Outcome → Round
after_header res overrun = crash
after_header res (parsed code m buf) =
    let found = parse_body_length m in
    elim code [
      | ok ↦ start_with (found.0) (record res { message = found.1 }) buf
      | continue ↦ wait (record res { message = m }) buf
      | _ ↦ refuse (record res { message = m }) buf
    ]

abbrev pub after_body : HttpResponse → Outcome → Round
after_body res overrun = crash
after_body res (parsed code m buf) = elim code [
  | ok ↦ answer (record res { message = m }) buf
  | continue ↦ wait (record res { message = m }) buf
  | _ ↦ refuse (record res { message = m }) buf
]

abbrev pub round_in : ParseState → HttpResponse → List ℕ → Option Round
round_in parse_line_state res buf = some (after_line (parse_line res buf))
round_in parse_header_state res buf = Option.map (after_header res) (parse_header res.message buf)
round_in parse_body_state res buf = Option.map (after_body res) (parse_body res.message buf)

-- The loop, on fuel.
unfoldable pub receive_loop : ℕ → HttpResponse → List ℕ → Option Round
receive_loop zero res buf = none
receive_loop (suc fuel) res [] = some (wait res [])
receive_loop (suc fuel) res (c ∷ buf) = elim (round_in res.state res (c ∷ buf)) [
  | none ↦ none
  | some (next res' buf') ↦ receive_loop fuel res' buf'
  | some (wait res' buf') ↦ some (wait res' buf')
  | some (answer res' buf') ↦ some (answer res' buf')
  | some crash ↦ some crash
]

-- The connection goes back to its pool behind an answer, and a waiting request is woken.
unfoldable pub put_back : ℕ → Round → Pool → Pool
unfolding release_connection wakeup
put_back conn (next res buf) p = p
put_back conn (wait res buf) p = p
put_back conn (answer res buf) p = wakeup (release_connection conn p)
put_back conn crash p = p

-- A connection at rest ignores what it receives.
unfoldable pub receive : Bool → ℕ → HttpResponse → List ℕ → Option Round
unfolding receive_loop
receive leased fuel res buf = if leased then receive_loop fuel res buf else some (wait res [])
