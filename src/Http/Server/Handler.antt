-- ===== src/Http/Server/Handler.antt =====
-- `message_handler` of src/httplib/httplib.cc, while the connection is connected.
pub mod Ends
use angel.Prelude.{
  ℕ, zero, suc, ◌*◌, List, [], ◌∷◌, ◌++◌, Bool, not, Option, none, some, codes, ltb, if◌then◌else◌,
}
use angel.Util.{same}
use mathlib.Core.Option
use angel.Http.Message.{
  Headers, Outcome, parsed, overrun, find, is_some, parse_header, parse_body_length, parse_body,
}
use angel.Http.Ranges.{handle_range_request}
use angel.Http.Request.{
  Request, Method, ParseState, Line, line, reversed, options, get, head, post, put, delete, trace,
  connect, parse_line, parse_line_state, parse_header_state, parse_body_state, keepalive,
}
use angel.Http.Request
use angel.Http.Request.Conditional.{
  ConditionCode, no_header, successful, failed, send_err, handle_conditional, expect,
}
use angel.Http.Response.{Response, file, set_status_code, add_header, send, conn_close, to_string}
use angel.Http.Status.{
  StatusCode, ok, continue, created, no_content, bad_request, not_found, not_implemented,
  internal_server_error,
}
use angel.Http.Server.{Server, Served, served, thrown, FileCall, process_request}

-- A round of message_handler goes on, or returns, or the program has no meaning or an exception.
pub data Round : Type 0 where
  next : Request → Response → List FileCall → List ℕ → Round
  return : Request → Response → List FileCall → List ℕ → Round
  crash : Round

module _ (s : Server) where
  -- `err`
  unfoldable pub refuse : StatusCode → Request → Response → List ℕ → Round
  unfolding send_err add_header set_status_code
  refuse code r res buf =
      let res' = add_header (codes "Connection") (codes "close") (set_status_code code res) in
      return r (conn_close (send_err s.iterate s.date res')) [] buf

  abbrev pub go_on : List ℕ → Served → Round
  go_on buf thrown = crash
  go_on buf (served r res calls) = next r res calls buf

  unfoldable pub process : Request → Response → List ℕ → Round
  process r res buf = go_on buf (process_request s r res)

  abbrev pub after_line : Response → Line → Round
  after_line res reversed = crash
  after_line res (line code r buf) = elim code [
    | ok ↦ next (record r { state = parse_header_state }) res [] buf
    | continue ↦ return r res [] buf
    | other ↦ refuse other r res buf
  ]

  unfoldable pub line_round : Request → Response → List ℕ → Round
  line_round r res buf = after_line res (parse_line r buf)

  abbrev pub start_with : StatusCode → Request → Response → List ℕ → Round
  start_with code r res buf = elim code [
    | ok ↦ next (record r { state = parse_body_state }) res [] buf
    | continue ↦ process r res buf
    | other ↦ refuse other r res buf
  ]

  -- Behind the fields and `Expect`.
  unfoldable pub start_body : Request → Response → List ℕ → Round
  start_body r res buf =
      let found = parse_body_length r.message in
      start_with (found.0) (record r { message = found.1 }) res buf

  abbrev pub after_expect : Request → ConditionCode → Response → List ℕ → Round
  after_expect r failed res buf = return (Request.clear r) res [] buf
  after_expect r no_header res buf = start_body r res buf
  after_expect r successful res buf = start_body r res buf

  unfoldable pub end_header : Request → Response → List ℕ → Round
  end_header r res buf =
      let expected = expect s.iterate s.date r res in
      if is_some (find (codes "Host") r.message.headers)
      then after_expect r (expected.0) (expected.1) buf
      else refuse bad_request r res buf

  abbrev pub after_header : Request → Response → Outcome → Round
  after_header r res overrun = crash
  after_header r res (parsed code m buf) =
      let r' = record r { message = m } in
      elim code [
        | ok ↦ end_header r' res buf
        | continue ↦ return r' res [] buf
        | other ↦ refuse other r' res buf
      ]

  abbrev pub after_body : Request → Response → Outcome → Round
  after_body r res overrun = crash
  after_body r res (parsed code m buf) =
      let r' = record r { message = m } in
      elim code [
        | ok ↦ process r' res buf
        | continue ↦ return r' res [] buf
        | other ↦ refuse other r' res buf
      ]

  abbrev pub round_in : ParseState → Request → Response → List ℕ → Option Round
  round_in parse_line_state r res buf = some (line_round r res buf)
  round_in parse_header_state r res buf =
      Option.map (after_header r res) (parse_header r.message buf)
  round_in parse_body_state r res buf = Option.map (after_body r res) (parse_body r.message buf)

  unfoldable pub handler_round : Request → Response → List ℕ → Option Round
  handler_round r res buf = round_in r.state r res buf

  -- The loop of message_handler, while the connection is connected, on fuel.
  unfoldable pub message_handler : ℕ → Request → Response → List FileCall → List ℕ → Option Round
  message_handler zero r res calls buf = none
  message_handler (suc fuel) r res calls [] = some (return r res calls [])
  message_handler (suc fuel) r res calls (c ∷ buf) = elim (handler_round r res (c ∷ buf)) [
    | none ↦ none
    | some (next r' res' more buf') ↦ message_handler fuel r' res' (calls ++ more) buf'
    | some (return r' res' more buf') ↦ some (return r' res' (calls ++ more) buf')
    | some crash ↦ some crash
  ]
