-- ===== src/Http/Server/Handler/Ends.antt =====
-- src/httplib/httplib.cc: the loop of message_handler ends.
use angel.Prelude.{
  ℕ, zero, suc, ◌+◌, ◌*◌, ◌<◌, ◌≡◌, refl, subst, List, [], ◌∷◌, ◌++◌, Bool, Option, none, some,
  arith, codes, length,
}
use angel.Connection.Stream.{if-holds}
use angel.Http.Message.{Message, Outcome, parsed, overrun, parse_body_length, find, is_some}
use angel.Http.Message.Ends.{parse_header_ends, parse_body_ends}
use angel.Http.Message.Sizes.{IsLeft, IsFewer, Maybe, parse_header-IsFewer, parse_body-IsLeft}
use angel.Http.Request.{
  Request, ParseState, Line, line, reversed, parse_line_state, parse_header_state, parse_body_state,
  parse_version, parse_query, parse_uri, parse_words, parse_line, find_method, methods,
  uri_max_length,
}
use angel.Http.Request
use angel.Http.Request.Conditional.{ConditionCode, failed, no_header, successful, expect}
use angel.Http.Response.{Response}
use angel.Http.Server.{
  Server, Served, served, thrown, FileCall, dispatch, process_request, end_request,
}
use angel.Http.Server.Handler.{
  Round, next, return, crash, process, refuse, line_round, start_body, end_header, after_header,
  after_body, handler_round, message_handler, go_on, after_line, start_with, after_expect, round_in,
}
use angel.Http.Status.{StatusCode, ok, continue}
use angel.Http.Request.Sizes.{FewerLine, parse_line-FewerLine}

-- A round that reads a body takes part of no line.
abbrev bonus : ParseState → ℕ
bonus parse_line_state = 0
bonus parse_header_state = 0
bonus parse_body_state = 1

abbrev weight : Request → List ℕ → ℕ
weight r buf = 2 * length buf + bonus r.state

-- A round that goes on leaves less than this weight.
abbrev IsLighter : ℕ → Round → Type 0
IsLighter n (next r res calls buf) = weight r buf < n
IsLighter n (return r res calls buf) = Unit {0}
IsLighter n crash = Unit {0}

module _ (s : Server) where
  go_on-IsLighter :
      (n : ℕ) (keep : Bool) (buf : List ℕ) (x : Served)
      → 2 * length buf < n
      → IsLighter n (go_on s buf (end_request s keep x))
  unfolding Request.clear
  go_on-IsLighter n keep buf thrown h = tt
  go_on-IsLighter n keep buf (served r res calls) h = omega arith

  process-IsLighter :
      (n : ℕ) (r : Request) (res : Response) (buf : List ℕ)
      → 2 * length buf < n
      → IsLighter n (process s r res buf)
  unfolding process process_request
  process-IsLighter n r res buf h = go_on-IsLighter n (Request.keepalive r) buf (dispatch s r _) h

  after_line-IsLighter :
      (n : ℕ) (res : Response) (l : Line) → FewerLine n l → IsLighter (2 * n) (after_line s res l)
  unfolding refuse
  after_line-IsLighter n res reversed h = tt
  after_line-IsLighter n res (line code r buf) h =
      elim code
          as (λ code.
            FewerLine n (line code r buf)
            → IsLighter (2 * n) (after_line s res (line code r buf))) [
              | ok ↦ λ fewer. omega arith
              | continue ↦ λ fewer. tt
              | _ ↦ λ fewer. tt
            ]
        h

  start_body-IsLighter :
      (n : ℕ) (r : Request) (res : Response) (buf : List ℕ)
      → 2 * length buf + 1 < n
      → IsLighter n (start_body s r res buf)
  unfolding start_body refuse
  start_body-IsLighter n r res buf h =
      body_lem ((parse_body_length r.message).0) ((parse_body_length r.message).1)
    where
      body_lem :
          (code : StatusCode) (m : Message)
          → IsLighter n (start_with s code (record r { message = m }) res buf)
      body_lem code m =
          elim code
            as (λ code. IsLighter n (start_with s code (record r { message = m }) res buf)) [
              | ok ↦ omega arith
              | continue ↦ process-IsLighter n (record r { message = m }) res buf (omega arith)
              | _ ↦ tt
            ]

  end_header-IsLighter :
      (n : ℕ) (r : Request) (res : Response) (buf : List ℕ)
      → 2 * length buf + 1 < n
      → IsLighter n (end_header s r res buf)
  unfolding end_header refuse
  end_header-IsLighter n r res buf h =
      let (code, res') = expect s.iterate s.date r res in
      if-holds (IsLighter n) _ _ (is_some (find (codes "Host") r.message.headers))
        (expect_lem code res') tt
    where
      expect_lem :
          (code : ConditionCode) (res : Response) → IsLighter n (after_expect s r code res buf)
      expect_lem failed res = tt
      expect_lem no_header res = start_body-IsLighter n r res buf h
      expect_lem successful res = start_body-IsLighter n r res buf h

  after_header-IsLighter :
      (n : ℕ) (r : Request) (res : Response) (o : Outcome)
      → IsFewer n o
      → IsLighter (2 * n) (after_header s r res o)
  unfolding refuse
  after_header-IsLighter n r res overrun h = tt
  after_header-IsLighter n r res (parsed code m buf) h =
      elim code
          as (λ code.
            IsFewer n (parsed code m buf)
            → IsLighter (2 * n) (after_header s r res (parsed code m buf))) [
              | ok ↦ λ fewer.
                  end_header-IsLighter (2 * n) (record r { message = m }) res buf (omega arith)
              | continue ↦ λ fewer. tt
              | _ ↦ λ fewer. tt
            ]
        h

  after_body-IsLighter :
      (n : ℕ) (r : Request) (res : Response) (o : Outcome)
      → IsLeft n o
      → IsLighter (2 * n + 1) (after_body s r res o)
  unfolding refuse
  after_body-IsLighter n r res overrun h = tt
  after_body-IsLighter n r res (parsed code m buf) h =
      elim code as (λ code. IsLighter (2 * n + 1) (after_body s r res (parsed code m buf))) [
        | ok ↦ process-IsLighter (2 * n + 1) (record r { message = m }) res buf (omega arith)
        | continue ↦ tt
        | _ ↦ tt
      ]

  round_in-IsLighter :
      (state : ParseState) (r : Request) (res : Response) (buf : List ℕ)
      → 0 < length buf
      → (x : Round) × (round_in s state r res buf ≡ some x)
        × IsLighter (2 * length buf + bonus state) x
  unfolding line_round
  round_in-IsLighter parse_line_state r res buf h =
      let lighter = after_line-IsLighter (length buf) res _ (parse_line-FewerLine r buf h) in
      (
        line_round s r res buf,
        refl,
        subst (λ n. IsLighter n (line_round s r res buf)) (omega arith) lighter,
      )
  round_in-IsLighter parse_header_state r res buf h =
      let (o, e) = parse_header_ends r.message buf in
      let fewer : IsFewer (length buf) o =
        subst (Maybe (IsFewer (length buf))) e (parse_header-IsFewer r.message buf) in
      let lighter = after_header-IsLighter (length buf) r res o fewer in
      (
        after_header s r res o,
        rw e refl,
        subst (λ n. IsLighter n (after_header s r res o)) (omega arith) lighter,
      )
  round_in-IsLighter parse_body_state r res buf h =
      let (o, e) = parse_body_ends r.message buf in
      let left : IsLeft (length buf) o =
        subst (Maybe (IsLeft (length buf))) e (parse_body-IsLeft r.message buf) in
      (after_body s r res o, rw e refl, after_body-IsLighter (length buf) r res o left)

  abbrev Ends : Option Round → Type 0
  Ends o = (x : Round) × (o ≡ some x)

  handler_step :
      (n : ℕ) (loop : Request → Response → List FileCall → List ℕ → Option Round)
      (calls : List FileCall) (x : Round)
      → IsLighter n x
      → ((r : Request) (res : Response) (calls : List FileCall) (buf : List ℕ)
          → weight r buf < n
          → Ends (loop r res calls buf))
      → Ends (elim (some x) [
        | none ↦ none
        | some (next r res more buf) ↦ loop r res (calls ++ more) buf
        | some (return r res more buf) ↦ some (return r res (calls ++ more) buf)
        | some crash ↦ some crash
      ])
  handler_step n loop calls (next r res more buf) h ends = ends r res (calls ++ more) buf h
  handler_step n loop calls (return r res more buf) h ends = (_, refl)
  handler_step n loop calls crash h ends = (_, refl)

  handler_loop_ends :
      (fuel : ℕ) (r : Request) (res : Response) (calls : List FileCall) (buf : List ℕ)
      → weight r buf < fuel
      → Ends (message_handler s fuel r res calls buf)
  unfolding message_handler handler_round
  handler_loop_ends zero r res calls buf h = absurd (omega arith)
  handler_loop_ends (suc fuel) r res calls [] h = (_, refl)
  handler_loop_ends (suc fuel) r res calls (c ∷ buf) h =
      let (x, e, lighter) = round_in-IsLighter r.state r res (c ∷ buf) (omega arith) in
      rw (e, message_handler)
        (handler_step (weight r (c ∷ buf)) (message_handler s fuel) calls x lighter
          (λ r' res' calls' buf' less. handler_loop_ends fuel r' res' calls' buf' (omega arith)))

-- The loop of message_handler ends in every state of the request, whatever the bytes are, whatever
-- the users' handlers do and whatever the file system answers: two rounds more than twice the
-- number of bytes are enough.
pub http_message_handler_ends :
    (s : Server) (r : Request) (res : Response) (buf : List ℕ)
    → (x : Round) × (message_handler s (2 * length buf + 2) r res [] buf ≡ some x)
http_message_handler_ends s r res buf =
    handler_loop_ends s (2 * length buf + 2) r res [] buf (bonus_lem r.state)
  where
    bonus_lem : (state : ParseState) → 2 * length buf + bonus state < 2 * length buf + 2
    bonus_lem parse_line_state = omega arith
    bonus_lem parse_header_state = omega arith
    bonus_lem parse_body_state = omega arith
