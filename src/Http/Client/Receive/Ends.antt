-- ===== src/Http/Client/Receive/Ends.antt =====
-- src/httplib/httplib.cc: the loop of http_client::receive ends.
use angel.Prelude.{ℕ, zero, suc, ◌<◌, ◌≡◌, refl, List, [], ◌∷◌, Option, none, some, arith}
use angel.Http.Client.{HttpResponse, Line, line, overrun_line, parse_line}
use angel.Http.Client.Receive.{
  Round, next, wait, answer, crash, after_line, start_with, after_header, after_body, round_in,
  receive_loop,
}
use angel.Http.Message.{Outcome, parsed, overrun, parse_body_length}
use angel.Http.Message.Ends.{parse_header_ends, parse_body_ends}
use angel.Http.Request.{ParseState, parse_line_state, parse_header_state, parse_body_state}
use angel.Http.Status.{StatusCode, ok, continue}

-- How many parts of a message are still behind this one.
abbrev left : ParseState → ℕ
left parse_line_state = 2
left parse_header_state = 1
left parse_body_state = 0

-- A round that goes on is in a later part.
abbrev IsLater : ℕ → Round → Type 0
IsLater n (next res buf) = left res.state < n
IsLater n (wait res buf) = Unit {0}
IsLater n (answer res buf) = Unit {0}
IsLater n crash = Unit {0}

after_line-IsLater : (l : Line) → IsLater 2 (after_line l)
after_line-IsLater overrun_line = tt
after_line-IsLater (line code res buf) =
    elim code as (λ code. IsLater 2 (after_line (line code res buf))) [
      | ok ↦ omega arith
      | continue ↦ tt
      | _ ↦ tt
    ]

start_with-IsLater :
    (code : StatusCode) (res : HttpResponse) (buf : List ℕ) → IsLater 1 (start_with code res buf)
start_with-IsLater code res buf = elim code as (λ code. IsLater 1 (start_with code res buf)) [
  | ok ↦ omega arith
  | continue ↦ tt
  | _ ↦ tt
]

after_header-IsLater : (res : HttpResponse) (o : Outcome) → IsLater 1 (after_header res o)
after_header-IsLater res overrun = tt
after_header-IsLater res (parsed code m buf) =
    elim code as (λ code. IsLater 1 (after_header res (parsed code m buf))) [
      | ok ↦
          start_with-IsLater (parse_body_length m).0
            (record res { message = (parse_body_length m).1 }) buf
      | continue ↦ tt
      | _ ↦ tt
    ]

after_body-IsLater : (res : HttpResponse) (o : Outcome) → IsLater 0 (after_body res o)
after_body-IsLater res overrun = tt
after_body-IsLater res (parsed code m buf) =
    elim code as (λ code. IsLater 0 (after_body res (parsed code m buf))) [
      | ok ↦ tt
      | continue ↦ tt
      | _ ↦ tt
    ]

round_in-IsLater :
    (state : ParseState) (res : HttpResponse) (buf : List ℕ)
    → (x : Round) × (round_in state res buf ≡ some x) × IsLater (left state) x
round_in-IsLater parse_line_state res buf = (_, refl, after_line-IsLater (parse_line res buf))
round_in-IsLater parse_header_state res buf =
    let (o, e) = parse_header_ends res.message buf in
    (after_header res o, rw e refl, after_header-IsLater res o)
round_in-IsLater parse_body_state res buf =
    let (o, e) = parse_body_ends res.message buf in
    (after_body res o, rw e refl, after_body-IsLater res o)

abbrev Ends : Option Round → Type 0
Ends o = (x : Round) × (o ≡ some x)

receive_step :
    (n : ℕ) (loop : HttpResponse → List ℕ → Option Round) (x : Round)
    → IsLater n x
    → ((res : HttpResponse) (buf : List ℕ) → left res.state < n → Ends (loop res buf))
    → Ends (elim (some x) [
      | none ↦ none
      | some (next res buf) ↦ loop res buf
      | some (wait res buf) ↦ some (wait res buf)
      | some (answer res buf) ↦ some (answer res buf)
      | some crash ↦ some crash
    ])
receive_step n loop (next res buf) h ends = ends res buf h
receive_step n loop (wait res buf) h ends = (_, refl)
receive_step n loop (answer res buf) h ends = (_, refl)
receive_step n loop crash h ends = (_, refl)

-- The loop ends behind at most as many rounds as a message has parts, whatever the bytes are.
pub receive_loop_ends :
    (fuel : ℕ) (res : HttpResponse) (buf : List ℕ)
    → left res.state < fuel
    → Ends (receive_loop fuel res buf)
unfolding receive_loop
receive_loop_ends zero res buf h = absurd (omega arith)
receive_loop_ends (suc fuel) res [] h = (_, refl)
receive_loop_ends (suc fuel) res (c ∷ buf) h =
    let (x, e, later) = round_in-IsLater res.state res (c ∷ buf) in
    rw (e, receive_loop)
      (receive_step (left res.state) (receive_loop fuel) x later
        (λ res' buf' less. receive_loop_ends fuel res' buf' (omega arith)))
