-- ===== src/WebSocket/Handshake/Progress.antt =====
-- The rounds of the message handler of src/websocket/ws-server.cc take bytes out of the buffer.
use angel.Prelude.{
  ℕ, zero, suc, ◌+◌, ◌/◌, ◌^◌, ◌<◌, ◌≡◌, refl, List, Bool, true, false, not, Option, some, none,
  arith, get_or, bit_and, ◌==◌, inl, inr, Bool-cases,
}
use angel.Buffer.{Buffer, contents, readable, retrieve}
use angel.Buffer.Laws.{IsValid}
use angel.Buffer.Queue.{retrieve-drops}
use angel.Buffer.Search.{find_crlf}
use angel.WebSocket.{
  Context, State, handshake, handshake_ok, handshake_error, establish, Decoded, ok, error,
  not_enough, ping, pong, close, returns, overrun, throws, decode, decode_frame, take_payload,
  copy_outside, decode_payload_len, extent, Extent, code_of,
}
use angel.WebSocket.Handshake.{
  Step, to, crash, request_line, header_line, handshake_line, Shaken, done, crashed, no_fuel,
  after_line, handshake_lines,
}

-- Taking bytes makes a nonempty buffer smaller.
pub retrieve-less :
    (b : Buffer) (k : ℕ)
    → IsValid b
    → 0 < k
    → 0 < readable b
    → IsValid (retrieve b k) × (readable (retrieve b k) < readable b)
retrieve-less b k v pos some_byte = ((retrieve-drops b k v).0, less)
  where
    less : readable (retrieve b k) < readable b
    less = unfold retrieve in ground (arith, v.ordered, v.fits)

-- After a code with which the loop goes on, fewer bytes are left.
abbrev pub Progress : State → Buffer → Decoded → Type 0
Progress st b overrun = Unit {0}
Progress st b throws = Unit {0}
Progress st b (returns error c b') = Unit {0}
Progress st b (returns not_enough c b') = Unit {0}
Progress st b (returns close c b') = Unit {0}
Progress st b (returns ok c b') = (c.state ≡ st) × IsValid b' × (readable b' < readable b)
Progress st b (returns ping c b') = (c.state ≡ st) × IsValid b' × (readable b' < readable b)
Progress st b (returns pong c b') = (c.state ≡ st) × IsValid b' × (readable b' < readable b)

pub take_payload-Progress :
    (ctx : Context) (b : Buffer) (fin : Bool) (op : ℕ) (mask : Bool) (e : Extent)
    → IsValid b
    → 0 < readable b
    → 0 < e.payload_at
    → Progress ctx.state b (take_payload ctx b fin op mask e)
unfolding take_payload copy_outside code_of
take_payload-Progress ctx b fin op mask e v h at =
    let r = retrieve-less b (e.payload_at + e.payload_len) v (omega arith) h in
    ground (arith, r.0, r.1)

-- The payload of a frame never stands at its first byte.
abbrev pub Behind : Option Extent → Type 0
Behind none = Unit {0}
Behind (some e) = 0 < e.payload_at

pub extent-Behind : (n i : ℕ) (mask : Bool) (r : ℕ) → 0 < i → Behind (extent n i mask r)
unfolding extent
extent-Behind n i mask r h = ground arith

pub decode_payload_len-Behind :
    (n : ℕ) (b : List ℕ) (r : ℕ) (mask : Bool) → Behind (decode_payload_len n b r mask)
unfolding decode_payload_len extent
decode_payload_len-Behind n b r mask = ground arith

pub decode_frame-Progress :
    (ctx : Context) (b : Buffer) (fin : Bool) (op : ℕ) (mask : Bool) (n : ℕ)
    → IsValid b
    → 0 < readable b
    → Progress ctx.state b (decode_frame ctx b fin op mask n)
unfolding decode_frame
decode_frame-Progress ctx b fin op mask n v h =
    let size = decode_payload_len n (contents b) (readable b) mask in
    go size refl (decode_payload_len-Behind n (contents b) (readable b) mask)
  where
    go :
        (o : Option Extent)
        → decode_payload_len n (contents b) (readable b) mask ≡ o
        → Behind o
        → Progress ctx.state b (decode_frame ctx b fin op mask n)
    go none e k = rw (e, decode_frame) (ground arith)
    go (some x) e k =
        rw (e, decode_frame) (ground (arith, take_payload-Progress ctx b fin op mask x v h k))

pub decode-Progress :
    (ctx : Context) (b : Buffer) → IsValid b → 0 < readable b → Progress ctx.state b (decode ctx b)
unfolding decode
decode-Progress ctx b v h = ground (
  arith,
  decode_frame-Progress ctx b (not (get_or (contents b) 0 0 / 2 ^ 7 == 0))
      (bit_and (get_or (contents b) 0 0) 0x0f) (not (get_or (contents b) 1 0 / 2 ^ 7 == 0))
      (bit_and (get_or (contents b) 1 0) 0x7f) v h,
)

-- After a line with which the handshake goes on, or with which it is done, fewer bytes are left.
abbrev pub StepProgress : Buffer → Step → Type 0
StepProgress b crash = Unit {0}
StepProgress b (to handshake_error c b') = Unit {0}
StepProgress b (to establish c b') = ⊥
StepProgress b (to handshake c b') = IsValid b' × (readable b' < readable b)
StepProgress b (to handshake_ok c b') = IsValid b' × (readable b' < readable b)

pub request_line-StepProgress :
    (ctx : Context) (b : Buffer) (crlf : ℕ)
    → IsValid b
    → 0 < readable b
    → StepProgress b (request_line ctx b crlf)
unfolding request_line
request_line-StepProgress ctx b crlf v h =
    let r = retrieve-less b (crlf + 2) v (omega arith) h in ground (arith, r.0, r.1)

pub header_line-StepProgress :
    (ctx : Context) (b : Buffer) (crlf : ℕ)
    → IsValid b
    → 0 < readable b
    → StepProgress b (header_line ctx b crlf)
unfolding header_line
header_line-StepProgress ctx b crlf v h =
    let r = retrieve-less b (crlf + 2) v (omega arith) h in ground (arith, r.0, r.1)

pub handshake_line-StepProgress :
    (ctx : Context) (b : Buffer) (crlf : ℕ)
    → IsValid b
    → 0 < readable b
    → StepProgress b (handshake_line ctx b crlf)
unfolding handshake_line
handshake_line-StepProgress ctx b crlf v h =
    let r = retrieve-less b 2 v (omega arith) h in
    ground (
      arith,
      r.0,
      r.1,
      request_line-StepProgress ctx b crlf v h,
      header_line-StepProgress ctx b crlf v h,
    )

-- The loop over the lines ends with enough fuel, and done it leaves fewer bytes.
abbrev pub ShakenProgress : Buffer → Shaken → Type 0
ShakenProgress b crashed = Unit {0}
ShakenProgress b no_fuel = ⊥
ShakenProgress b (done handshake c b' es) = Unit {0}
ShakenProgress b (done handshake_error c b' es) = Unit {0}
ShakenProgress b (done establish c b' es) = ⊥
ShakenProgress b (done handshake_ok c b' es) =
    (c.state ≡ establish) × IsValid b' × (readable b' < readable b)

pub ShakenProgress-mono :
    (b b' : Buffer) (s : Shaken)
    → readable b' < readable b
    → ShakenProgress b' s
    → ShakenProgress b s
ShakenProgress-mono b b' crashed h p = tt
ShakenProgress-mono b b' no_fuel h p = p
ShakenProgress-mono b b' (done handshake c d es) h p = tt
ShakenProgress-mono b b' (done handshake_error c d es) h p = tt
ShakenProgress-mono b b' (done establish c d es) h p = p
ShakenProgress-mono b b' (done handshake_ok c d es) h p = (p.0, p.1, omega (arith, p.2))

pub after_line-Progress :
    (b : Buffer) (s : Step) (again : Context → Buffer → Shaken)
    → StepProgress b s
    → ((c : Context) (b' : Buffer)
        → IsValid b'
        → readable b' < readable b
        → ShakenProgress b' (again c b'))
    → ShakenProgress b (after_line s again)
unfolding after_line
after_line-Progress b crash again p go = tt
after_line-Progress b (to handshake_error c b') again p go = tt
after_line-Progress b (to establish c b') again p go = absurd p
after_line-Progress b (to handshake_ok c b') again p go = (refl, p.0, p.1)
after_line-Progress b (to handshake c b') again p go =
    ShakenProgress-mono b b' (again (record c { state = handshake }) b') p.1
      (go (record c { state = handshake }) b' p.0 p.1)

pub lines_round :
    (fuel : ℕ) (ctx : Context) (b : Buffer) (o : Option ℕ)
    → find_crlf b ≡ o
    → IsValid b
    → 0 < readable b
    → ((c : Context) (b' : Buffer)
        → IsValid b'
        → readable b' < readable b
        → ShakenProgress b' (handshake_lines fuel c b'))
    → ShakenProgress b (handshake_lines (suc fuel) ctx b)
unfolding handshake_lines
lines_round fuel ctx b none e v h go =
    let busy : (readable b == 0) ≡ false = ground arith in rw (busy, e, handshake_lines) tt
lines_round fuel ctx b (some crlf) e v h go =
    let busy : (readable b == 0) ≡ false = ground arith in
    rw (busy, e, handshake_lines)
      (after_line-Progress b (handshake_line ctx b crlf) (λ c b'. handshake_lines fuel c b')
        (handshake_line-StepProgress ctx b crlf v h) go)

pub lines_idle :
    (fuel : ℕ) (ctx : Context) (b : Buffer)
    → (readable b == 0) ≡ true
    → ShakenProgress b (handshake_lines (suc fuel) ctx b)
unfolding handshake_lines
lines_idle fuel ctx b empty = rw empty tt

pub handshake_lines-Progress :
    (fuel : ℕ) (ctx : Context) (b : Buffer)
    → IsValid b
    → readable b < fuel
    → ShakenProgress b (handshake_lines fuel ctx b)
handshake_lines-Progress zero ctx b v h = absurd (omega arith)
handshake_lines-Progress (suc fuel) ctx b v h = elim (Bool-cases (readable b == 0)) [
  | inl empty ↦ lines_idle fuel ctx b empty
  | inr busy ↦
      lines_round fuel ctx b (find_crlf b) refl v (ground arith)
        (λ c b' v' less. handshake_lines-Progress fuel c b' v' (omega arith))
]
