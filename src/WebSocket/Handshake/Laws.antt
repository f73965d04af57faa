-- ===== src/WebSocket/Handshake/Laws.antt =====
-- The message handler of src/websocket/ws-server.cc ends, except in the state after an error.
use angel.Prelude.{
  ℕ, zero, suc, ◌+◌, ◌<◌, ◌≡◌, ◌≢◌, refl, sym, subst, List, [], ◌∷◌, true, false, arith, ◌==◌,
  if◌then◌else◌, inl, inr, Bool-cases,
}
use angel.Buffer.{Buffer, readable}
use angel.Buffer.Laws.{IsValid}
use angel.WebSocket.{
  Context, State, handshake, handshake_ok, handshake_error, establish, Decoded, ok, error,
  not_enough, ping, pong, close, returns, overrun, throws, decode,
}
use angel.WebSocket.Handshake.{
  Shaken, done, crashed, no_fuel, handshake_lines, Handled, idle, failed, out_of_fuel, prepend,
  after_handshake, after_decode, message_handler, Event, sends, onmessage, le16,
}
use angel.WebSocket.Handshake.Progress.{
  Progress, decode-Progress, ShakenProgress, handshake_lines-Progress,
}

-- A round in which the handshake has failed does nothing: with a byte to read the loop never ends.
pub message_handler_spins :
    (fuel : ℕ) (ctx : Context) (buf : Buffer)
    → ctx.state ≡ handshake_error
    → 0 < readable buf
    → message_handler fuel ctx buf ≡ out_of_fuel
unfolding message_handler
message_handler_spins zero ctx buf e h = refl
message_handler_spins (suc fuel) ctx buf e h =
    let busy : (readable buf == 0) ≡ false = ground arith in
    rw (busy, e, message_handler) (message_handler_spins fuel ctx buf e h)

abbrev Ends : Handled → Type 0
Ends (idle c b es) = Unit {0}
Ends (failed es) = Unit {0}
Ends out_of_fuel = ⊥

prepend-Ends : (es : List Event) (r : Handled) → Ends r → Ends (prepend es r)
unfolding prepend
prepend-Ends es (idle c b fs) h = tt
prepend-Ends es (failed fs) h = tt
prepend-Ends es out_of_fuel h = h

-- The states in which the handler is entered while the connection is open.
abbrev pub IsLive : State → Type 0
IsLive handshake = Unit {0}
IsLive establish = Unit {0}
IsLive handshake_ok = ⊥
IsLive handshake_error = ⊥

abbrev Again : Buffer → (Context → Buffer → Handled) → Type 0
Again b again =
    (c : Context) (b' : Buffer)
    → IsLive c.state
    → IsValid b'
    → readable b' < readable b
    → Ends (again c b')

after_handshake-Ends :
    (b : Buffer) (s : Shaken) (again : Context → Buffer → Handled)
    → ShakenProgress b s
    → Again b again
    → Ends (after_handshake s again)
unfolding after_handshake
after_handshake-Ends b crashed again p go = tt
after_handshake-Ends b no_fuel again p go = p
after_handshake-Ends b (done handshake c b' es) again p go = tt
after_handshake-Ends b (done handshake_error c b' es) again p go = tt
after_handshake-Ends b (done establish c b' es) again p go = absurd p
after_handshake-Ends b (done handshake_ok c b' es) again p go =
    prepend-Ends _ (again c b') (go c b' (subst IsLive (sym p.0) tt) p.1 p.2)

after_decode-Ends :
    (st : State) (b : Buffer) (d : Decoded) (again : Context → Buffer → Handled)
    → IsLive st
    → Progress st b d
    → Again b again
    → Ends (after_decode d again)
unfolding after_decode
after_decode-Ends st b overrun again l p go = tt
after_decode-Ends st b throws again l p go = tt
after_decode-Ends st b (returns error c b') again l p go = tt
after_decode-Ends st b (returns not_enough c b') again l p go = tt
after_decode-Ends st b (returns close c b') again l p go = tt
after_decode-Ends st b (returns ok c b') again l p go =
    prepend-Ends (if c.rcvfragment then [] else onmessage ∷ []) (again c b')
      (go c b' (subst IsLive (sym p.0) l) p.1 p.2)
after_decode-Ends st b (returns ping c b') again l p go =
    prepend-Ends (sends (le16 0x8A00) ∷ []) (again c b')
      (go c b' (subst IsLive (sym p.0) l) p.1 p.2)
after_decode-Ends st b (returns pong c b') again l p go = go c b' (subst IsLive (sym p.0) l) p.1 p.2

handler_round :
    (fuel : ℕ) (ctx : Context) (b : Buffer) (st : State)
    → ctx.state ≡ st
    → IsLive st
    → IsValid b
    → 0 < readable b
    → Again b (λ c b'. message_handler fuel c b')
    → Ends (message_handler (suc fuel) ctx b)
unfolding message_handler
handler_round fuel ctx b handshake_ok e l v h go = absurd l
handler_round fuel ctx b handshake_error e l v h go = absurd l
handler_round fuel ctx b handshake e l v h go =
    let busy : (readable b == 0) ≡ false = ground arith in
    rw (busy, e, message_handler)
      (after_handshake-Ends b (handshake_lines (readable b + 1) ctx b)
        (λ c b'. message_handler fuel c b')
        (handshake_lines-Progress (readable b + 1) ctx b v (omega arith)) go)
handler_round fuel ctx b establish e l v h go =
    let busy : (readable b == 0) ≡ false = ground arith in
    rw (busy, e, message_handler)
      (after_decode-Ends establish b (decode ctx b) (λ c b'. message_handler fuel c b') l
        (subst (λ st. Progress st b (decode ctx b)) e (decode-Progress ctx b v h)) go)

handler_idle :
    (fuel : ℕ) (ctx : Context) (b : Buffer)
    → (readable b == 0) ≡ true
    → Ends (message_handler (suc fuel) ctx b)
unfolding message_handler
handler_idle fuel ctx b empty = rw empty tt

message_handler-Ends :
    (fuel : ℕ) (ctx : Context) (b : Buffer)
    → IsValid b
    → IsLive ctx.state
    → readable b < fuel
    → Ends (message_handler fuel ctx b)
message_handler-Ends zero ctx b v l h = absurd (omega arith)
message_handler-Ends (suc fuel) ctx b v l h = elim (Bool-cases (readable b == 0)) [
  | inl empty ↦ handler_idle fuel ctx b empty
  | inr busy ↦
      handler_round fuel ctx b ctx.state refl l v (ground arith)
        (λ c b' l' v' less. message_handler-Ends fuel c b' v' l' (omega arith))
]

-- In the states before and behind the handshake the loop over the received bytes ends: one round
-- more than there are bytes is enough, whatever the bytes are.
pub message_handler_ends :
    (fuel : ℕ) (ctx : Context) (b : Buffer)
    → IsValid b
    → IsLive ctx.state
    → readable b < fuel
    → message_handler fuel ctx b ≢ out_of_fuel
message_handler_ends fuel ctx b v l h e = subst Ends e (message_handler-Ends fuel ctx b v l h)
