-- ===== src/WebSocket/Handshake/Frames.antt =====
-- What one frame makes the message handler of src/websocket/ws-server.cc do.
use angel.Prelude.{
  ℕ, suc, ◌≤◌, ◌<◌, ◌≡◌, refl, ap, ◌∙◌, List, [], ◌∷◌, ◌++◌, Bool, true, false, not, arith, length,
  length-append, ◌==◌, if◌then◌else◌,
}
use angel.Buffer.{Buffer, contents, readable, retrieve}
use angel.Buffer.Laws.{IsValid, length-contents}
use angel.WebSocket.{
  Context, establish, ok, ping, close, returns, decode, code_of, check_fragmentation,
}
use angel.WebSocket.Wire.{Frame, wire, IsFrame}
use angel.WebSocket.Decoding.{decode-wire, received}
use angel.WebSocket.Handshake.{
  Handled, prepend, after_decode, message_handler, sends, onmessage, onclose, closes, idle,
}

round_establish :
    (fuel : ℕ) (ctx : Context) (b : Buffer)
    → ctx.state ≡ establish
    → (readable b == 0) ≡ false
    → message_handler (suc fuel) ctx b
      ≡ after_decode (decode ctx b) (λ c b'. message_handler fuel c b')
unfolding message_handler
round_establish fuel ctx b e busy = simp (busy, e)

code_of-data : (op : ℕ) → op < 8 → code_of op ≡ ok
unfolding code_of
code_of-data op h = ground arith

code_of-ping : (op : ℕ) → op ≡ 9 → code_of op ≡ ping
unfolding code_of
code_of-ping op h = rw h

code_of-close : (op : ℕ) → op ≡ 8 → code_of op ≡ close
unfolding code_of
code_of-close op h = rw h

after_ok :
    (c : Context) (b : Buffer) (fin : Bool) (again : Context → Buffer → Handled)
    → c.rcvfragment ≡ not fin
    → after_decode (returns ok c b) again ≡ prepend (if fin then onmessage ∷ [] else []) (again c b)
unfolding after_decode
after_ok c b true again e = rw e
after_ok c b false again e = rw e

module _ (fuel : ℕ) (ctx : Context) (b : Buffer) (f : Frame) (rest : List ℕ) (valid : IsValid b)
    (frame : IsFrame f) (here : contents b ≡ wire f ++ rest) (open_state : ctx.state ≡ establish)
    (fragment : check_fragmentation ctx.rcvfragment f.fin f.opcode ≡ true)
    (control : 8 ≤ f.opcode → length f.payload ≤ 125) where
  handles :
      message_handler (suc fuel) ctx b
      ≡ after_decode
          (returns (code_of f.opcode) (received ctx f) (retrieve b (length (wire f))))
          (λ c b'. message_handler fuel c b')
  handles =
      let some_byte : 0 < readable b =
        omega (arith, length-contents b valid, ap length here, length-append (wire f) rest) in
      let busy : (readable b == 0) ≡ false = ground arith in
      let decoded = (decode-wire ctx b f rest valid frame here fragment control).0 in
      round_establish fuel ctx b open_state busy
      ∙ ap (λ d. after_decode d (λ c b'. message_handler fuel c b')) decoded

  -- With the handshake done and a valid buffer, for a whole frame at the front of the unread bytes
  -- that fits into the fragments received so far (`check_fragmentation`) and has an opcode below 8: a
  -- frame that ends a message is handed to `onmessage`, and one that does not is kept; then the
  -- handler goes on behind the frame.
  pub handles-data :
      f.opcode < 8
      → message_handler (suc fuel) ctx b
        ≡ prepend
            (if f.fin then onmessage ∷ [] else [])
            (message_handler fuel (received ctx f) (retrieve b (length (wire f))))
  handles-data h =
      handles
      ∙ ap
          (λ code.
            after_decode (returns code (received ctx f) (retrieve b (length (wire f))))
              (λ c b'. message_handler fuel c b'))
          (code_of-data f.opcode h)
      ∙ after_ok (received ctx f) (retrieve b (length (wire f))) f.fin
          (λ c b'. message_handler fuel c b') refl

  -- With the handshake done and a valid buffer, for a whole ping of at most 125 bytes at the front of
  -- the unread bytes that fits into the fragments received so far (`check_fragmentation`, which a final
  -- ping does between messages and not amid fragments): it is answered by two bytes, of which the
  -- first is 0 and the second 0x8A, not by the frame of a pong; then the handler goes on behind it.
  pub handles-ping :
      f.opcode ≡ 9
      → message_handler (suc fuel) ctx b
        ≡ prepend
            (sends (0x00 ∷ 0x8A ∷ []) ∷ [])
            (message_handler fuel (received ctx f) (retrieve b (length (wire f))))
  handles-ping h =
      handles
      ∙ ap
          (λ code.
            after_decode (returns code (received ctx f) (retrieve b (length (wire f))))
              (λ c b'. message_handler fuel c b'))
          (code_of-ping f.opcode h)
      ∙ unfold after_decode in refl

  -- With the handshake done and a valid buffer, for a whole close frame of at most 125 bytes at the
  -- front of the unread bytes that fits into the fragments received so far (`check_fragmentation`,
  -- which a final close frame does between messages and not amid fragments): `onclose` is called,
  -- the bytes 0 and 0x88 are the answer, and the connection is closed.
  pub handles-close :
      f.opcode ≡ 8
      → message_handler (suc fuel) ctx b
        ≡ idle
            (received ctx f)
            (retrieve b (length (wire f)))
            (onclose ∷ sends (0x00 ∷ 0x88 ∷ []) ∷ closes ∷ [])
  handles-close h =
      handles
      ∙ ap
          (λ code.
            after_decode (returns code (received ctx f) (retrieve b (length (wire f))))
              (λ c b'. message_handler fuel c b'))
          (code_of-close f.opcode h)
      ∙ unfold after_decode in refl
