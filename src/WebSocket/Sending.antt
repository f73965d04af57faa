-- ===== src/WebSocket/Sending.antt =====
-- `send` and `send_fragment` of src/websocket/ws-server.cc: the bytes handed to the connection.
use angel.Prelude.{
  ℕ, ◌+◌, ◌*◌, ◌≡◌, refl, ap₂, ◌∙◌, List, [], ◌∷◌, ◌++◌, Bool, true, false, none, arith, length,
  leb, if◌then◌else◌, be16, be64, append_assoc, append-nil, inl, inr, Bool-cases, bit_or,
}
use angel.WebSocket.{
  Context, Fragment, first_fragment, middle_fragment, final_fragment, Sent, encode, send,
  send_fragment, opcode_of, fragment_byte, buffered_size,
}
use angel.WebSocket.Wire.{Frame, bit, size_field, wire, concat}

-- All bytes handed over, and those that are still held back.
abbrev pub stream : Sent → List ℕ
stream s = concat s.calls ++ s.ctx.encoded_buffer

encoded_size :
    (n : ℕ)
    → (if leb n 125 then n ∷ [] else if leb n 65535 then 126 ∷ be16 n else 127 ∷ be64 n)
      ≡ size_field 0 n
encoded_size n = ground arith

-- The frame that `send_fragment` forms in a state.
abbrev pub frame_of : Fragment → Bool → List ℕ → Frame
frame_of first_fragment binary p = record {
  fin = false;
  opcode = opcode_of binary;
  key = none;
  payload = p;
}
frame_of middle_fragment binary p = record { fin = false; opcode = 0; key = none; payload = p }
frame_of final_fragment binary p = record { fin = true; opcode = 0; key = none; payload = p }

encode-wire :
    (ctx : Context) (fin : Bool) (op first : ℕ) (payload : List ℕ)
    → first ≡ bit fin * 128 + op
    → (encode ctx (length payload) first).encoded_buffer ++ payload
      ≡ ctx.encoded_buffer
        ++ wire (record { fin = fin; opcode = op; key = none; payload = payload })
unfolding encode
encode-wire ctx fin op first payload e =
    append_assoc ctx.encoded_buffer _ payload
    ∙ ap₂ (λ x t. ctx.encoded_buffer ++ (x ∷ (t ++ payload))) e (encoded_size (length payload))

final_byte : (binary : Bool) → bit_or 0x80 (opcode_of binary) ≡ 1 * 128 + opcode_of binary
final_byte true = refl
final_byte false = refl

-- `send` hands over what was held back and then one final frame of the message, with the opcode
-- of the context's type, in one call or two; nothing stays behind.
pub send-stream :
    (ctx : Context) (message : List ℕ)
    → (stream (send ctx message)
        ≡ ctx.encoded_buffer
          ++ wire (record {
            fin = true;
            opcode = opcode_of ctx.is_binary_type;
            key = none;
            payload = message;
          }))
      × ((send ctx message).ctx ≡ record ctx { encoded_buffer = [] })
unfolding send
send-stream ctx message =
    let first = bit_or 0x80 (opcode_of ctx.is_binary_type) in
    let sent =
      encode-wire ctx true (opcode_of ctx.is_binary_type) first message
        (final_byte ctx.is_binary_type) in
    elim (Bool-cases (leb buffered_size (length message))) [
      | inl large ↦ rw large (simp append-nil sent, unfold encode in refl)
      | inr small ↦ rw small (simp append-nil sent, unfold encode in refl)
    ]

fragment_byte-frame :
    (s : Fragment) (binary : Bool) (p : List ℕ)
    → (fragment_byte s binary).0
      ≡ bit (frame_of s binary p).fin * 128 + (frame_of s binary p).opcode
unfolding fragment_byte
fragment_byte-frame first_fragment true p = refl
fragment_byte-frame first_fragment false p = refl
fragment_byte-frame middle_fragment binary p = refl
fragment_byte-frame final_fragment binary p = refl

encode-fragment :
    (ctx : Context) (s next : Fragment) (p : List ℕ)
    → (encode
          (record ctx { sndfragment = next })
          (length p)
          (fragment_byte s ctx.is_binary_type).0).encoded_buffer
        ++ p
      ≡ ctx.encoded_buffer ++ wire (frame_of s ctx.is_binary_type p)
encode-fragment ctx first_fragment next p =
    encode-wire (record ctx { sndfragment = next }) false (opcode_of ctx.is_binary_type) _ p
      (fragment_byte-frame first_fragment ctx.is_binary_type p)
encode-fragment ctx middle_fragment next p =
    encode-wire (record ctx { sndfragment = next }) false 0 _ p
      (fragment_byte-frame middle_fragment ctx.is_binary_type p)
encode-fragment ctx final_fragment next p =
    encode-wire (record ctx { sndfragment = next }) true 0 _ p
      (fragment_byte-frame final_fragment ctx.is_binary_type p)

-- The state that a call of `send_fragment` works in.
abbrev pub current : Context → Bool → Fragment
current ctx final = if final then final_fragment else ctx.sndfragment

stream-send_fragment :
    (ctx : Context) (p : List ℕ) (final : Bool)
    → stream (send_fragment ctx p final)
      ≡ ctx.encoded_buffer ++ wire (frame_of (current ctx final) ctx.is_binary_type p)
unfolding send_fragment
stream-send_fragment ctx p true =
    let sent =
      encode-fragment ctx final_fragment (fragment_byte final_fragment ctx.is_binary_type).1 p in
    elim (Bool-cases (leb buffered_size (length p))) [
      | inl large ↦ rw large (simp append-nil sent)
      | inr small ↦ rw small (simp append-nil sent)
    ]
stream-send_fragment ctx p false =
    let head = fragment_byte ctx.sndfragment ctx.is_binary_type in
    let sent = encode-fragment ctx ctx.sndfragment head.1 p in
    let whole =
      (encode (record ctx { sndfragment = head.1 }) (length p) head.0).encoded_buffer ++ p in
    elim (Bool-cases (leb buffered_size (length p))) [
      | inl large ↦ rw large (simp append-nil sent)
      | inr small ↦ elim (Bool-cases (leb buffered_size (length whole))) [
        | inl full ↦ rw (small, full) (simp append-nil sent)
        | inr held ↦ rw (small, held) sent
      ]
    ]

final_flushes : (ctx : Context) (p : List ℕ) → (send_fragment ctx p true).ctx.encoded_buffer ≡ []
unfolding send_fragment
final_flushes ctx p = elim (Bool-cases (leb buffered_size (length p))) [
  | inl large ↦ rw large
  | inr small ↦ rw small
]

-- `send_fragment` adds exactly one frame to the bytes handed over and held back, whichever of them
-- it sends; a final fragment leaves nothing behind.
pub send_fragment-stream :
    (ctx : Context) (p : List ℕ) (final : Bool)
    → (stream (send_fragment ctx p final)
        ≡ ctx.encoded_buffer ++ wire (frame_of (current ctx final) ctx.is_binary_type p))
      × ((send_fragment ctx p true).ctx.encoded_buffer ≡ [])
send_fragment-stream ctx p final = (stream-send_fragment ctx p final, final_flushes ctx p)
