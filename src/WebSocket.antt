-- ===== src/WebSocket.antt =====
-- The frames of the WebSocket server: include/angel/websocket.h and src/websocket/ws-server.cc.
-- A copy that would leave the unread bytes is `overrun`; `throws` is `std::length_error`.
pub mod Wire
pub mod Fields
pub mod Decoding
pub mod Sending
pub mod Rejected
pub mod Handshake
pub mod Tests
use angel.Prelude.{
  ℕ, zero, suc, ◌+◌, ◌-◌, ◌*◌, ◌/◌, ◌%◌, ◌^◌, ◌≡◌, List, [], ◌∷◌, ◌++◌, Bool, true, false, not,
  ◌&&◌, Option, none, some, bit_and, bit_or, bit_xor, length, get_or, take, drop, ltb, leb, ◌==◌,
  if◌then◌else◌, be16, be64, from_be16, from_be64,
}
use angel.Buffer.{Buffer, contents, readable, retrieve}

pub data State : Type 0 where
  handshake handshake_ok handshake_error establish : State

pub data Fragment : Type 0 where
  first_fragment middle_fragment final_fragment : Fragment

-- `required_request_headers` is 6 less the headers seen, and may fall below 0.
pub record Context : Type 0 where
  pub is_binary_type : Bool
  pub decoded_buffer : List ℕ
  pub origin : List ℕ
  pub host : List ℕ
  pub state : State
  pub sec_websocket_accept : List ℕ
  pub encoded_buffer : List ℕ
  pub read_request_line : Bool
  pub seen_request_headers : ℕ
  pub rcvfragment : Bool
  pub sndfragment : Fragment

-- `is_binary_type` is not initialised by the constructor.
abbrev pub new_context : Bool → Context
new_context binary = record {
  is_binary_type = binary;
  decoded_buffer = [];
  origin = [];
  host = [];
  state = handshake;
  sec_websocket_accept = [];
  encoded_buffer = [];
  read_request_line = true;
  seen_request_headers = 0;
  rcvfragment = false;
  sndfragment = first_fragment;
}

pub data Code : Type 0 where
  ok error not_enough ping pong close : Code

-- The length of the payload, the offset of the masking key and that of the payload.
pub record Extent : Type 0 where
  pub payload_len : ℕ
  pub key_at : ℕ
  pub payload_at : ℕ

-- The test on `readable` is done on 64 bits.
unfoldable pub extent : ℕ → ℕ → Bool → ℕ → Option Extent
extent payload_len i mask readable =
    let key_len : ℕ = if mask then 4 else 0 in
    if ltb readable ((i + key_len + payload_len) % 2 ^ 64)
    then none
    else some (record { payload_len = payload_len; key_at = i; payload_at = i + key_len })

unfoldable pub decode_payload_len : ℕ → List ℕ → ℕ → Bool → Option Extent
decode_payload_len payload_len b readable mask =
    let at = λ (i : ℕ). get_or b i 0 in
    if payload_len == 127
    then if ltb readable 10
      then none
      else extent (from_be64 (at 2) (at 3) (at 4) (at 5) (at 6) (at 7) (at 8) (at 9)) 10 mask
          readable
    else if payload_len == 126
    then if ltb readable 4 then none else extent (from_be16 (at 2) (at 3)) 4 mask readable
    else extent payload_len 2 mask readable

unfoldable pub check_fragmentation : Bool → Bool → ℕ → Bool
check_fragmentation false false opcode = not (opcode == 0)
check_fragmentation true false opcode = opcode == 0
check_fragmentation true true opcode = opcode == 0
check_fragmentation false true opcode = true

-- `b[i] ^ masking_key[i % 4]` from the index `i` on.
unfoldable pub unmask : List ℕ → ℕ → List ℕ → List ℕ
unmask key i [] = []
unmask key i (x ∷ xs) = bit_xor x (get_or key (i % 4) 0) ∷ unmask key (i + 1) xs

pub data Decoded : Type 0 where
  returns : Code → Context → Buffer → Decoded
  overrun : Decoded
  throws : Decoded

-- The most bytes of a `std::string` on 64 bits.
abbrev pub max_size : ℕ
max_size = 2 ^ 63 - 1

unfoldable pub type_of : ℕ → Bool → Bool
type_of opcode was = if opcode == 1 then false else if opcode == 2 then true else was

unfoldable pub code_of : ℕ → Code
code_of opcode =
    if opcode == 8 then close else if opcode == 9 then ping else if opcode == 10 then pong else ok

-- The copy of a payload of which not all bytes were received, onto `size` bytes: `reserve` adds on 64
-- bits and throws above `max_size`, so does `append`, and `push_back`, byte by byte, does not.
unfoldable pub copy_outside : ℕ → ℕ → Bool → Decoded
copy_outside size payload_len mask =
    if ltb max_size ((size + payload_len) % 2 ^ 64)
    then throws
    else if not mask && ltb (max_size - size) payload_len
    then throws
    else overrun

-- The part of `decode` behind the length. (Bytes that were received and are kept are in the memory
-- together, so that their number is no size that throws.) The payload is copied and the frame is
-- consumed.
unfoldable pub take_payload : Context → Buffer → Bool → ℕ → Bool → Extent → Decoded
take_payload ctx raw_buf fin opcode mask e =
    let b = contents raw_buf in
    let payload = take e.payload_len (drop e.payload_at b) in
    let kept : List ℕ = if ctx.rcvfragment then ctx.decoded_buffer else [] in
    let plain : List ℕ = if mask then unmask (take 4 (drop e.key_at b)) 0 payload else payload in
    if ltb (length payload) e.payload_len
    then copy_outside (length kept) e.payload_len mask
    else returns (code_of opcode)
        (record ctx {
          decoded_buffer = kept ++ plain;
          rcvfragment = not fin;
          is_binary_type = type_of opcode ctx.is_binary_type;
        })
        (retrieve raw_buf (e.payload_at + e.payload_len))

-- `decode` with the parts of the first two bytes.
unfoldable pub decode_frame : Context → Buffer → Bool → ℕ → Bool → ℕ → Decoded
decode_frame ctx raw_buf fin opcode mask payload_len =
    if not (check_fragmentation ctx.rcvfragment fin opcode)
    then returns error ctx raw_buf
    else if (if leb 8 opcode then ltb 125 payload_len else false)
    then returns error ctx raw_buf
    else elim (decode_payload_len payload_len (contents raw_buf) (readable raw_buf) mask) [
      | none ↦ returns not_enough ctx raw_buf
      | some e ↦ take_payload ctx raw_buf fin opcode mask e
    ]

unfoldable pub decode : Context → Buffer → Decoded
decode ctx raw_buf =
    let b0 = get_or (contents raw_buf) 0 0 in
    let b1 = get_or (contents raw_buf) 1 0 in
    if ltb (readable raw_buf) 2
    then returns not_enough ctx raw_buf
    else decode_frame ctx raw_buf (not (b0 / 2 ^ 7 == 0)) (bit_and b0 0x0f) (not (b1 / 2 ^ 7 == 0))
        (bit_and b1 0x7f)

-- Appends the head of a frame to `encoded_buffer`.
unfoldable pub encode : Context → ℕ → ℕ → Context
encode ctx raw_size first_byte = record ctx {
  encoded_buffer =
      ctx.encoded_buffer
      ++ (first_byte
          ∷ (if leb raw_size 125
              then raw_size ∷ []
              else if leb raw_size 65535
              then 126 ∷ be16 raw_size
              else 127 ∷ be64 raw_size));
}

abbrev pub buffered_size : ℕ
buffered_size = 4096

abbrev pub opcode_of : Bool → ℕ
opcode_of is_binary_type = if is_binary_type then 2 else 1

-- The context, and what was handed to `conn->send`, call by call.
pub record Sent : Type 0 where
  pub calls : List (List ℕ)
  pub ctx : Context

unfoldable pub send : Context → List ℕ → Sent
send ctx message =
    let c = encode ctx (length message) (bit_or 0x80 (opcode_of ctx.is_binary_type)) in
    let done = record c { encoded_buffer = [] } in
    if leb buffered_size (length message)
    then record { calls = c.encoded_buffer ∷ message ∷ []; ctx = done }
    else record { calls = (c.encoded_buffer ++ message) ∷ []; ctx = done }

-- The first byte of a fragment, and the state behind it.
unfoldable pub fragment_byte : Fragment → Bool → ℕ × Fragment
fragment_byte first_fragment binary = (opcode_of binary, middle_fragment)
fragment_byte middle_fragment binary = (0x00, middle_fragment)
fragment_byte final_fragment binary = (0x80, first_fragment)

unfoldable pub send_fragment : Context → List ℕ → Bool → Sent
send_fragment ctx fragment final =
    let head =
      fragment_byte (if final then final_fragment else ctx.sndfragment) ctx.is_binary_type in
    let c = encode (record ctx { sndfragment = head.1 }) (length fragment) head.0 in
    let whole = c.encoded_buffer ++ fragment in
    if leb buffered_size (length fragment)
    then record { calls = c.encoded_buffer ∷ fragment ∷ []; ctx = record c { encoded_buffer = [] } }
    else if (if final then true else leb buffered_size (length whole))
    then record { calls = whole ∷ []; ctx = record c { encoded_buffer = [] } }
    else record { calls = []; ctx = record c { encoded_buffer = whole } }
