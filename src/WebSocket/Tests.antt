-- ===== src/WebSocket/Tests.antt =====
-- Runs of src/websocket/ws-server.cc on small frames.
use angel.Prelude.{
  ℕ, ◌≡◌, ◌≢◌, ◌-◌, ◌^◌, refl, List, [], ◌∷◌, ◌++◌, codes, some, none, arith, true, false, length,
  be64,
}
use angel.Buffer.{Buffer, contents, retrieve}
use angel.Buffer.Laws.{IsValid}
use angel.WebSocket.{
  Context, new_context, State, establish, handshake_error, Decoded, returns, overrun, throws, error,
  Fragment, check_fragmentation, decode, decode_frame, decode_payload_len, extent, take_payload,
  copy_outside, opcode_of, send, send_fragment,
}
use angel.WebSocket.Wire.{Frame, wire, IsFrame}
use angel.WebSocket.Decoding.{received}
use angel.WebSocket.Rejected.{decode-in_fragment, decode-wraps}
use angel.WebSocket.Sending.{stream, frame_of, current, send_fragment-stream}
use angel.WebSocket.Handshake.{
  idle, out_of_fuel, prepend, onmessage, onclose, sends, closes, message_handler,
}
use angel.WebSocket.Handshake.Laws.{message_handler_ends, message_handler_spins}
use angel.WebSocket.Handshake.Frames.{handles-data, handles-ping, handles-close}

abbrev holding : List ℕ → Buffer
holding bytes = record { buf = bytes; read_index = 0; write_index = length bytes }

abbrev live : Context
live = record (new_context false) { state = establish }

-- "Hi", masked by the key 1 2 3 4, and what follows it.
abbrev hi : Frame
hi = record { fin = true; opcode = 1; key = some (1 ∷ 2 ∷ 3 ∷ 4 ∷ []); payload = codes "Hi" }

abbrev hi_bytes : List ℕ
hi_bytes = 129 ∷ 130 ∷ 1 ∷ 2 ∷ 3 ∷ 4 ∷ 73 ∷ 107 ∷ 7 ∷ []

abbrev a_ping : Frame
a_ping = record { fin = true; opcode = 9; key = none; payload = [] }

abbrev a_close : Frame
a_close = record { fin = true; opcode = 8; key = none; payload = [] }

hi-IsFrame : IsFrame hi
hi-IsFrame = record {
  opcode_fits = omega arith;
  key_fits = (refl, (omega arith, (omega arith, (omega arith, (omega arith, tt)))));
  bytes = (omega arith, (omega arith, tt));
  size_fits = omega arith;
}

a_ping-IsFrame : IsFrame a_ping
a_ping-IsFrame = record {
  opcode_fits = omega arith;
  key_fits = tt;
  bytes = tt;
  size_fits = omega arith;
}

a_close-IsFrame : IsFrame a_close
a_close-IsFrame = record {
  opcode_fits = omega arith;
  key_fits = tt;
  bytes = tt;
  size_fits = omega arith;
}

hi_bytes-IsValid : IsValid (holding hi_bytes)
hi_bytes-IsValid = record { ordered = omega arith; fits = omega arith }

hi_bytes-wire : contents (holding hi_bytes) ≡ wire hi ++ 7 ∷ []
unfolding angel.WebSocket.unmask
hi_bytes-wire = refl

fits_text : check_fragmentation false true 1 ≡ true
unfolding check_fragmentation
fits_text = refl

fits_last : check_fragmentation true true 0 ≡ true
unfolding check_fragmentation
fits_last = refl

fits_ping : check_fragmentation false true 9 ≡ true
unfolding check_fragmentation
fits_ping = refl

fits_close : check_fragmentation false true 8 ≡ true
unfolding check_fragmentation
fits_close = refl

handles-data_example :
    message_handler 3 live (holding hi_bytes)
    ≡ prepend
        (onmessage ∷ [])
        (message_handler 2 (received live hi) (retrieve (holding hi_bytes) (length (wire hi))))
handles-data_example =
    handles-data 2 live (holding hi_bytes) hi (7 ∷ []) hi_bytes-IsValid hi-IsFrame hi_bytes-wire
      refl fits_text (λ h. omega arith) (omega arith)

ping_bytes-IsValid : IsValid (holding (137 ∷ 0 ∷ []))
ping_bytes-IsValid = record { ordered = omega arith; fits = omega arith }

handles-ping_example :
    message_handler 3 live (holding (137 ∷ 0 ∷ []))
    ≡ prepend (sends (0x00 ∷ 0x8A ∷ []) ∷ []) (
        message_handler 2
          (received live a_ping)
          (retrieve (holding (137 ∷ 0 ∷ [])) (length (wire a_ping))))
handles-ping_example =
    handles-ping 2 live (holding (137 ∷ 0 ∷ [])) a_ping [] ping_bytes-IsValid a_ping-IsFrame refl
      refl fits_ping (λ h. omega arith) refl

close_bytes-IsValid : IsValid (holding (136 ∷ 0 ∷ []))
close_bytes-IsValid = record { ordered = omega arith; fits = omega arith }

handles-close_example :
    message_handler 3 live (holding (136 ∷ 0 ∷ []))
    ≡ idle
        (received live a_close)
        (retrieve (holding (136 ∷ 0 ∷ [])) (length (wire a_close)))
        (onclose ∷ sends (0x00 ∷ 0x88 ∷ []) ∷ closes ∷ [])
handles-close_example =
    handles-close 2 live (holding (136 ∷ 0 ∷ [])) a_close [] close_bytes-IsValid a_close-IsFrame
      refl refl fits_close (λ h. omega arith) refl

message_handler_ends_example : message_handler 10 live (holding hi_bytes) ≢ out_of_fuel
message_handler_ends_example =
    message_handler_ends 10 live (holding hi_bytes) hi_bytes-IsValid tt (omega arith)

abbrev refused_peer : Context
refused_peer = record (new_context false) { state = handshake_error }

message_handler_spins_example : message_handler 100 refused_peer (holding (7 ∷ [])) ≡ out_of_fuel
message_handler_spins_example =
    message_handler_spins 100 refused_peer (holding (7 ∷ [])) refl (omega arith)

send_fragment-stream_example :
    (stream (send_fragment live (codes "Hi") false)
      ≡ [] ++ wire (frame_of (current live false) false (codes "Hi")))
    × ((send_fragment live (codes "Hi") true).ctx.encoded_buffer ≡ [])
send_fragment-stream_example = send_fragment-stream live (codes "Hi") false

abbrev amid : Context
amid = record live { rcvfragment = true }

decode-in_fragment_example :
    decode amid (holding (137 ∷ 0 ∷ [])) ≡ returns error amid (holding (137 ∷ 0 ∷ []))
decode-in_fragment_example =
    decode-in_fragment amid (holding (137 ∷ 0 ∷ [])) a_ping [] ping_bytes-IsValid a_ping-IsFrame
      refl refl (λ e. omega (arith, e))

-- The continuation of a message of which 20 bytes were kept, masked, with a length that wraps.
abbrev huge : List ℕ
huge = 128 ∷ 255 ∷ (be64 (2 ^ 64 - 14) ++ 1 ∷ 2 ∷ 3 ∷ 4 ∷ 7 ∷ [])

huge-IsValid : IsValid (holding huge)
huge-IsValid = record { ordered = omega arith; fits = omega arith }

abbrev twenty : Context
twenty = record amid { decoded_buffer = codes "twenty bytes of text" }

decode-wraps_example : decode twenty (holding huge) ≡ overrun
decode-wraps_example =
    decode-wraps twenty (holding huge) true true 0 (2 ^ 64 - 14) (1 ∷ 2 ∷ 3 ∷ 4 ∷ 7 ∷ [])
      huge-IsValid refl (omega arith) (omega arith) fits_last (omega arith) (omega arith)
      (omega arith) (omega arith)

abbrev unmasked : List ℕ
unmasked = 129 ∷ 127 ∷ (be64 (2 ^ 64 - 1) ++ 7 ∷ [])

unmasked_throws : decode live (holding unmasked) ≡ throws
unfolding decode decode_frame decode_payload_len extent take_payload copy_outside
    check_fragmentation
unmasked_throws = refl
