-- ===== src/WebSocket/Rejected.antt =====
-- `decode` of src/websocket/ws-server.cc: frames that it refuses, and lengths that wrap around.
use angel.Prelude.{
  ℕ, ◌+◌, ◌*◌, ◌/◌, ◌^◌, ◌≤◌, ◌<◌, ◌≡◌, ◌≢◌, ap, refl, ap₂, ◌∙◌, ◌-◌, ◌%◌, ◌&&◌, if◌then◌else◌, inl,
  inr, Bool-cases, length-append, List, [], ◌∷◌, ◌++◌, Bool, true, false, not, some, arith, length,
  take, drop, ltb, leb, ◌==◌, bit_and, be64, length-take, length-drop,
}
use angel.Buffer.{Buffer, contents, readable}
use angel.Buffer.Laws.{IsValid, length-contents}
use angel.WebSocket.{
  Context, error, extent, decode_payload_len, check_fragmentation, returns, overrun, throws,
  max_size, copy_outside, take_payload, decode, decode_frame,
}
use angel.WebSocket.Wire.{Frame, bit, size_field, body, is_masked, wire, IsFrame}
use angel.WebSocket.Fields.{first_byte, second_byte, size_bits, be64_back64}
use angel.WebSocket.Decoding.{size_field_cons, decode_bytes}

not_zero : (op : ℕ) → op ≢ 0 → (op == 0) ≡ false
not_zero op h = ground arith

check_in_fragment : (fin : Bool) (op : ℕ) → op ≢ 0 → check_fragmentation true fin op ≡ false
unfolding check_fragmentation
check_in_fragment true op h = not_zero op h
check_in_fragment false op h = not_zero op h

refused :
    (ctx : Context) (b : Buffer) (fin mask : Bool) (op k : ℕ)
    → check_fragmentation ctx.rcvfragment fin op ≡ false
    → decode_frame ctx b fin op mask k ≡ returns error ctx b
unfolding decode_frame
refused ctx b fin mask op k h = rw h

-- While the fragments of a message are being received every frame with an opcode other than 0 is
-- an error and nothing is consumed, the control frames included.
pub decode-in_fragment :
    (ctx : Context) (b : Buffer) (f : Frame) (rest : List ℕ)
    → IsValid b
    → IsFrame f
    → contents b ≡ wire f ++ rest
    → ctx.rcvfragment ≡ true
    → f.opcode ≢ 0
    → decode ctx b ≡ returns error ctx b
decode-in_fragment ctx b f rest v fr here inside op =
    let n = length f.payload in
    let m = bit (is_masked f.key) in
    let b0 = bit f.fin * 128 + f.opcode in
    let b1 = m * 128 + size_bits n in
    let tail = drop 1 (size_field m n) ++ body f.key f.payload ++ rest in
    let at : contents b ≡ b0 ∷ b1 ∷ tail =
      here ∙ ap (λ t. b0 ∷ (t ++ body f.key f.payload ++ rest)) (size_field_cons m n) in
    let one = first_byte f.fin f.opcode fr.opcode_fits in
    let no : check_fragmentation ctx.rcvfragment f.fin f.opcode ≡ false =
      ap (λ r. check_fragmentation r f.fin f.opcode) inside ∙ check_in_fragment f.fin f.opcode op in
    decode_bytes ctx b b0 b1 tail v at
    ∙ ap₂ (λ x y. decode_frame ctx b x y (not (b1 / 2 ^ 7 == 0)) (bit_and b1 0x7f)) one.0 one.1
    ∙ refused ctx b f.fin (not (b1 / 2 ^ 7 == 0)) f.opcode (bit_and b1 0x7f) no

abbrev key_len : Bool → ℕ
key_len mask = if mask then 4 else 0

key_len-le : (mask : Bool) → key_len mask ≤ 4
key_len-le true = omega arith
key_len-le false = omega arith

extent_wraps :
    (n r : ℕ) (mask : Bool)
    → 2 ^ 64 ≤ n + 10 + key_len mask
    → n < 2 ^ 64
    → 10 + key_len mask ≤ r
    → extent n 10 mask r
      ≡ some (record { payload_len = n; key_at = 10; payload_at = 10 + key_len mask })
unfolding extent
extent_wraps n r false h k fits = ground arith
extent_wraps n r true h k fits = ground arith

wrapped_size :
    (b0 b1 n r : ℕ) (s : List ℕ) (mask : Bool)
    → 2 ^ 64 ≤ n + 10 + key_len mask
    → n < 2 ^ 64
    → 10 + key_len mask ≤ r
    → decode_payload_len 127 (b0 ∷ b1 ∷ (be64 n ++ s)) r mask
      ≡ some (record { payload_len = n; key_at = 10; payload_at = 10 + key_len mask })
unfolding decode_payload_len
wrapped_size b0 b1 n r s mask h k fits =
    let a : ltb r 10 ≡ false = ground arith in
    rw (a, be64_back64 n k) (extent_wraps n r mask h k fits)

-- The bytes that `decode` keeps in front of the payload.
abbrev pub kept : Context → List ℕ
kept ctx = if ctx.rcvfragment then ctx.decoded_buffer else []

copies_outside :
    (ctx : Context) (b : Buffer) (fin mask : Bool) (op n : ℕ)
    → length (contents b) < n
    → take_payload ctx b fin op mask
        (record { payload_len = n; key_at = 10; payload_at = 10 + key_len mask })
      ≡ copy_outside (length (kept ctx)) n mask
unfolding take_payload
copies_outside ctx b fin mask op n h =
    let at = 10 + key_len mask in
    let short : ltb (length (take n (drop at (contents b)))) n ≡ true =
      ground (arith, length-take n (drop at (contents b)), length-drop at (contents b)) in
    rw short

-- Where the sum of the sizes wraps around, `reserve` does not throw.
outcome :
    (size n : ℕ) (mask : Bool)
    → size ≤ max_size
    → 2 ^ 64 ≤ n + 14
    → n < 2 ^ 64
    → copy_outside size n mask ≡ (if mask && leb (2 ^ 64) (size + n) then overrun else throws)
unfolding copy_outside
outcome size n mask h big k = elim (Bool-cases (leb (2 ^ 64) (size + n))) [
  | inl wraps ↦
      let small : ltb max_size ((size + n) % 2 ^ 64) ≡ false = ground arith in
      let long : ltb (max_size - size) n ≡ true = ground arith in
      rw (wraps, small, long) (by_mask mask)
  | inr fits ↦
      let large : ltb max_size ((size + n) % 2 ^ 64) ≡ true = ground arith in
      rw (fits, large) (plain mask)
]
  where
    by_mask :
        (m : Bool)
        → (if not m && true then throws else overrun) ≡ (if m && true then overrun else throws)
    by_mask true = refl
    by_mask false = refl

    plain : (m : Bool) → throws ≡ (if m && false then overrun else throws)
    plain true = refl
    plain false = refl

data_frame_wraps :
    (ctx : Context) (b : Buffer) (fin mask : Bool) (op n : ℕ)
    → check_fragmentation ctx.rcvfragment fin op ≡ true
    → op < 8
    → decode_payload_len 127 (contents b) (readable b) mask
      ≡ some (record { payload_len = n; key_at = 10; payload_at = 10 + key_len mask })
    → length (contents b) < n
    → decode_frame ctx b fin op mask 127 ≡ copy_outside (length (kept ctx)) n mask
unfolding decode_frame
data_frame_wraps ctx b fin mask op n fragment small size short =
    let plain : leb 8 op ≡ false = ground arith in
    rw (fragment, plain, size, decode_frame) (copies_outside ctx b fin mask op n short)

-- For a frame at the front of a valid buffer with an opcode below 8, which fits into the fragments
-- received so far (`check_fragmentation`), and a 64-bit length that is larger than the number of
-- received bytes and so large that its sum with the size of the head (10 bytes, and 4 of a masking
-- key that was received) is 2 ^ 64 or more, where at most `max_size` bytes of earlier fragments are
-- kept: the frame is not taken for one with missing bytes. When it is masked and the sum of its
-- length with the number of kept bytes is 2 ^ 64 or more too, the copy of the payload reads outside
-- of the received bytes, and otherwise `std::length_error` is thrown.
pub decode-wraps :
    (ctx : Context) (b : Buffer) (fin mask : Bool) (op n : ℕ) (s : List ℕ)
    → IsValid b
    → contents b ≡ (bit fin * 128 + op) ∷ (bit mask * 128 + 127) ∷ (be64 n ++ s)
    → key_len mask ≤ length s
    → op < 8
    → check_fragmentation ctx.rcvfragment fin op ≡ true
    → 2 ^ 64 ≤ n + 10 + key_len mask
    → n < 2 ^ 64
    → length (contents b) < n
    → length (kept ctx) ≤ max_size
    → decode ctx b ≡ (if mask && leb (2 ^ 64) (length (kept ctx) + n) then overrun else throws)
decode-wraps ctx b fin mask op n s v here key small fragment wraps fits short size =
    let b0 = bit fin * 128 + op in
    let b1 = bit mask * 128 + 127 in
    let one = first_byte fin op (omega arith) in
    let two = second_byte mask 127 (omega arith) in
    let room : 10 + key_len mask ≤ readable b =
      omega (arith, length-contents b v, ap length here, length-append (be64 n) s) in
    let most : key_len mask ≤ 4 = key_len-le mask in
    decode_bytes ctx b b0 b1 (be64 n ++ s) v here
    ∙ ap₂ (λ x y. decode_frame ctx b x y (not (b1 / 2 ^ 7 == 0)) (bit_and b1 0x7f)) one.0 one.1
    ∙ ap₂ (λ x y. decode_frame ctx b fin op x y) two.0 two.1
    ∙ data_frame_wraps ctx b fin mask op n fragment small
        (ap (λ t. decode_payload_len 127 t (readable b) mask) here
          ∙ wrapped_size b0 b1 n (readable b) s mask wraps fits room)
        short
    ∙ outcome (length (kept ctx)) n mask size (omega arith) fits
