-- ===== src/WebSocket/Decoding.antt =====
-- `decode` of src/websocket/ws-server.cc on frames of RFC 6455.
use angel.Prelude.{
  ℕ, ◌+◌, ◌*◌, ◌/◌, ◌^◌, ◌≤◌, ◌<◌, ◌≡◌, refl, ap, ap₂, sym, ◌∙◌, List, [], ◌∷◌, ◌++◌, Bool, true,
  false, not, Option, some, none, arith, length, get_or, take, drop, ltb, leb, ◌==◌, if◌then◌else◌,
  bit_and, length-append, append_assoc, drop-length-append, inl, inr, Bool-cases,
}
use angel.Buffer.{Buffer, contents, readable, retrieve}
use angel.Buffer.Laws.{IsValid, length-contents}
use angel.Buffer.Queue.{retrieve-drops}
use angel.WebSocket.{
  Context, Extent, decode_payload_len, check_fragmentation, unmask, returns, type_of, code_of,
  take_payload, decode, decode_frame,
}
use angel.WebSocket.Wire.{Frame, bit, size_field, body, is_masked, wire, IsKey, IsFrame}
use angel.WebSocket.Fields.{
  length-unmask, unmask_twice, extent-fits, size_bits, size_read, first_byte, second_byte, plain_at,
  key_at, masked_at,
}

-- The context behind a frame.
abbrev pub received : Context → Frame → Context
received ctx f = record ctx {
  decoded_buffer = (if ctx.rcvfragment then ctx.decoded_buffer else []) ++ f.payload;
  rcvfragment = not f.fin;
  is_binary_type = type_of f.opcode ctx.is_binary_type;
}

abbrev extent_of : Frame → Extent
extent_of f =
    let at : ℕ = length (size_field (bit (is_masked f.key)) (length f.payload)) + 1 in
    record {
      payload_len = length f.payload;
      key_at = at;
      payload_at = at + (if is_masked f.key then 4 else 0);
    }

take_payload-wire :
    (ctx : Context) (b : Buffer) (fin : Bool) (op : ℕ) (key : Option (List ℕ))
    (payload rest : List ℕ)
    → let f : Frame = record { fin = fin; opcode = op; key = key; payload = payload } in
      contents b ≡ wire f ++ rest
      → IsFrame f
      → take_payload ctx b fin op (is_masked key) (extent_of f)
        ≡ returns
            (code_of op)
            (received ctx f)
            (retrieve b ((extent_of f).payload_at + length payload))
unfolding take_payload
take_payload-wire ctx b fin op none payload rest here v =
    let sf = size_field 0 (length payload) in
    let at : contents b ≡ (bit fin * 128 + op) ∷ (sf ++ (payload ++ rest)) =
      here ∙ ap (λ t. (bit fin * 128 + op) ∷ t) (append_assoc sf payload rest) in
    let whole : take (length payload) (drop (length sf + 1 + 0) (contents b)) ≡ payload =
      ap (λ t. take (length payload) (drop (length sf + 1 + 0) t)) at
      ∙ plain_at (bit fin * 128 + op) sf payload rest in
    let fits : ltb (length payload) (length payload) ≡ false = ground arith in rw (whole, fits) refl
take_payload-wire ctx b fin op (some key) payload rest here v =
    let sf = size_field 1 (length payload) in
    let masked = unmask key 0 payload in
    let at : contents b ≡ (bit fin * 128 + op) ∷ (sf ++ (key ++ (masked ++ rest))) =
      here
      ∙ ap (λ t. (bit fin * 128 + op) ∷ t)
          (append_assoc sf (key ++ masked) rest
            ∙ ap (λ t. sf ++ t) (append_assoc key masked rest)) in
    let four = v.key_fits.0 in
    let found : take 4 (drop (length sf + 1) (contents b)) ≡ key =
      ap (λ t. take 4 (drop (length sf + 1) t)) at
      ∙ key_at (bit fin * 128 + op) sf key (masked ++ rest) four in
    let whole : take (length payload) (drop (length sf + 1 + 4) (contents b)) ≡ masked =
      ap (λ t. take (length payload) (drop (length sf + 1 + 4) t)) at
      ∙ ap
          (λ n.
            take n
              (drop (length sf + 1 + 4) ((bit fin * 128 + op) ∷ (sf ++ (key ++ (masked ++ rest))))))
          (sym (length-unmask key 0 payload))
      ∙ masked_at (bit fin * 128 + op) sf key masked rest four in
    let fits : ltb (length masked) (length payload) ≡ false =
      ground (arith, length-unmask key 0 payload) in
    rw (whole, fits, found, unmask_twice key 0 payload v.key_fits.1 v.bytes) refl

decode_frame_steps :
    (ctx : Context) (b : Buffer) (fin mask : Bool) (op k : ℕ) (e : Extent)
    → check_fragmentation ctx.rcvfragment fin op ≡ true
    → (if leb 8 op then ltb 125 k else false) ≡ false
    → decode_payload_len k (contents b) (readable b) mask ≡ some e
    → decode_frame ctx b fin op mask k ≡ take_payload ctx b fin op mask e
unfolding decode_frame
decode_frame_steps ctx b fin mask op k e fragment control size =
    rw (fragment, control, size, decode_frame)

pub decode_bytes :
    (ctx : Context) (b : Buffer) (b0 b1 : ℕ) (s : List ℕ)
    → IsValid b
    → contents b ≡ b0 ∷ b1 ∷ s
    → decode ctx b
      ≡ decode_frame ctx b
          (not (b0 / 2 ^ 7 == 0))
          (bit_and b0 0x0f)
          (not (b1 / 2 ^ 7 == 0))
          (bit_and b1 0x7f)
unfolding decode
decode_bytes ctx b b0 b1 s v e =
    let enough : ltb (readable b) 2 ≡ false = ground (arith, length-contents b v, ap length e) in
    let first : get_or (contents b) 0 0 ≡ b0 = ap (λ t. get_or t 0 0) e in
    let second : get_or (contents b) 1 0 ≡ b1 = ap (λ t. get_or t 1 0) e in
    rw (enough, first, second) refl

control_size :
    (op n : ℕ) → (8 ≤ op → n ≤ 125) → (if leb 8 op then ltb 125 (size_bits n) else false) ≡ false
control_size op n h = elim (Bool-cases (leb 8 op)) [
  | inr data_frame ↦ rw data_frame
  | inl control ↦
      let short : n ≤ 125 = h (ground arith) in
      let a : ltb n 126 ≡ true = ground arith in
      let b : ltb 125 n ≡ false = ground arith in rw (control, a, b)
]

pub size_bits-lt : (n : ℕ) → size_bits n < 128
size_bits-lt n = ground arith

pub size_field_cons : (m n : ℕ) → size_field m n ≡ (m * 128 + size_bits n) ∷ drop 1 (size_field m n)
size_field_cons m n = elim (Bool-cases (ltb n 126)) [
  | inl small ↦ rw small refl
  | inr large ↦ elim (Bool-cases (ltb n 65536)) [
    | inl middle ↦ rw (large, middle) refl
    | inr huge ↦ rw (large, huge) refl
  ]
]

length-size_field : (m n : ℕ) → length (size_field m n) ≤ 9
length-size_field m n = ground arith

length-body :
    (key : Option (List ℕ)) (p : List ℕ)
    → IsKey key
    → length (body key p) ≡ (if is_masked key then 4 else 0) + length p
length-body none p k = omega arith
length-body (some key) p k =
    omega (arith, length-append key (unmask key 0 p), length-unmask key 0 p, k.0)

length-wire :
    (f : Frame) → IsFrame f → (extent_of f).payload_at + length f.payload ≡ length (wire f)
length-wire f v =
    let sf = size_field (bit (is_masked f.key)) (length f.payload) in
    omega (arith, length-append sf (body f.key f.payload), length-body f.key f.payload v.key_fits)

frame_extent :
    (f : Frame) (b : Buffer) (rest : List ℕ)
    → IsValid b
    → IsFrame f
    → contents b ≡ wire f ++ rest
    → decode_payload_len (size_bits (length f.payload)) (contents b) (readable b) (is_masked f.key)
      ≡ some (extent_of f)
frame_extent f b rest v fr here =
    let n = length f.payload in
    let m = bit (is_masked f.key) in
    let sf = size_field m n in
    let at : contents b ≡ (bit f.fin * 128 + f.opcode) ∷ (sf ++ (body f.key f.payload ++ rest)) =
      here
      ∙ ap (λ t. (bit f.fin * 128 + f.opcode) ∷ t) (append_assoc sf (body f.key f.payload) rest) in
    let all : readable b ≡ length (wire f) + length rest =
      sym (length-contents b v) ∙ ap length here ∙ length-append (wire f) rest in
    let sized = length-wire f fr in
    ap (λ t. decode_payload_len (size_bits n) t (readable b) (is_masked f.key)) at
    ∙ size_read (bit f.fin * 128 + f.opcode) m n (is_masked f.key) (body f.key f.payload ++ rest)
        (readable b) fr.size_fits (omega (arith, length-append sf (body f.key f.payload)))
    ∙ extent-fits n (length sf + 1) (is_masked f.key) (readable b)
        (omega (arith, length-size_field m n)) fr.size_fits (omega arith)

pub decode-wire :
    (ctx : Context) (b : Buffer) (f : Frame) (rest : List ℕ)
    → IsValid b
    → IsFrame f
    → contents b ≡ wire f ++ rest
    → check_fragmentation ctx.rcvfragment f.fin f.opcode ≡ true
    → (8 ≤ f.opcode → length f.payload ≤ 125)
    → (decode ctx b ≡ returns (code_of f.opcode) (received ctx f) (retrieve b (length (wire f))))
      × (contents (retrieve b (length (wire f))) ≡ rest)
decode-wire ctx b f rest v fr here fragment control =
    let n = length f.payload in
    let m = bit (is_masked f.key) in
    let sf = size_field m n in
    let b0 = bit f.fin * 128 + f.opcode in
    let b1 = m * 128 + size_bits n in
    let tail = drop 1 sf ++ body f.key f.payload ++ rest in
    let at : contents b ≡ b0 ∷ b1 ∷ tail =
      here ∙ ap (λ t. b0 ∷ (t ++ body f.key f.payload ++ rest)) (size_field_cons m n) in
    let one = first_byte f.fin f.opcode fr.opcode_fits in
    let two = second_byte (is_masked f.key) (size_bits n) (size_bits-lt n) in
    let through =
      decode_frame_steps ctx b f.fin (is_masked f.key) f.opcode (size_bits n) (extent_of f) fragment
        (control_size f.opcode n control) (frame_extent f b rest v fr here) in
    (
      decode_bytes ctx b b0 b1 tail v at
          ∙ ap₂ (λ x y. decode_frame ctx b x y (not (b1 / 2 ^ 7 == 0)) (bit_and b1 0x7f)) one.0
              one.1
          ∙ ap₂ (λ x y. decode_frame ctx b f.fin f.opcode x y) two.0 two.1
          ∙ through
          ∙ take_payload-wire ctx b f.fin f.opcode f.key f.payload rest here fr
          ∙ ap (λ k. returns (code_of f.opcode) (received ctx f) (retrieve b k)) (length-wire f fr),
      (retrieve-drops b (length (wire f)) v).1
          ∙ ap (drop (length (wire f))) here
          ∙ drop-length-append (wire f) rest,
    )
