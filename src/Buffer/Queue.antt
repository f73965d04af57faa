-- ===== src/Buffer/Queue.antt =====
-- A buffer as a queue of bytes: the other operations of src/buffer.cc, and runs of all of them.
use angel.Prelude.{
  ℕ, suc, ◌+◌, ◌≡◌, refl, sym, ap, ◌∙◌, List, [], ◌∷◌, ◌++◌, Option, some, arith, length, take,
  drop, length-take, drop-drop, drop-length, take-append-drop, inl, inr, Bool-cases, ltb, leb,
  append_assoc, append-nil, true, false,
}
use angel.Buffer.{
  Buffer, Received, bytes, failed, contents, readable, writeable, retrieve, c_str, read_fd, spill,
}
use angel.Buffer.Laws.{
  IsValid, Appended, append-Appended, written-Appended, length-contents, make_space-Spaced,
  copy_to-Copied, contents-written, Copied-before,
}

-- `retrieve` keeps a buffer valid and drops the given number of bytes from the front, or all.
pub retrieve-drops :
    (b : Buffer) (len : ℕ)
    → IsValid b
    → IsValid (retrieve b len) × (contents (retrieve b len) ≡ drop len (contents b))
unfolding retrieve
retrieve-drops b len v = elim (Bool-cases (ltb len (readable b))) [
  | inl some_left ↦ rw some_left (
    record { ordered = ground (arith, v.ordered); fits = v.fits },
    sym (drop-drop len b.read_index (take b.write_index b.buf)),
  )
  | inr none_left ↦ rw none_left (
    record { ordered = omega arith; fits = omega arith },
    sym (drop-length len (contents b) (ground (arith, length-contents b v))),
  )
]

-- What `c_str` leaves: a valid buffer with the same contents, a zero byte stored behind them.
pub record Terminated (b : Buffer) (result : Option Buffer) : Type 0 where
  pub out : Buffer
  pub returns : result ≡ some out
  pub valid : IsValid out
  pub same : contents out ≡ contents b
  pub zero_byte : drop out.read_index (take (out.write_index + 1) out.buf) ≡ contents b ++ 0 ∷ []

-- From any valid buffer `c_str` returns, keeps the contents and puts a zero byte behind them.
pub c_str-Terminated : (b : Buffer) → IsValid b → Terminated b (c_str b)
unfolding c_str
c_str-Terminated b v =
    let spaced = make_space-Spaced b 1 v in
    let c =
      copy_to-Copied (0 ∷ []) spaced.out.write_index spaced.out.buf
        (omega (arith, spaced.room, spaced.valid.fits)) in
    let more = contents-written spaced.out (0 ∷ []) c spaced.valid in
    let before = Copied-before (0 ∷ []) spaced.out.write_index spaced.out.buf c spaced.valid.fits in
    record {
      out = record spaced.out { buf = c.out };
      returns = rw (spaced.returns, c.returns);
      valid = record {
        ordered = spaced.valid.ordered;
        fits = omega (arith, c.same_length, spaced.valid.fits);
      };
      same = ap (drop spaced.out.read_index) before ∙ spaced.same;
      zero_byte = more ∙ ap (λ t. t ++ 0 ∷ []) spaced.same;
    }

abbrev pub received : Received → List ℕ
received failed = []
received (bytes s) = s

spill-Appended :
    (b : Buffer) (s : List ℕ)
    → IsValid b
    → leb (length s) (writeable b) ≡ false
    → Appended b s (spill b s)
unfolding spill
spill-Appended b s v over =
    let room = writeable b in
    let fill = length-take room s in
    let c = copy_to-Copied (take room s) b.write_index b.buf (omega (arith, fill, v.fits)) in
    let full : Buffer = record b { buf = c.out; write_index = b.write_index + room } in
    let filled : contents full ≡ contents b ++ take room s =
      ap (λ k. contents (record b { buf = c.out; write_index = b.write_index + k }))
        (ground (arith, fill))
      ∙ contents-written b (take room s) c v in
    let rest = append-Appended full (drop room s) (record {
      ordered = omega (arith, v.ordered);
      fits = omega (arith, c.same_length, v.fits);
    }) in
    record {
      out = rest.out;
      returns = rw (c.returns) rest.returns;
      valid = rest.valid;
      holds =
          rest.holds
          ∙ ap (λ t. t ++ drop room s) filled
          ∙ append_assoc (contents b) (take room s) (drop room s)
          ∙ ap (λ t. contents b ++ t) (take-append-drop room s);
    }

some_byte : (n : ℕ) → ltb 0 (suc n) ≡ true
some_byte n = ground arith

-- Whatever `readv` delivers, `read_fd` writes only inside the vector, returns, and adds exactly
-- the received bytes behind the contents.
pub read_fd-Appended :
    (b : Buffer) (r : Received) → IsValid b → Appended b (received r) (read_fd b r)
unfolding read_fd
read_fd-Appended b failed v = record {
  out = b;
  returns = refl;
  valid = v;
  holds = sym (append-nil _);
}
read_fd-Appended b (bytes []) v = record {
  out = b;
  returns = refl;
  valid = v;
  holds = sym (append-nil _);
}
read_fd-Appended b (bytes (x ∷ s)) v = elim (Bool-cases (leb (length (x ∷ s)) (writeable b))) [
  | inl near ↦
      rw (some_byte (length s), near, read_fd) (written-Appended b (x ∷ s) v (ground arith))
  | inr far ↦ rw (some_byte (length s), far, read_fd) (spill-Appended b (x ∷ s) v far)
]
