-- ===== src/Sha1/Updates.antt =====
-- src/sha1.cc: a text given in several pieces.
use angel.Prelude.{
  ℕ, ◌+◌, ◌-◌, ◌/◌, ◌%◌, ◌<◌, ◌≡◌, refl, ap, sym, ◌∙◌, List, [], ◌∷◌, ◌++◌, some, true, false,
  arith, length, drop, min, drop-length, length-drop, length-append, take-length, drop-drop,
  drop-length-append, append_assoc, Bool-cases, inl, inr, ltb, ◌==◌,
}
use angel.Sha1.{
  State, Sha1, init, initial, update, absorb, top_up, digest, chunk_cal, padding, file, Read, block,
}
use angel.Sha1.Chunks.{chunk_cal-append}
use angel.Sha1.Standard.{suffix}
use angel.Sha1.Padding.{padding_lem, update-init, digest_of}

chunk_cal_none : (n : ℕ) (text : List ℕ) (h : State) → n ≡ 0 → chunk_cal n text h ≡ h
chunk_cal_none n text h e = ap (λ k. chunk_cal k text h) e ∙ unfold chunk_cal in refl

drop_none : (n : ℕ) (text : List ℕ) → n ≡ 0 → drop n text ≡ text
drop_none n text e = ap (λ k. drop k text) e

update-absorb : (s : Sha1) (text : List ℕ) → s.buf ≡ [] → update s text ≡ absorb (s, text)
unfolding update
update-absorb s text e = rw e

-- With an empty buffer: the whole chunks are run over, and the bytes behind them are kept.
absorb-empty :
    (s : Sha1) (text : List ℕ)
    → s.buf ≡ []
    → absorb (s, text) ≡ record {
      h = chunk_cal (length text / 64) text s.h;
      buf = drop (length text - length text % 64) text;
      payload = s.payload + length text;
    }
unfolding absorb
absorb-empty s text e = elim (Bool-cases (ltb 0 (length text % 64))) [
  | inl left ↦ rw (left, e) refl
  | inr whole ↦ rw (whole, e, drop-length (length text - length text % 64) text (ground arith)) refl
]

absorb-append :
    (s : Sha1) (a b : List ℕ) (w : Sha1)
    → s.buf ≡ []
    → length a % 64 ≡ 0
    → w ≡ record { h = chunk_cal (length a / 64) a s.h; buf = []; payload = s.payload + length a }
    → absorb (w, b) ≡ absorb (s, a ++ b)
absorb-append s a b w e whole is =
    let total = length-append a b in
    let k = length b - length b % 64 in
    let hs : chunk_cal (length b / 64) b (chunk_cal (length a / 64) a s.h)
        ≡ chunk_cal (length (a ++ b) / 64) (a ++ b) s.h =
      sym (chunk_cal-append (length a / 64) (length b / 64) a b s.h (omega arith))
      ∙ ap (λ n. chunk_cal n (a ++ b) s.h) (omega (arith, total)) in
    let bufs : drop k b ≡ drop (length (a ++ b) - length (a ++ b) % 64) (a ++ b) =
      ap (drop k) (sym (drop-length-append a b))
      ∙ drop-drop k (length a) (a ++ b)
      ∙ ap (λ n. drop n (a ++ b)) (omega (arith, total)) in
    let pays : s.payload + length a + length b ≡ s.payload + length (a ++ b) =
      omega (arith, total) in
    ap (λ v. absorb (v, b)) is
    ∙ absorb-empty
        (record { h = chunk_cal (length a / 64) a s.h; buf = []; payload = s.payload + length a }) b
        refl
    ∙ (λ i. record { h = hs i; buf = bufs i; payload = pays i })
    ∙ sym (absorb-empty s (a ++ b) e)

empty_after : (s : Sha1) (a : List ℕ) → s.buf ≡ [] → length a % 64 ≡ 0 → (update s a).buf ≡ []
empty_after s a e whole =
    ap (λ v. v.buf) (update-absorb s a e ∙ absorb-empty s a e)
    ∙ drop-length (length a - length a % 64) a (omega arith)

-- When nothing is buffered, a piece of whole chunks and then a second piece are one piece.
pub update-append :
    (s : Sha1) (a b : List ℕ)
    → s.buf ≡ []
    → length a % 64 ≡ 0
    → update (update s a) b ≡ update s (a ++ b)
update-append s a b e whole =
    let first : update s a
        ≡ record { h = chunk_cal (length a / 64) a s.h; buf = []; payload = s.payload + length a } =
      update-absorb s a e
      ∙ absorb-empty s a e
      ∙ ap
          (λ t. record {
            h = chunk_cal (length a / 64) a s.h;
            buf = t;
            payload = s.payload + length a;
          })
          (drop-length (length a - length a % 64) a (omega arith)) in
    update-absorb (update s a) b (ap (λ v. v.buf) first)
    ∙ absorb-append s a b (update s a) e whole first
    ∙ sym (update-absorb s (a ++ b) e)

not_empty :
    (s : Sha1) (text : List ℕ)
    → (length s.buf == 0) ≡ false
    → update s text ≡ absorb (top_up s text)
unfolding update
not_empty s text h = rw h

top_up_short :
    (h : State) (a b : List ℕ) (n : ℕ)
    → length a + length b < 64
    → top_up (record { h = h; buf = a; payload = n }) b
      ≡ (record { h = h; buf = a ++ b; payload = n }, [])
unfolding top_up
top_up_short h a b n short =
    let all : min (64 - length a) (length b) ≡ length b = omega arith in
    let open_chunk : (length (a ++ b) == 64) ≡ false = ground (arith, length-append a b) in
    rw (
      all,
      take-length (length b) b (omega arith),
      drop-length (length b) b (omega arith),
      open_chunk,
    )

absorb_nothing :
    (h : State) (buf : List ℕ) (n : ℕ)
    → absorb (record { h = h; buf = buf; payload = n }, [])
      ≡ record { h = h; buf = buf; payload = n }
unfolding absorb chunk_cal
absorb_nothing h buf n = let e : n + 0 ≡ n = omega arith in rw e refl

update_one :
    (a : List ℕ) (n : ℕ)
    → length a ≡ n
    → n < 64
    → update init a ≡ record { h = initial; buf = a; payload = n }
update_one a n e short = update-init a ∙ (λ i. record {
  h = chunk_cal_none (length a / 64) a initial (omega arith) i;
  buf = drop_none (length a - length a % 64) a (omega arith) i;
  payload = e i;
})

-- The state behind two pieces that together are short of a chunk: the second piece is not counted.
update_short :
    (a b : List ℕ)
    → 0 < length a
    → length a + length b < 64
    → update (update init a) b ≡ record { h = initial; buf = a ++ b; payload = length a }
update_short a b some_a short =
    ap (λ s. update s b) (update_one a (length a) refl (omega arith)) ∙ second
  where
    second :
        update (record { h = initial; buf = a; payload = length a }) b
        ≡ record { h = initial; buf = a ++ b; payload = length a }
    second =
        not_empty (record { h = initial; buf = a; payload = length a }) b (ground arith)
        ∙ ap absorb (top_up_short initial a b (length a) short)
        ∙ absorb_nothing initial (a ++ b) (length a)

-- Two nonempty pieces that together are short of a chunk have the digest of the last bytes alone,
-- as many as the first piece has.
pub digest-update_short :
    (a b : List ℕ)
    → 0 < length a
    → 0 < length b
    → length a + length b < 64
    → digest (update (update init a) b) ≡ digest (update init (drop (length b) (a ++ b)))
digest-update_short a b some_a some_b short =
    let last = drop (length b) (a ++ b) in
    let size : length last ≡ length a =
      omega (arith, length-drop (length b) (a ++ b), length-append a b) in
    let pads : padding (a ++ b) (length a) ≡ some (last ++ suffix (length a)) =
      padding_lem (a ++ b) (length a) (omega arith) (omega (arith, length-append a b))
      ∙ ap (λ k. some (drop k (a ++ b) ++ suffix (length a))) (omega (arith, length-append a b)) in
    let pads' : padding last (length a) ≡ some (last ++ suffix (length a)) =
      padding_lem last (length a) (omega arith) (omega arith)
      ∙ ap (λ t. some (t ++ suffix (length a)))
          (drop_none (length last - length a % 64) last (omega arith)) in
    ap digest (update_short a b some_a short)
    ∙ digest_of (record { h = initial; buf = a ++ b; payload = length a })
        (last ++ suffix (length a)) pads
    ∙ sym (
        digest_of (record { h = initial; buf = last; payload = length a })
          (last ++ suffix (length a)) pads')
    ∙ sym (ap digest (update_one last (length a) size (omega arith)))

abbrev pub concat : List (List ℕ) → List ℕ
concat [] = []
concat (b ∷ bs) = b ++ concat bs

-- The reads of a file whose blocks before the last are whole chunks, as `read_file` fills its 16
-- KiB unless the file ends.
abbrev pub WholeBlocks : List (List ℕ) → List ℕ → Type 0
WholeBlocks [] last = 0 < length last
WholeBlocks (b ∷ bs) last = (0 < length b) × (length b % 64 ≡ 0) × WholeBlocks bs last

abbrev pub blocks : List (List ℕ) → List ℕ → List Read
blocks [] last = block last ∷ block [] ∷ []
blocks (b ∷ bs) last = block b ∷ blocks bs last

file-block :
    (s : Sha1) (b : List ℕ) (reads : List Read)
    → 0 < length b
    → file s (block b ∷ reads) ≡ file (update s b) reads
unfolding file
file-block s [] reads h = absurd (omega arith)
file-block s (x ∷ xs) reads h = refl

-- With nothing buffered, reading a file in nonempty blocks of whole chunks and a nonempty last block gives the state
-- of one update with all of its bytes.
pub file-blocks :
    (s : Sha1) (bs : List (List ℕ)) (last : List ℕ)
    → s.buf ≡ []
    → WholeBlocks bs last
    → file s (blocks bs last) ≡ (update s (concat bs ++ last), true)
file-blocks s [] last e h = file-block s last (block [] ∷ []) h ∙ unfold file in refl
file-blocks s (b ∷ bs) last e h =
    file-block s b (blocks bs last) h.0
    ∙ file-blocks (update s b) bs last (empty_after s b e h.1) h.2
    ∙ ap (λ t. (t, true))
        (update-append s b (concat bs ++ last) e h.1
          ∙ ap (update s) (sym (append_assoc b (concat bs) last)))
