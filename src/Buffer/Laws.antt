-- ===== src/Buffer/Laws.antt =====
-- src/buffer.cc against a queue of bytes: what each operation does to the contents.
use angel.Prelude.{
  ℕ, zero, suc, ◌+◌, ◌-◌, ◌≤◌, ◌≡◌, refl, sym, ap, ◌∙◌, List, [], ◌∷◌, ◌++◌, Option, some, arith,
  length, take, drop, replicate, length-append, length-take, length-drop, length-replicate,
  drop-append, take-append_le, take-take, inl, inr, Bool-cases, ltb, leb, true, false,
}
use angel.Buffer.{
  Buffer, contents, readable, writeable, prependable, overwrite, copy_to, make_space, append,
}
use mathlib.Core.Option

pub record IsValid (b : Buffer) : Type 0 where
  pub ordered : b.read_index ≤ b.write_index
  pub fits : b.write_index ≤ length b.buf

-- What a successful copy of `xs` to position `i` leaves.
pub record Copied (xs : List ℕ) (i : ℕ) (buf : List ℕ) : Type 0 where
  pub out : List ℕ
  pub returns : copy_to xs i buf ≡ some out
  pub same_length : length out ≡ length buf
  pub prefix : take (i + length xs) out ≡ take i buf ++ xs

overwrite-Copied : (xs buf : List ℕ) → length xs ≤ length buf → Copied xs 0 buf
unfolding copy_to overwrite
overwrite-Copied [] buf h = record { out = buf; returns = refl; same_length = refl; prefix = refl }
overwrite-Copied (x ∷ xs) [] h = absurd (omega arith)
overwrite-Copied (x ∷ xs) (b ∷ buf) h =
    let rest = overwrite-Copied xs buf (omega arith) in
    record {
      out = x ∷ rest.out;
      returns = rw (rest.returns);
      same_length = ap suc rest.same_length;
      prefix =
          ap (λ k. take k (x ∷ rest.out))
            (let e : 0 + suc (length xs) ≡ suc (0 + length xs) = omega arith in e)
          ∙ ap (λ t. x ∷ t) rest.prefix;
    }

pub copy_to-Copied :
    (xs : List ℕ) (i : ℕ) (buf : List ℕ) → i + length xs ≤ length buf → Copied xs i buf
unfolding copy_to
copy_to-Copied xs zero buf h = overwrite-Copied xs buf (omega arith)
copy_to-Copied [] (suc i) [] h = absurd (omega arith)
copy_to-Copied (x ∷ xs) (suc i) [] h = absurd (omega arith)
copy_to-Copied xs (suc i) (b ∷ buf) h =
    let rest = copy_to-Copied xs i buf (omega arith) in
    record {
      out = b ∷ rest.out;
      returns = rw (rest.returns);
      same_length = ap suc rest.same_length;
      prefix =
          ap (λ k. take k (b ∷ rest.out))
            (let e : suc i + length xs ≡ suc (i + length xs) = omega arith in e)
          ∙ ap (λ t. b ∷ t) rest.prefix;
    }

pub length-contents : (b : Buffer) → IsValid b → length (contents b) ≡ readable b
length-contents b v =
    length-drop b.read_index (take b.write_index b.buf)
    ∙ omega (arith, length-take b.write_index b.buf, v.ordered, v.fits)

-- What stands before the position of the copy is left alone.
pub Copied-before :
    (xs : List ℕ) (i : ℕ) (buf : List ℕ) (c : Copied xs i buf)
    → i ≤ length buf
    → take i c.out ≡ take i buf
Copied-before xs i buf c h =
    sym (take-take i (i + length xs) c.out (omega arith))
    ∙ ap (take i) c.prefix
    ∙ take-append_le i (take i buf) xs (omega (arith, length-take i buf))
    ∙ take-take i i buf (omega arith)

-- What `make_space` gives: the same contents, and room for `len` more bytes.
pub record Spaced (b : Buffer) (len : ℕ) : Type 0 where
  pub out : Buffer
  pub returns : make_space b len ≡ some out
  pub valid : IsValid out
  pub same : contents out ≡ contents b
  pub room : len ≤ writeable out

make_space-moves :
    (b : Buffer) (len : ℕ)
    → IsValid b
    → ltb (writeable b) len ≡ true
    → leb len (writeable b + prependable b) ≡ true
    → Spaced b len
unfolding make_space
make_space-moves b len v full near =
    let moved =
      copy_to-Copied (contents b) 0 b.buf (omega (arith, length-contents b v, v.ordered, v.fits)) in
    record {
      out = record { buf = moved.out; read_index = 0; write_index = readable b };
      returns = rw (full, near, moved.returns);
      valid = record {
        ordered = omega arith;
        fits = omega (arith, moved.same_length, v.ordered, v.fits);
      };
      same = ap (λ k. take k moved.out) (omega (arith, length-contents b v)) ∙ moved.prefix;
      room = ground (arith, moved.same_length, v.ordered, v.fits);
    }

make_space-grows :
    (b : Buffer) (len : ℕ)
    → IsValid b
    → ltb (writeable b) len ≡ true
    → leb len (writeable b + prependable b) ≡ false
    → Spaced b len
unfolding make_space
make_space-grows b len v full far =
    let zeros = replicate (b.write_index + len - length b.buf) 0 in
    let total = length-append b.buf zeros in
    let more = length-replicate {A = ℕ} (b.write_index + len - length b.buf) 0 in
    record {
      out = record b { buf = b.buf ++ zeros };
      returns = rw (full, far);
      valid = record { ordered = v.ordered; fits = omega (arith, total, v.fits) };
      same = ap (drop b.read_index) (take-append_le b.write_index b.buf zeros v.fits);
      room = ground (arith, total, more, v.ordered, v.fits);
    }

pub make_space-Spaced : (b : Buffer) (len : ℕ) → IsValid b → Spaced b len
unfolding make_space
make_space-Spaced b len v = elim (Bool-cases (ltb (writeable b) len)) [
  | inr enough ↦ record {
    out = b;
    returns = rw enough;
    valid = v;
    same = refl;
    room = ground arith;
  }
  | inl full ↦ elim (Bool-cases (leb len (writeable b + prependable b))) [
    | inl near ↦ make_space-moves b len v full near
    | inr far ↦ make_space-grows b len v full far
  ]
]

-- A copy to `end()` that fits appends to the contents.
pub contents-written :
    (b : Buffer) (s : List ℕ) (c : Copied s b.write_index b.buf)
    → IsValid b
    → contents (record b { buf = c.out; write_index = b.write_index + length s }) ≡ contents b ++ s
contents-written b s c v =
    ap (drop b.read_index) c.prefix
    ∙ drop-append b.read_index (take b.write_index b.buf) s
        (omega (arith, length-take b.write_index b.buf, v.ordered, v.fits))

pub record Appended (b : Buffer) (s : List ℕ) (result : Option Buffer) : Type 0 where
  pub out : Buffer
  pub returns : result ≡ some out
  pub valid : IsValid out
  pub holds : contents out ≡ contents b ++ s

pub written-Appended :
    (b : Buffer) (s : List ℕ)
    → IsValid b
    → length s ≤ writeable b
    → Appended b s (
        Option.map
          (λ t. record b { buf = t; write_index = b.write_index + length s })
          (copy_to s b.write_index b.buf))
written-Appended b s v room =
    let c = copy_to-Copied s b.write_index b.buf (omega (arith, v.fits)) in
    record {
      out = record b { buf = c.out; write_index = b.write_index + length s };
      returns = rw (c.returns);
      valid = record {
        ordered = omega (arith, v.ordered);
        fits = omega (arith, c.same_length, v.fits);
      };
      holds = contents-written b s c v;
    }

-- From any valid buffer, `append` writes only inside the vector, returns, and adds exactly the
-- given bytes behind the contents, moving or growing the vector as needed.
pub append-Appended : (b : Buffer) (s : List ℕ) → IsValid b → Appended b s (append b s)
unfolding append
append-Appended b s v =
    let spaced = make_space-Spaced b (length s) v in
    let c =
      copy_to-Copied s spaced.out.write_index spaced.out.buf
        (omega (arith, spaced.room, spaced.valid.fits)) in
    record {
      out = record spaced.out { buf = c.out; write_index = spaced.out.write_index + length s };
      returns = rw (spaced.returns, c.returns);
      valid = record {
        ordered = omega (arith, spaced.valid.ordered);
        fits = omega (arith, c.same_length, spaced.valid.fits, spaced.room);
      };
      holds = contents-written spaced.out s c spaced.valid ∙ ap (λ t. t ++ s) spaced.same;
    }
