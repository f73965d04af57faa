-- ===== src/Sha1/Chunks.antt =====
-- src/sha1.cc: running over the chunks of a text in two parts.
use angel.Prelude.{
  ℕ, zero, suc, ◌+◌, ◌*◌, ◌≡◌, refl, ap, ap₂, ◌∙◌, List, [], ◌∷◌, ◌++◌, arith, length, take, drop,
  take-append_le, drop-append, length-drop,
}
use angel.Sha1.{State, chunk_cal, one_chunk}

pub chunk_cal-append :
    (n m : ℕ) (a b : List ℕ) (h : State)
    → length a ≡ 64 * n
    → chunk_cal (n + m) (a ++ b) h ≡ chunk_cal m b (chunk_cal n a h)
unfolding chunk_cal
chunk_cal-append zero m [] b h e = ap (λ k. chunk_cal k b h) (let z : 0 + m ≡ m = omega arith in z)
chunk_cal-append zero m (x ∷ a) b h e = absurd (omega arith)
chunk_cal-append (suc n) m a b h e =
    ap (λ k. chunk_cal k (a ++ b) h) (let s : suc n + m ≡ suc (n + m) = omega arith in s)
    ∙ ap₂ (λ t u. chunk_cal (n + m) t (one_chunk u h)) (drop-append 64 a b (omega arith))
        (take-append_le 64 a b (omega arith))
    ∙ chunk_cal-append n m (drop 64 a) b (one_chunk (take 64 a) h) (omega (arith, length-drop 64 a))

-- The bytes behind the last whole chunk do not matter.
pub chunk_cal-whole :
    (n : ℕ) (a b : List ℕ) (h : State)
    → length a ≡ 64 * n
    → chunk_cal n (a ++ b) h ≡ chunk_cal n a h
chunk_cal-whole n a b h e =
    ap (λ k. chunk_cal k (a ++ b) h) (let z : n ≡ n + 0 = omega arith in z)
    ∙ chunk_cal-append n 0 a b h e
    ∙ unfold chunk_cal in refl
