-- ===== src/Prelude/Bits.antt =====
-- `&`, `|` and `^` on binary digits: one digit at a time, and as arithmetic on fields.
use Prim.Native.Nat.{
  bit_and, bit_or, bit_xor, bit_and-bitwise, bit_or-bitwise, bit_xor-bitwise, differ, digits, max,
  min, ◌<◌, ◌≤◌, ◌^◌, ◌%◌, ◌/◌, ◌*◌, ◌-◌, ◌+◌, suc, zero, ℕ,
}
use mathlib.Core.Path.{◌≡◌, refl, ap}
use native.Mathlib.Nat.{pow-suc, one-le-pow}
use native.Mathlib.Omega.{arith}

-- Any count of digits to go that is large enough gives the same number.
module _ (rest : ℕ → ℕ) (op : ℕ → ℕ → ℕ) where
  digits_any : (a b : ℕ) (k l : ℕ) → a ≤ k → a ≤ l → digits rest op k a b ≡ digits rest op l a b
  digits_any zero b zero zero p q = refl
  digits_any zero b zero (suc l) p q = refl
  digits_any zero b (suc k) zero p q = refl
  digits_any zero b (suc k) (suc l) p q = refl
  digits_any (suc a) b zero l p q = absurd (omega arith)
  digits_any (suc a) b (suc k) zero p q = absurd (omega arith)
  digits_any (suc a) b (suc k) (suc l) p q =
      ap (λ d. d * 2 + op (suc a % 2) (b % 2))
        (digits_any (suc a / 2) (b / 2) k l (omega arith) (omega arith))

  next_digit :
      (a b : ℕ)
      → digits rest op (suc a) (suc a) b
        ≡ digits rest op (suc a / 2) (suc a / 2) (b / 2) * 2 + op (suc a % 2) (b % 2)
  next_digit a b =
      ap (λ d. d * 2 + op (suc a % 2) (b % 2))
        (digits_any (suc a / 2) (b / 2) a (suc a / 2) (omega arith) (omega arith))

pub bit_and-digit : (x y : ℕ) → bit_and x y ≡ bit_and (x / 2) (y / 2) * 2 + min (x % 2) (y % 2)
bit_and-digit zero y = simp bit_and-bitwise (omega arith)
bit_and-digit (suc x) y = simp bit_and-bitwise (next_digit (λ _. 0) min x y)

pub bit_or-digit : (x y : ℕ) → bit_or x y ≡ bit_or (x / 2) (y / 2) * 2 + max (x % 2) (y % 2)
bit_or-digit zero y = simp bit_or-bitwise (omega arith)
bit_or-digit (suc x) y = simp bit_or-bitwise (next_digit (λ d. d) max x y)

pub bit_xor-digit : (x y : ℕ) → bit_xor x y ≡ bit_xor (x / 2) (y / 2) * 2 + differ (x % 2) (y % 2)
bit_xor-digit zero y = simp bit_xor-bitwise (omega arith)
bit_xor-digit (suc x) y = simp bit_xor-bitwise (next_digit (λ d. d) differ x y)

-- Both neutral cases, for all values up to a bound.
with_zero : (bound x : ℕ) → x ≤ bound → (bit_or x 0 ≡ x) × (bit_and x 0 ≡ 0)
with_zero bound zero le = (refl, refl)
with_zero zero (suc x) le = absurd (omega arith)
with_zero (suc bound) (suc x) le =
    let half = with_zero bound (suc x / 2) (omega arith) in
    (omega (arith, bit_or-digit (suc x) 0, half.0), omega (arith, bit_and-digit (suc x) 0, half.1))

pub bit_or-zero : (x : ℕ) → bit_or x 0 ≡ x
bit_or-zero x = (with_zero x x (omega arith)).0

pub bit_and-zero : (x : ℕ) → bit_and x 0 ≡ 0
bit_and-zero x = (with_zero x x (omega arith)).1

mul-pow-suc : (x k : ℕ) → x * 2 ^ suc k ≡ x * 2 ^ k * 2
mul-pow-suc x k = omega (arith, ap (λ (p : ℕ). x * p) (pow-suc 2 k))

-- The or of a value shifted by `k` and one of `k` bits is their sum.
pub bit_or-shifted : (k x y : ℕ) → y < 2 ^ k → bit_or (x * 2 ^ k) y ≡ x * 2 ^ k + y
bit_or-shifted zero x y h = ground (arith, bit_or-zero x)
bit_or-shifted (suc k) x y h =
    let lower = bit_or-shifted k x (y / 2) (omega (arith, pow-suc 2 k)) in
    ground (arith, bit_or-digit (x * 2 ^ suc k) y, mul-pow-suc x k, lower)

ones_mask : (k x y : ℕ) → y < 2 ^ k → bit_and (x * 2 ^ k + y) (2 ^ k - 1) ≡ y
ones_mask zero x y h = omega (arith, bit_and-zero (x * 1 + y))
ones_mask (suc k) x y h =
    let lower = ones_mask k x (y / 2) (omega (arith, pow-suc 2 k)) in
    ground (
      arith,
      lower,
      mul-pow-suc x k,
      pow-suc 2 k,
      one-le-pow k 2,
      bit_and-digit (x * 2 ^ suc k + y) (2 ^ suc k - 1),
    )

-- The and with `k` ones is the remainder by `2 ^ k`.
pub bit_and-ones : (k a : ℕ) → bit_and a (2 ^ k - 1) ≡ a % 2 ^ k
bit_and-ones k a = ground (arith, one-le-pow k 2, ones_mask k (a / 2 ^ k) (a % 2 ^ k))

differ_twice : (a b : ℕ) → a < 2 → b < 2 → (differ (differ a b) b ≡ a) × (differ a b < 2)
differ_twice zero zero p q = (refl, omega arith)
differ_twice zero (suc zero) p q = (refl, omega arith)
differ_twice (suc zero) zero p q = (refl, omega arith)
differ_twice (suc zero) (suc zero) p q = (refl, omega arith)
differ_twice (suc (suc a)) b p q = absurd (omega arith)
differ_twice zero (suc (suc b)) p q = absurd (omega arith)
differ_twice (suc zero) (suc (suc b)) p q = absurd (omega arith)

-- The exclusive or with one value, done twice, gives the number back and keeps its width.
pub bit_xor_twice :
    (k a b : ℕ) → a < 2 ^ k → b < 2 ^ k → (bit_xor (bit_xor a b) b ≡ a) × (bit_xor a b < 2 ^ k)
bit_xor_twice zero zero zero p q = (refl, omega arith)
bit_xor_twice zero (suc a) b p q = absurd (omega arith)
bit_xor_twice zero zero (suc b) p q = absurd (omega arith)
bit_xor_twice (suc k) a b p q =
    let lower =
      bit_xor_twice k (a / 2) (b / 2) (omega (arith, pow-suc 2 k)) (omega (arith, pow-suc 2 k)) in
    let digit = differ_twice (a % 2) (b % 2) (omega arith) (omega arith) in
    ground (arith, lower, digit, pow-suc 2 k, bit_xor-digit a b, bit_xor-digit (bit_xor a b) b)
