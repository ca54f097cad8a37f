-- ===== src/Qr/Xor.antt =====
-- Exclusive or of binary digits, half by half and undone by the same number, and the digit that a power
-- of two picks.
use Prim.Native.Nat.{digits, differ, min, bit_and, bit_and-bitwise, bit_xor, bit_xor-bitwise}
use native.Mathlib.Nat.{div-div-eq-div-mul, pow-suc}
use instant_payment_ledger_a.Prelude.{
  ℕ, zero, suc, ◌+◌, ◌*◌, ◌/◌, ◌%◌, ◌^◌, ◌≤◌, ◌<◌, ◌≡◌, refl, sym, ap, ◌∙◌, arith,
}

-- The count of digits to go does not matter, if it is at least the first number.
module _ (z : ℕ → ℕ) (f : ℕ → ℕ → ℕ) where
  zero-digits : (n b : ℕ) → digits z f n zero b ≡ z b
  zero-digits zero b = refl
  zero-digits (suc n) b = refl

  enough_digits : (n m a b : ℕ) → a ≤ n → a ≤ m → digits z f n a b ≡ digits z f m a b
  enough_digits n m zero b p q = zero-digits n b ∙ sym (zero-digits m b)
  enough_digits zero m (suc a) b p q = absurd (omega arith)
  enough_digits (suc n) zero (suc a) b p q = absurd (omega arith)
  enough_digits (suc n) (suc m) (suc a) b p q =
      ap (λ h. h * 2 + f (suc a % 2) (b % 2))
        (enough_digits n m (suc a / 2) (b / 2) (omega arith) (omega arith))

zero-bit_xor : (b : ℕ) → bit_xor 0 b ≡ b
zero-bit_xor b = bit_xor-bitwise 0 b

differ_low : (x y : ℕ) → x < 2 → y < 2 → differ x y ≡ (x + y) % 2
differ_low zero y hx hy = omega arith
differ_low (suc zero) zero hx hy = refl
differ_low (suc zero) (suc zero) hx hy = refl
differ_low (suc zero) (suc (suc y)) hx hy = absurd (omega arith)
differ_low (suc (suc x)) y hx hy = absurd (omega arith)

step : (a b : ℕ) → bit_xor a b ≡ bit_xor (a / 2) (b / 2) * 2 + (a + b) % 2
step zero b = omega (arith, zero-bit_xor b, zero-bit_xor (b / 2))
step (suc a) b = omega (
  arith,
  bit_xor-bitwise (suc a) b,
  bit_xor-bitwise (suc a / 2) (b / 2),
  enough_digits (λ b. b) differ a (suc a / 2) (suc a / 2) (b / 2) (omega arith) (omega arith),
  differ_low (suc a % 2) (b % 2) (omega arith) (omega arith),
)

pub half : (a b : ℕ) → bit_xor a b / 2 ≡ bit_xor (a / 2) (b / 2)
half a b = omega (arith, step a b)

pub low_digit : (a b : ℕ) → bit_xor a b % 2 ≡ (a + b) % 2
low_digit a b = omega (arith, step a b)

undone_upto : (n a b : ℕ) → a ≤ n → b ≤ n → bit_xor (bit_xor a b) b ≡ a
undone_upto zero zero zero ha hb = refl
undone_upto zero (suc a) b ha hb = absurd (omega arith)
undone_upto zero zero (suc b) ha hb = absurd (omega arith)
undone_upto (suc n) a b ha hb = omega (
  arith,
  step (bit_xor a b) b,
  low_digit a b,
  ap (λ h. bit_xor h (b / 2)) (half a b),
  undone_upto n (a / 2) (b / 2) (omega arith) (omega arith),
)

pub undone : (a b : ℕ) → bit_xor (bit_xor a b) b ≡ a
undone a b = undone_upto (a + b) a b (omega arith) (omega arith)

comm_upto : (n a b : ℕ) → a ≤ n → b ≤ n → bit_xor a b ≡ bit_xor b a
comm_upto zero zero zero ha hb = refl
comm_upto zero (suc a) b ha hb = absurd (omega arith)
comm_upto zero zero (suc b) ha hb = absurd (omega arith)
comm_upto (suc n) a b ha hb =
    omega (arith, step a b, step b a, comm_upto n (a / 2) (b / 2) (omega arith) (omega arith))

pub same_right : (a b c : ℕ) → bit_xor a c ≡ bit_xor b c → a ≡ b
same_right a b c e = sym (undone a c) ∙ (ap (λ x. bit_xor x c) e ∙ undone b c)

pub same_left : (a b c : ℕ) → bit_xor c a ≡ bit_xor c b → a ≡ b
same_left a b c e = same_right a b c (
    comm_upto (a + c) a c (omega arith) (omega arith)
    ∙ (e ∙ comm_upto (b + c) c b (omega arith) (omega arith)))

by_one : (a : ℕ) → a / 1 ≡ a
by_one a = omega arith

halve : (k a : ℕ) → a / 2 ^ suc k ≡ a / 2 / 2 ^ k
halve k a = ap (λ m. a / m) (omega (arith, pow-suc 2 k)) ∙ sym (div-div-eq-div-mul a 2 (2 ^ k))

-- The digits from the k-th on.
pub high_digits : (k a b : ℕ) → bit_xor a b / 2 ^ k ≡ bit_xor (a / 2 ^ k) (b / 2 ^ k)
high_digits zero a b = rw (by_one a) (rw (by_one b) (by_one (bit_xor a b)))
high_digits (suc k) a b =
    halve k (bit_xor a b)
    ∙ (ap (λ x. x / 2 ^ k) (half a b) ∙ (high_digits k (a / 2) (b / 2) ∙ cc (halve k a, halve k b)))

and_step : (a b : ℕ) → bit_and a b ≡ bit_and (a / 2) (b / 2) * 2 + min (a % 2) (b % 2)
and_step zero b = omega (arith, bit_and-bitwise 0 b, bit_and-bitwise 0 (b / 2))
and_step (suc a) b = omega (
  arith,
  bit_and-bitwise (suc a) b,
  bit_and-bitwise (suc a / 2) (b / 2),
  enough_digits (λ b. 0) min a (suc a / 2) (suc a / 2) (b / 2) (omega arith) (omega arith),
)

and_shift : (a b : ℕ) → bit_and a (b * 2) ≡ bit_and (a / 2) b * 2
and_shift a b = omega (arith, and_step a (b * 2), ap (λ h. bit_and (a / 2) h) (double b))
  where
    double : (b : ℕ) → b * 2 / 2 ≡ b
    double b = omega arith

-- The highest digit of a number of k + 1 digits.
pub top_digit : (k a : ℕ) → a < 2 ^ suc k → bit_and a (2 ^ k) ≡ a / 2 ^ k * 2 ^ k
top_digit zero zero h = refl
top_digit zero (suc zero) h = refl
top_digit zero (suc (suc a)) h = absurd (omega arith)
top_digit (suc k) a h =
    ap (bit_and a) (pow-suc 2 k)
    ∙ (and_shift a (2 ^ k)
        ∙ (ap (λ x. x * 2) (top_digit k (a / 2) (omega (arith, pow-suc 2 (suc k))))
            ∙ rw (halve k a)
                (omega (arith, pow-suc 2 k, ap (λ m. a / 2 / 2 ^ k * m) (pow-suc 2 k)))))
