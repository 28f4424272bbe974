-- ===== src/Prelude/Bits.antt =====
-- `&` with a field's mask and `|` of separate fields, as arithmetic.
use Prim.Native.Nat.{
  ℕ, zero, suc, ◌+◌, ◌-◌, ◌*◌, ◌/◌, ◌%◌, ◌^◌, ◌≤◌, ◌<◌, min, max, bit_and, bit_or, digits,
  bit_and-bitwise, bit_or-bitwise,
}
use native.Mathlib.Nat.{
  pow-suc, mul_comm, div-add-mod, mod-lt, mod-eq_of_lt, add-mul-mod_self_right, one-le-pow,
  mul-div_left, div-div-eq-div-mul,
}
use mathlib.Core.Path.{◌≡◌, refl, ap, sym, ◌∙◌}
use mathlib.Core.Bool.{Bool, true, false}
use mathlib.Core.Logic.{ite}
use native.Mathlib.Decide.{ℕ_discrete}
use native.Mathlib.Omega.{arith}

-- The recursion on digits does not depend on its count, once that is as large as the number.
module _ (z : ℕ → ℕ) (f : ℕ → ℕ → ℕ) where
  digits_count : (n m a b : ℕ) → a ≤ n → a ≤ m → digits z f n a b ≡ digits z f m a b
  digits_count zero zero zero b p q = refl
  digits_count zero (suc m) zero b p q = refl
  digits_count (suc n) zero zero b p q = refl
  digits_count (suc n) (suc m) zero b p q = refl
  digits_count zero m (suc a) b p q = absurd (omega arith)
  digits_count (suc n) zero (suc a) b p q = absurd (omega arith)
  digits_count (suc n) (suc m) (suc a) b p q =
      ap (λ t. t * 2 + f (suc a % 2) (b % 2))
        (digits_count n m (suc a / 2) (b / 2) (omega arith) (omega arith))

-- One digit of `&` and of `|`.
and_digit : (a b : ℕ) → bit_and a b ≡ bit_and (a / 2) (b / 2) * 2 + min (a % 2) (b % 2)
and_digit zero b = omega (arith, bit_and-bitwise 0 b, bit_and-bitwise 0 (b / 2))
and_digit (suc a) b = omega (
  arith,
  bit_and-bitwise (suc a) b,
  bit_and-bitwise (suc a / 2) (b / 2),
  digits_count (λ b. zero) min a (suc a / 2) (suc a / 2) (b / 2) (omega arith) (omega arith),
)

or_digit : (a b : ℕ) → bit_or a b ≡ bit_or (a / 2) (b / 2) * 2 + max (a % 2) (b % 2)
or_digit zero b = omega (arith, bit_or-bitwise 0 b, bit_or-bitwise 0 (b / 2))
or_digit (suc a) b = omega (
  arith,
  bit_or-bitwise (suc a) b,
  bit_or-bitwise (suc a / 2) (b / 2),
  digits_count (λ b. b) max a (suc a / 2) (suc a / 2) (b / 2) (omega arith) (omega arith),
)

and_even : (x m : ℕ) → bit_and x (m * 2) ≡ bit_and (x / 2) m * 2
and_even x m =
    let half : m * 2 / 2 ≡ m = omega arith in rw (and_digit x (m * 2), half) (omega arith)

and_odd : (x m : ℕ) → bit_and x (m * 2 + 1) ≡ bit_and (x / 2) m * 2 + x % 2
and_odd x m =
    let half : (m * 2 + 1) / 2 ≡ m = omega arith in rw (and_digit x (m * 2 + 1), half) (omega arith)

and_zero_upto : (n x : ℕ) → x ≤ n → bit_and x 0 ≡ 0
and_zero_upto zero zero h = refl
and_zero_upto zero (suc x) h = absurd (omega arith)
and_zero_upto (suc n) x h = omega (arith, and_digit x 0, and_zero_upto n (x / 2) (omega arith))

or_zero_upto : (n x : ℕ) → x ≤ n → bit_or x 0 ≡ x
or_zero_upto zero zero h = refl
or_zero_upto zero (suc x) h = absurd (omega arith)
or_zero_upto (suc n) x h = omega (arith, or_digit x 0, or_zero_upto n (x / 2) (omega arith))

mod_double : (x p : ℕ) → 0 < p → x / 2 % p * 2 + x % 2 ≡ x % (p * 2)
mod_double x p h =
    let low : ℕ = x / 2 % p * 2 + x % 2 in
    let split : x ≡ low + x / 2 / p * (p * 2) =
      omega (arith, ap (λ (t : ℕ). t * 2) (div-add-mod (x / 2) p)) in
    let small : low < p * 2 = omega (arith, mod-lt (x / 2) h) in
    sym (
      ap (λ t. t % (p * 2)) split
      ∙ add-mul-mod_self_right low (x / 2 / p) (p * 2)
      ∙ mod-eq_of_lt small)

-- `x & (2 ^ k - 1)`
pub and_ones : (k x : ℕ) → bit_and x (2 ^ k - 1) ≡ x % 2 ^ k
and_ones zero x = and_zero_upto x x (omega arith) ∙ omega arith
and_ones (suc k) x =
    let pos : 0 < 2 ^ k = one-le-pow k 2 (omega arith) in
    let twice : 2 ^ suc k - 1 ≡ (2 ^ k - 1) * 2 + 1 = omega (arith, pow-suc 2 k) in
    rw (twice, and_odd, and_ones k (x / 2), mod_double x (2 ^ k) pos, ← pow-suc 2 k)

-- `x & (m << k)`
pub and_shift : (k x m : ℕ) → bit_and x (m * 2 ^ k) ≡ bit_and (x / 2 ^ k) m * 2 ^ k
and_shift zero x m =
    let e : m * 2 ^ 0 ≡ m = omega arith in
    let d : x / 2 ^ 0 ≡ x = omega arith in rw (e, d) (omega arith)
and_shift (suc k) x m =
    let twice : m * (2 ^ k * 2) ≡ m * 2 ^ k * 2 = omega arith in
    let halves : x / (2 ^ k * 2) ≡ x / 2 / 2 ^ k =
      ap (λ t. x / t) (mul_comm (2 ^ k) 2) ∙ sym (div-div-eq-div-mul x 2 (2 ^ k)) in
    rw (pow-suc 2 k, twice, halves, and_even x (m * 2 ^ k), and_shift k (x / 2) m) (omega arith)

-- `(x << k) | y` where `y` has no bit above the lowest `k`
pub or_disjoint : (k x y : ℕ) → y < 2 ^ k → bit_or (x * 2 ^ k) y ≡ x * 2 ^ k + y
or_disjoint zero x y h =
    let e : x * 2 ^ 0 ≡ x = omega arith in
    let d : y ≡ 0 = omega arith in rw (e, d) (or_zero_upto x x (omega arith) ∙ omega arith)
or_disjoint (suc k) x y h =
    let q : x * (2 ^ k * 2) ≡ x * 2 ^ k * 2 = omega arith in
    let half : x * 2 ^ k * 2 / 2 ≡ x * 2 ^ k = omega arith in
    let small : y / 2 < 2 ^ k = omega (arith, pow-suc 2 k) in
    rw (pow-suc 2 k, q, or_digit (x * 2 ^ k * 2) y, half, or_disjoint k x (y / 2) small)
      (omega arith)

-- `x & (((1 << w) - 1) << k)`: the field of `w` bits at bit `k`.
pub and_field : (k w x : ℕ) → bit_and x ((2 ^ w - 1) * 2 ^ k) ≡ x / 2 ^ k % 2 ^ w * 2 ^ k
and_field k w x = and_shift k x (2 ^ w - 1) ∙ ap (λ t. t * 2 ^ k) (and_ones w (x / 2 ^ k))

-- `f | ((v << k) & mask)` where `f` has only bits from `j = w + k` on: `v` becomes the next field.
pub or_field :
    (j k w acc v : ℕ)
    → 2 ^ j ≡ 2 ^ w * 2 ^ k
    → v < 2 ^ w
    → bit_or (acc * 2 ^ j) (bit_and (v * 2 ^ k) ((2 ^ w - 1) * 2 ^ k)) ≡ (acc * 2 ^ w + v) * 2 ^ k
or_field j k w acc v e h =
    let pos : 0 < 2 ^ k = one-le-pow k 2 (omega arith) in
    let shifted : v * 2 ^ k / 2 ^ k ≡ v = mul-div_left v pos in
    let whole : v % 2 ^ w ≡ v = mod-eq_of_lt h in
    let small : v * 2 ^ k < 2 ^ j = rw e (grind arith) in
    let split : acc * (2 ^ w * 2 ^ k) ≡ acc * 2 ^ w * 2 ^ k = omega arith in
    rw (and_field k w (v * 2 ^ k), shifted, whole, or_disjoint j acc (v * 2 ^ k) small, e, split)
      (omega arith)

-- Two functions of a byte, compared on every value below `n`.
agree_below : (ℕ → ℕ) → (ℕ → ℕ) → ℕ → Bool
unfolding ℕ_discrete
agree_below f g zero = true
agree_below f g (suc n) = ite (ℕ_discrete (f n) (g n)) (agree_below f g n) false

agree_below→eq : (f g : ℕ → ℕ) (n i : ℕ) → agree_below f g n ≡ true → i < n → f i ≡ g i
unfolding agree_below
agree_below→eq f g zero i e h = absurd (omega arith)
agree_below→eq f g (suc n) i e h = ground (arith, agree_below→eq f g n i)

-- `b | 0x80` on seven bits
pub or_top : (b : ℕ) → b < 128 → bit_or b 0x80 ≡ b + 128
or_top b h = agree_below→eq (λ b. bit_or b 0x80) (λ b. b + 128) 128 b (unfold agree_below in refl) h

-- `b & 0x80` on a byte
pub and_top : (b : ℕ) → b < 256 → bit_and b 0x80 ≡ b / 128 * 128
and_top b h =
    agree_below→eq (λ b. bit_and b 0x80) (λ b. b / 128 * 128) 256 b (unfold agree_below in refl) h
