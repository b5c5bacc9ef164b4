-- ===== src/Prelude/Bits.antt =====
-- Exclusive or and conjunction of machine words, digit by digit on a fixed width.
use Prim.Native.Nat.{ℕ, zero, suc, ◌+◌, ◌-◌, ◌*◌, ◌/◌, ◌%◌, ◌^◌, ◌≤◌, ◌<◌}
use mathlib.Core.Path.{◌≡◌, refl, sym, ap, ◌∙◌}
use native.Mathlib.Nat.{
  pow-suc, one-le-pow, mod-one, mod-eq_of_lt, mod-lt, div-add-mod', mul-add-mod_self_right,
}
use native.Mathlib.Omega.{arith}

-- The lowest `w` digits of `a ^ b` and of `a & b`.
unfoldable pub xor_low : (w a b : ℕ) → ℕ
xor_low zero a b = 0
xor_low (suc w) a b = 2 * xor_low w (a / 2) (b / 2) + (a + b) % 2

unfoldable pub and_low : (w a b : ℕ) → ℕ
and_low zero a b = 0
and_low (suc w) a b = 2 * and_low w (a / 2) (b / 2) + (a % 2) * (b % 2)

pub xor_low-lt : (w a b : ℕ) → xor_low w a b < 2 ^ w
unfolding xor_low
xor_low-lt zero a b = omega arith
xor_low-lt (suc w) a b = omega (arith, pow-suc 2 w, xor_low-lt w (a / 2) (b / 2))

halves : (k x : ℕ) → x % 2 ^ suc k ≡ 2 * (x / 2 % 2 ^ k) + x % 2
halves k x =
    let q = x / 2 / 2 ^ k in
    let r = 2 * (x / 2 % 2 ^ k) + x % 2 in
    let whole : x ≡ q * 2 ^ suc k + r =
      omega (arith, ap (λ (t : ℕ). q * t) (pow-suc 2 k), div-add-mod' (x / 2) (2 ^ k)) in
    ap (λ t. t % 2 ^ suc k) whole
    ∙ mul-add-mod_self_right q (2 ^ suc k) r
    ∙ mod-eq_of_lt (omega (arith, pow-suc 2 k, mod-lt (x / 2) (one-le-pow k 2 (omega arith))))

-- A shorter width gives the remainder.
pub xor_low-mod : (k w a b : ℕ) → k ≤ w → xor_low w a b % 2 ^ k ≡ xor_low k a b
unfolding xor_low
xor_low-mod zero w a b h = omega arith
xor_low-mod (suc k) zero a b h = absurd (omega arith)
xor_low-mod (suc k) (suc w) a b h =
    let low = 2 * xor_low w (a / 2) (b / 2) + (a + b) % 2 in
    let half : low / 2 ≡ xor_low w (a / 2) (b / 2) = omega arith in
    omega
      (arith, halves k low, ap (λ x. x % 2 ^ k) half, xor_low-mod k w (a / 2) (b / 2) (omega arith))

-- Digits above the width do not count.
pub xor_low-cut : (w a b : ℕ) → xor_low w (a % 2 ^ w) b ≡ xor_low w a b
unfolding xor_low
xor_low-cut zero a b = refl
xor_low-cut (suc w) a b =
    let half : a % 2 ^ suc w / 2 ≡ a / 2 % 2 ^ w = omega (arith, halves w a) in
    omega (arith, halves w a, ap (λ x. xor_low w x (b / 2)) half, xor_low-cut w (a / 2) (b / 2))

-- Exclusive or with the same word twice gives back the first.
pub xor_low_cancel : (w a b : ℕ) → xor_low w (xor_low w a b) b ≡ a % 2 ^ w
unfolding xor_low
xor_low_cancel zero a b = omega arith
xor_low_cancel (suc w) a b =
    let rest = xor_low w (a / 2) (b / 2) in
    let half : (2 * rest + (a + b) % 2) / 2 ≡ rest = omega arith in
    omega (arith, halves w a, ap (λ x. xor_low w x (b / 2)) half, xor_low_cancel w (a / 2) (b / 2))

pub and_low-zero : (w a : ℕ) → and_low w a 0 ≡ 0
unfolding and_low
and_low-zero zero a = refl
and_low-zero (suc w) a = omega (arith, and_low-zero w (a / 2))

-- A mask of `k` low digits is the remainder by `2 ^ k`.
pub and_low-mask : (k w a : ℕ) → k ≤ w → and_low w a (2 ^ k - 1) ≡ a % 2 ^ k
unfolding and_low
and_low-mask zero w a h = and_low-zero w a ∙ sym (mod-one a)
and_low-mask (suc k) zero a h = absurd (omega arith)
and_low-mask (suc k) (suc w) a h =
    let p = one-le-pow k 2 (omega arith) in
    let half : (2 ^ suc k - 1) / 2 ≡ 2 ^ k - 1 = omega (arith, p, pow-suc 2 k) in
    let odd : (2 ^ suc k - 1) % 2 ≡ 1 = omega (arith, p, pow-suc 2 k) in
    omega (
      arith,
      halves k a,
      ap (λ x. and_low w (a / 2) x) half,
      ap (λ x. (a % 2) * x) odd,
      and_low-mask k w (a / 2) (omega arith),
    )
