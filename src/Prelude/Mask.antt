-- ===== src/Prelude/Mask.antt =====
-- `&` with a mask of low bits, as a remainder.
use Prim.Native.Nat.{digits, bit_and, bit_and-bitwise}
use native.Mathlib.Nat.{
  pow-suc, one-le-pow, div-add-mod, mod-lt, add-mul-mod_self_left, mod-eq_of_lt, zero-mod,
  mul_assoc,
}
use learn_go.Prelude.{
  ℕ, zero, suc, ◌+◌, ◌-◌, ◌*◌, ◌/◌, ◌%◌, ◌^◌, ◌≤◌, ◌<◌, ◌≡◌, ap, ◌∙◌, sym, min, arith,
}

double_mod : (a m : ℕ) → 0 < m → a / 2 % m * 2 + a % 2 ≡ a % (2 * m)
double_mod a m h =
    let half = div-add-mod (a / 2) m in
    let low = mod-lt (a / 2) h in
    let apart = mul_assoc 2 m (a / 2 / m) in
    let split : a ≡ a / 2 % m * 2 + a % 2 + 2 * m * (a / 2 / m) = omega arith in
    let dropped = add-mul-mod_self_left (a / 2 % m * 2 + a % 2) (2 * m) (a / 2 / m) in
    sym (ap (λ (x : ℕ). x % (2 * m)) split ∙ dropped ∙ mod-eq_of_lt (omega arith))

digits-mask : (n k a : ℕ) → a ≤ n → digits (λ b. 0) min n a (2 ^ k - 1) ≡ a % 2 ^ k
digits-mask zero k zero h = sym (zero-mod (2 ^ k))
digits-mask zero k (suc a) h = absurd (omega arith)
digits-mask (suc n) k zero h = sym (zero-mod (2 ^ k))
digits-mask (suc n) zero (suc a) h = omega (arith, digits-mask n 0 (suc a / 2) (omega arith))
digits-mask (suc n) (suc k) (suc a) h =
    let pos = one-le-pow k 2 (omega arith) in
    let width = pow-suc 2 k in
    let rest : (2 ^ suc k - 1) / 2 ≡ 2 ^ k - 1 = omega arith in
    let odd : (2 ^ suc k - 1) % 2 ≡ 1 = omega arith in
    let twice : 2 ^ suc k ≡ 2 * 2 ^ k = omega arith in
    rw
      (
        rest,
        odd,
        digits-mask n k (suc a / 2) (omega arith),
        twice,
        sym (double_mod (suc a) (2 ^ k) pos),
      )
      (omega arith)

pub bit_and-mask : (a k : ℕ) → bit_and a (2 ^ k - 1) ≡ a % 2 ^ k
bit_and-mask a k = bit_and-bitwise a (2 ^ k - 1) ∙ digits-mask a k a (omega arith)
