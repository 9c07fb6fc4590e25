-- ===== src/Cvd/Powers.antt =====
-- src/clamdb/cvd.rs: what `modpow` computes.
use native.Mathlib.Nat.{pow-zero, pow-suc, mod-add-div, add-mul-mod_self_left}
use blackshard.Prelude.{
  ℕ, zero, suc, ◌+◌, ◌*◌, ◌/◌, ◌%◌, ◌^◌, ◌<◌, ◌≡◌, sym, ap, ◌∙◌, inl, inr, ◌==◌, arith, Bool-cases,
}
use blackshard.Cvd.{modpow}

mul_mod_left : (a b m : ℕ) → (a % m) * b % m ≡ a * b % m
mul_mod_left a b m =
    let e : a * b ≡ (a % m) * b + m * (a / m * b) =
      ap (λ x. x * b) (sym (mod-add-div a m)) ∙ grind arith in
    sym (ap (λ x. x % m) e ∙ add-mul-mod_self_left ((a % m) * b) m (a / m * b))

mul_mod_right : (a b m : ℕ) → b * (a % m) % m ≡ b * a % m
mul_mod_right a b m =
    ap (λ x. x % m) (grind arith) ∙ mul_mod_left a b m ∙ ap (λ x. x % m) (grind arith)

pow_mod : (a m n : ℕ) → (a % m) ^ n % m ≡ a ^ n % m
pow_mod a m zero = ap (λ x. x % m) (pow-zero (a % m) ∙ sym (pow-zero a))
pow_mod a m (suc n) =
    ap (λ x. x % m) (pow-suc (a % m) n)
    ∙ mul_mod_right a ((a % m) ^ n) m
    ∙ sym (mul_mod_left ((a % m) ^ n) a m)
    ∙ ap (λ x. x * a % m) (pow_mod a m n)
    ∙ mul_mod_left (a ^ n) a m
    ∙ ap (λ x. x % m) (sym (pow-suc a n))

square_pow : (b n : ℕ) → (b * b) ^ n ≡ b ^ (2 * n)
square_pow b zero = pow-zero (b * b) ∙ sym (pow-zero b)
square_pow b (suc n) =
    let twice : 2 * suc n ≡ suc (suc (2 * n)) = omega arith in
    pow-suc (b * b) n
    ∙ ap (λ x. x * (b * b)) (square_pow b n)
    ∙ grind arith
    ∙ sym (ap (λ x. x * b) (pow-suc b (2 * n)))
    ∙ sym (pow-suc b (suc (2 * n)))
    ∙ ap (λ x. b ^ x) (sym twice)

-- The power, when the fuel has the bits of the exponent.
pub modpow-power :
    (bits base exponent modulus : ℕ)
    → exponent < 2 ^ bits
    → modpow bits base exponent modulus ≡ base ^ exponent % modulus
unfolding modpow
modpow-power zero base exponent modulus h =
    let z : exponent ≡ 0 = omega arith in
    ap (λ x. x % modulus) (sym (ap (λ e. base ^ e) z ∙ pow-zero base))
modpow-power (suc bits) base exponent modulus h =
    let k = exponent / 2 in
    let half : modpow bits (base * base % modulus) k modulus ≡ base ^ (2 * k) % modulus =
      modpow-power bits (base * base % modulus) k modulus (omega arith)
      ∙ pow_mod (base * base) modulus k
      ∙ ap (λ x. x % modulus) (square_pow base k) in
    elim (Bool-cases (exponent % 2 == 1)) [
      | inl odd ↦
          let e : suc (2 * k) ≡ exponent = ground arith in
          rw odd (
            ap (λ x. base * x % modulus) half
            ∙ mul_mod_right (base ^ (2 * k)) base modulus
            ∙ ap (λ x. x % modulus) (grind arith)
            ∙ ap (λ x. x % modulus) (sym (pow-suc base (2 * k)))
            ∙ ap (λ x. base ^ x % modulus) e)
      | inr even ↦
          let e : 2 * k ≡ exponent = ground arith in rw even (half ∙ ap (λ x. base ^ x % modulus) e)
    ]
