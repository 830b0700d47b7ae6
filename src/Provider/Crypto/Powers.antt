-- ===== src/Provider/Crypto/Powers.antt =====
-- The arithmetic of the handshake of crates/provider/src/crypto.rs: powers up to a remainder.
use native.Mathlib.Nat.{mul_comm, pow-suc, pow-zero, mod-add-div, add-mul-mod_self_left}
use wincred_libsecret_wsl_pl.Prelude.{
  ℕ, zero, suc, ◌+◌, ◌*◌, ◌/◌, ◌%◌, ◌^◌, ◌≡◌, refl, sym, ap, ◌∙◌, arith,
}

regroup : (r q b p : ℕ) → r * b + p * (q * b) ≡ (r + p * q) * b
regroup r q b p = grind arith

interchange : (x y z w : ℕ) → x * y * (z * w) ≡ x * z * (y * w)
interchange x y z w = grind arith

-- A number and its remainder have the same products, up to a remainder.
mod-mul_left : (a b p : ℕ) → (a % p * b) % p ≡ (a * b) % p
mod-mul_left a b p =
    sym (add-mul-mod_self_left (a % p * b) p (a / p * b))
    ∙ ap (λ n. n % p) (regroup (a % p) (a / p) b p)
    ∙ ap (λ n. (n * b) % p) (mod-add-div a p)

mod-mul_right : (a b p : ℕ) → (a * (b % p)) % p ≡ (a * b) % p
mod-mul_right a b p =
    ap (λ n. n % p) (mul_comm a (b % p)) ∙ mod-mul_left b a p ∙ ap (λ n. n % p) (mul_comm b a)

pow-mod : (a n p : ℕ) → (a % p) ^ n % p ≡ a ^ n % p
pow-mod a zero p = ap (λ k. k % p) (pow-zero (a % p) ∙ sym (pow-zero a))
pow-mod a (suc n) p =
    ap (λ k. k % p) (pow-suc (a % p) n)
    ∙ sym (mod-mul_left ((a % p) ^ n) (a % p) p)
    ∙ ap (λ k. (k * (a % p)) % p) (pow-mod a n p)
    ∙ mod-mul_left (a ^ n) (a % p) p
    ∙ mod-mul_right (a ^ n) a p
    ∙ ap (λ k. k % p) (sym (pow-suc a n))

pow-mul : (x y n : ℕ) → (x * y) ^ n ≡ x ^ n * y ^ n
pow-mul x y zero =
    pow-zero (x * y) ∙ ap (λ k. k * 1) (sym (pow-zero x)) ∙ ap (λ k. x ^ 0 * k) (sym (pow-zero y))
pow-mul x y (suc n) =
    pow-suc (x * y) n
    ∙ ap (λ k. k * (x * y)) (pow-mul x y n)
    ∙ interchange (x ^ n) (y ^ n) x y
    ∙ ap (λ k. k * (y ^ n * y)) (sym (pow-suc x n))
    ∙ ap (λ k. x ^ suc n * k) (sym (pow-suc y n))

one-pow : (n : ℕ) → 1 ^ n ≡ 1
one-pow zero = refl
one-pow (suc n) = pow-suc 1 n ∙ ap (λ k. k * 1) (one-pow n)

pow_comm : (g a b : ℕ) → (g ^ a) ^ b ≡ (g ^ b) ^ a
pow_comm g a zero = pow-zero (g ^ a) ∙ sym (one-pow a) ∙ ap (λ k. k ^ a) (sym (pow-zero g))
pow_comm g a (suc b) =
    pow-suc (g ^ a) b
    ∙ ap (λ k. k * g ^ a) (pow_comm g a b)
    ∙ sym (pow-mul (g ^ b) g a)
    ∙ ap (λ k. k ^ a) (sym (pow-suc g b))

-- What the two sides compute of the other's public number is the same.
pub shared_comm : (g a b p : ℕ) → (g ^ a % p) ^ b % p ≡ (g ^ b % p) ^ a % p
shared_comm g a b p =
    pow-mod (g ^ a) b p ∙ ap (λ k. k % p) (pow_comm g a b) ∙ sym (pow-mod (g ^ b) a p)
