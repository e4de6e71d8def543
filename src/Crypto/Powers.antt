-- ===== src/Crypto/Powers.antt =====
-- DHKeyExchange::modExp computes a power, and powers of powers commute.
use native.Mathlib.Nat.{
  pow-suc, pow-zero, add-mul-mod_self_right, div-add-mod, mod-eq_of_lt, mul_comm, mul_assoc,
  mod-mod, mul-one, one-mul, mul-zero, mul-suc, add-zero,
}
use leaky_chat.Prelude.{
  ℕ, zero, suc, ◌+◌, ◌*◌, ◌/◌, ◌%◌, ◌^◌, ◌<◌, ◌≡◌, refl, sym, ap, ◌∙◌, arith, false, some, ◌==◌,
  Bool-cases, inl, inr,
}
use leaky_chat.Crypto.{Ssl, mod_exp_loop, mod_exp}

mul_mod_left : (a b m : ℕ) → a % m * b % m ≡ a * b % m
mul_mod_left a b m =
    sym (add-mul-mod_self_right (a % m * b) (a / m * b) m)
    ∙ ap (λ k. k % m) (omega (arith, ap (λ (k : ℕ). k * b) (div-add-mod a m)))

mul_mod : (a b c d m : ℕ) → a % m ≡ c % m → b % m ≡ d % m → a * b % m ≡ c * d % m
mul_mod a b c d m p q =
    sym (mul_mod_left a b m)
    ∙ ap (λ k. k * b % m) p
    ∙ mul_mod_left c b m
    ∙ ap (λ k. k % m) (mul_comm c b)
    ∙ sym (mul_mod_left b c m)
    ∙ ap (λ k. k * c % m) q
    ∙ mul_mod_left d c m
    ∙ ap (λ k. k % m) (mul_comm d c)

pow_mod : (a m n : ℕ) → (a % m) ^ n % m ≡ a ^ n % m
pow_mod a m zero = rw (pow-zero (a % m), pow-zero a)
pow_mod a m (suc n) =
    rw (pow-suc (a % m) n, pow-suc a n)
      (mul_mod ((a % m) ^ n) (a % m) (a ^ n) a m (pow_mod a m n) (mod-mod a m))

pow_mul_self : (b k : ℕ) → (b * b) ^ k ≡ b ^ (k + k)
pow_mul_self b zero = rw (pow-zero (b * b), pow-zero b)
pow_mul_self b (suc k) =
    let e : suc k + suc k ≡ suc (suc (k + k)) = omega arith in
    rw (e, pow-suc (b * b) k, pow-suc b (suc (k + k)), pow-suc b (k + k), pow_mul_self b k)
      (sym (mul_assoc (b ^ (k + k)) b b))

-- One round: `h` is half of the exponent `e`, and `r` the result before it.
square_step : (r b m h : ℕ) → r * (b * b % m) ^ h % m ≡ r * b ^ (h + h) % m
square_step r b m h = rw (← pow_mul_self b h) (mul_mod r _ r _ m refl (pow_mod (b * b) m h))

odd_step : (r b m h : ℕ) → r * b % m * b ^ (h + h) % m ≡ r * b ^ suc (h + h) % m
odd_step r b m h =
    mul_mod_left (r * b) (b ^ (h + h)) m
    ∙ ap (λ k. k % m)
        (mul_assoc r b (b ^ (h + h))
          ∙ ap (λ k. r * k) (mul_comm b (b ^ (h + h)) ∙ sym (pow-suc b (h + h))))

pow_add : (a x y : ℕ) → a ^ (x + y) ≡ a ^ x * a ^ y
pow_add a x zero = rw (add-zero x, pow-zero a, mul-one (a ^ x))
pow_add a x (suc y) =
    let e : x + suc y ≡ suc (x + y) = omega arith in
    rw (e, pow-suc a (x + y), pow-suc a y, pow_add a x y) (mul_assoc (a ^ x) (a ^ y) a)

module _ (ssl : Ssl) where
  loop_power :
      (fuel r b e m : ℕ) → r < m → e < fuel → mod_exp_loop ssl fuel r b e m ≡ some (r * b ^ e % m)
  unfolding mod_exp_loop
  loop_power zero r b e m hr he = absurd (omega arith)
  loop_power (suc fuel) r b zero m hr he =
      rw (ssl.bn_is_zero_lem 0, pow-zero b, mul-one r) (ap some (sym (mod-eq_of_lt hr)))
  loop_power (suc fuel) r b (suc e) m hr he =
      let h : ℕ = suc e / 2 in
      let z : (suc e == 0) ≡ false = ground arith in
      elim (Bool-cases (suc e % 2 == 1)) [
        | inl o ↦
            let k : h + h ≡ e = ground arith in
            rw
              (
                ssl.bn_is_zero_lem (suc e),
                z,
                ssl.bn_is_odd_lem (suc e),
                o,
                ssl.bn_rshift1_lem (suc e),
                ssl.bn_mod_mul_lem r b m,
                ssl.bn_mod_mul_lem b b m,
              )
              (loop_power fuel (r * b % m) (b * b % m) h m (omega arith) (omega arith)
                ∙ ap some (
                    square_step (r * b % m) b m h
                    ∙ odd_step r b m h
                    ∙ ap (λ x. r * b ^ suc x % m) k))
        | inr o ↦
            let k : h + h ≡ suc e = ground arith in
            rw
              (
                ssl.bn_is_zero_lem (suc e),
                z,
                ssl.bn_is_odd_lem (suc e),
                o,
                ssl.bn_rshift1_lem (suc e),
                ssl.bn_mod_mul_lem b b m,
              )
              (loop_power fuel r (b * b % m) h m hr (omega arith)
                ∙ ap some (square_step r b m h ∙ ap (λ x. r * b ^ x % m) k))
      ]

  -- `modExp` ends, for every exponent, with `base ^ exponent` modulo a modulus above 1.
  pub mod_exp_lem : (base e m : ℕ) → 1 < m → mod_exp ssl base e m ≡ some (base ^ e % m)
  unfolding mod_exp
  mod_exp_lem base e m h = rw (ssl.bn_mod_lem base m) (
      loop_power (suc e) 1 (base % m) e m h (omega arith)
      ∙ ap some (ap (λ k. k % m) (one-mul ((base % m) ^ e)) ∙ pow_mod base m e))

pow_mul : (a x y : ℕ) → (a ^ x) ^ y ≡ a ^ (x * y)
pow_mul a x zero = rw (pow-zero (a ^ x), mul-zero x, pow-zero a)
pow_mul a x (suc y) = rw (pow-suc (a ^ x) y, pow_mul a x y, mul-suc x y) (sym (pow_add a (x * y) x))

-- Raising to two exponents in turn does not depend on their order, also modulo `m`.
pub pow_comm_mod : (a x y m : ℕ) → (a ^ x % m) ^ y % m ≡ (a ^ y % m) ^ x % m
pow_comm_mod a x y m =
    pow_mod (a ^ x) m y
    ∙ ap (λ k. k % m) (pow_mul a x y ∙ ap (λ k. a ^ k) (mul_comm x y) ∙ sym (pow_mul a y x))
    ∙ sym (pow_mod (a ^ y) m x)
