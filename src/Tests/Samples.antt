-- ===== src/Tests/Samples.antt =====
-- An instance of `Ssl` that satisfies its laws and hides nothing, and an allocator that grants all.
use leaky_chat.Prelude.{
  ℕ, ◌*◌, ◌/◌, ◌%◌, ◌^◌, ◌≡◌, refl, arith, true, Option, none, some, List, replicate, if◌then◌else◌,
  ◌==◌, ltb, Bool-cases, inl, inr,
}
use leaky_chat.Buffer.Codec.{Limits, le_bytes, from_le}
use leaky_chat.Buffer.Encoding.{from_le-le_bytes, length-le_bytes}
use leaky_chat.Crypto.{Ssl}
use leaky_chat.Crypto.Agreement.{Digests}

abbrev pub granting : Limits
granting = record { text = λ n. true; bytes = λ n. true; texts = λ n. true }

abbrev pub to_bytes : ℕ → ℕ → Option (List ℕ)
to_bytes a k = if ltb a (256 ^ k) then some (le_bytes k a) else none

pub to_bytes-from_le : (a k : ℕ) (xs : List ℕ) → to_bytes a k ≡ some xs → from_le xs ≡ a
to_bytes-from_le a k xs h = elim (Bool-cases (ltb a (256 ^ k))) [
  | inl e ↦
      let same : le_bytes k a ≡ xs = ground arith in
      rw (← same) (from_le-le_bytes k a (ground arith))
  | inr e ↦ absurd (ground arith)
]

abbrev pub toy : Ssl
toy = record {
  bn_mod = λ a m. a % m;
  bn_mod_mul = λ a b m. a * b % m;
  bn_rshift1 = λ a. a / 2;
  bn_is_odd = λ a. a % 2 == 1;
  bn_is_zero = λ a. a == 0;
  bin2bn = from_le;
  bn2binpad = to_bytes;
  sha256 = λ xs. some (replicate 32 7);
  gcm_seal = λ key nonce text. some (text, replicate 16 0);
  gcm_open = λ key nonce cipher tag. some cipher;
  bn_mod_lem = λ a m. refl;
  bn_mod_mul_lem = λ a b m. refl;
  bn_rshift1_lem = λ a. refl;
  bn_is_odd_lem = λ a. refl;
  bn_is_zero_lem = λ a. refl;
  bn2binpad_fits = λ a k h. (le_bytes k a, ground arith, length-le_bytes k a);
  bin2bn-bn2binpad = to_bytes-from_le;
  gcm_seal_shape = λ key nonce text cipher tag h.
      let e : text ≡ cipher = ground arith in
      let f : replicate 16 0 ≡ tag = ground arith in rw (← e, ← f) (refl, refl);
  gcm_open-gcm_seal = λ key nonce text cipher tag h. ground arith;
}

pub toy-Digests : Digests toy
toy-Digests = λ xs. (replicate 32 7, refl, refl)
