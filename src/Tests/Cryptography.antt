-- ===== src/Tests/Cryptography.antt =====
-- Keys of two parties with the private numbers 3 and 5.
use leaky_chat.Prelude.{ℕ, ◌%◌, ◌^◌, ◌≡◌, refl, arith, true, false, some, replicate}
use leaky_chat.Crypto.{DhKeyExchange, CryptoSession, prime, generator, mod_exp, mod_exp_loop}
use leaky_chat.Crypto.Powers.{mod_exp_lem}
use leaky_chat.Crypto.Agreement.{IsFresh}
use leaky_chat.Tests.Samples.{toy}

abbrev pub keys : ℕ → DhKeyExchange
keys n = record { private_key = n; public_key = generator ^ n % prime }

abbrev pub fresh : ℕ → CryptoSession
fresh n = record { dh = keys n; key = replicate 32 0; established = false }

abbrev pub keyed : ℕ → CryptoSession
keyed n = record { dh = keys n; key = replicate 32 7; established = true }

pub fresh-IsFresh : (n : ℕ) → IsFresh toy (fresh n)
fresh-IsFresh n = record { pair = refl; idle = refl }

mod_exp_small : mod_exp toy 3 5 7 ≡ some 5
unfolding mod_exp mod_exp_loop
mod_exp_small = refl

mod_exp_lem_example : mod_exp toy 3 5 7 ≡ some (3 ^ 5 % 7)
mod_exp_lem_example = mod_exp_lem toy 3 5 7 (omega arith)
