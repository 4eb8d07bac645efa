-- ===== src/Stream/Mux/Ids.antt =====
-- The ids that `fresh_id` hands out.
use phinet.Prelude.{ℕ, zero, suc, ◌+◌, ◌%◌, ◌<◌, ◌≡◌, ◌≢◌, refl, arith}
use phinet.Prelude.Word.{u16_mod}
use phinet.Stream.Mux.{fresh_id}

-- The counter after `n` ids were taken from a fresh multiplexer.
unfoldable pub counter_after : ℕ → ℕ
counter_after zero = 1
counter_after (suc n) = (fresh_id (counter_after n)).1

-- The `n`-th id, from 0.
abbrev pub nth_id : ℕ → ℕ
nth_id n = (fresh_id (counter_after n)).0

pub counter_after-suc : (n : ℕ) → counter_after (suc n) ≡ (n % 65535 + 2) % u16_mod
unfolding counter_after fresh_id
counter_after-suc zero = refl
counter_after-suc (suc n) = ground (arith, counter_after-suc n)

-- Ids run through 1 to 65535 and start again, so 0 is never an id.
pub nth_id_lem : (n : ℕ) → nth_id n ≡ n % 65535 + 1
unfolding fresh_id
nth_id_lem zero = unfold counter_after in refl
nth_id_lem (suc n) = ground (arith, counter_after-suc n)

pub nth_id_repeats : (n : ℕ) → nth_id (n + 65535) ≡ nth_id n
nth_id_repeats n = omega (arith, nth_id_lem n, nth_id_lem (n + 65535))

-- Ids that are fewer than 65535 opens apart differ, the 65535th after an id is that id again, and 0
-- is never one.
pub nth_id_distinct :
    (n k : ℕ)
    → 0 < k
    → k < 65535
    → (nth_id n ≢ nth_id (n + k)) × (nth_id (n + 65535) ≡ nth_id n) × (0 < nth_id n)
nth_id_distinct n k p q = (
  λ e. omega (arith, nth_id_lem n, nth_id_lem (n + k)),
  nth_id_repeats n,
  omega (arith, nth_id_lem n),
)
