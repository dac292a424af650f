-- ===== src/Word.antt =====
-- 64-bit unsigned arithmetic: `u64` additions and `AtomicU64::fetch_add` wrap around.
use range_porter.Prelude.{ℕ, ◌+◌, ◌%◌, ◌^◌, ◌<◌, ◌≡◌, arith}
use native.Mathlib.Nat.{mod-eq_of_lt}

abbrev pub u64_mod : ℕ
u64_mod = 2 ^ 64

unfoldable pub add_u64 : ℕ → ℕ → ℕ
add_u64 a b = (a + b) % u64_mod

pub add_u64_exact : (a b : ℕ) → a + b < u64_mod → add_u64 a b ≡ a + b
unfolding add_u64
add_u64_exact a b h = mod-eq_of_lt h

pub add_u64-lt : (a b : ℕ) → add_u64 a b < u64_mod
unfolding add_u64
add_u64-lt a b = omega arith
