-- ===== src/Base/Usize.antt =====
-- Rust's `usize` on a 64-bit machine: the sums that saturate, and the sums of a release build,
-- which wrap around.
use cld_gateway.Base.{ℕ, ◌+◌, ◌-◌, ◌%◌, ◌^◌, List, [], ◌∷◌, min}

abbrev pub usize_max : ℕ
usize_max = 2 ^ 64 - 1

abbrev pub saturating_add : ℕ → ℕ → ℕ
saturating_add a b = min (a + b) usize_max

abbrev pub wrapping_add : ℕ → ℕ → ℕ
wrapping_add a b = (a + b) % 2 ^ 64

-- `Iterator::sum::<usize>`.
unfoldable pub wrapping_sum : List ℕ → ℕ
wrapping_sum [] = 0
wrapping_sum (n ∷ ns) = wrapping_add n (wrapping_sum ns)
