-- ===== src/Lab31v2/Words.antt =====
-- The arithmetic of `unsigned long long` and `size_t`, which wraps.
use Prim.Native.Nat.{◌+◌, ◌-◌, ◌%◌, ◌^◌}
use operating_systems_labs.Base.{ℕ}

unfoldable pub add_word : ℕ → ℕ → ℕ
add_word a b = (a + b) % 2 ^ 64

unfoldable pub sub_word : ℕ → ℕ → ℕ
sub_word a b = (a + (2 ^ 64 - b % 2 ^ 64)) % 2 ^ 64
