-- ===== src/Util/Words.antt =====
-- Signed machine words on their bit patterns, as the language defines them.
use rusty_fusion.Prelude.{Bool, if◌then◌else◌, ltb, ℕ, ◌%◌, ◌&&◌, ◌+◌, ◌-◌, ◌^◌}

-- The order of signed words of `w` bits on their bit patterns.
unfoldable pub signed_lt : ℕ → ℕ → ℕ → Bool
signed_lt w a b = ltb ((a + 2 ^ (w - 1)) % 2 ^ w) ((b + 2 ^ (w - 1)) % 2 ^ w)

-- `value as u64`, or `as usize`, of an `i32` extends the sign.
unfoldable pub sign_extended : ℕ → ℕ
sign_extended n = if ltb n (2 ^ 31) then n else n + (2 ^ 64 - 2 ^ 32)

-- `value > 0` of an `i32`.
unfoldable pub is_positive : ℕ → Bool
is_positive n = ltb 0 n && ltb n (2 ^ 31)
