-- ===== src/Hexlify.antt =====
-- src/hexlify.c, `appimage_hexlify`: bytes as a string of hexadecimal digits.
pub mod Laws
mod Tests
use appimagetool.Base.{
  ℕ, zero, suc, ◌+◌, ◌-◌, ◌/◌, ◌%◌, Option, some, [], ◌∷◌, ◌++◌, ltb, if◌then◌else◌, get_elem?,
  Bytes, ◌>>=◌,
}

-- One digit of `%02x`.
unfoldable pub hex_digit : ℕ → ℕ
hex_digit d = if ltb d 10 then b'0' + d else b'a' + (d - 10)

-- What `sprintf(buffer, "%02x", …)` writes for a byte.
unfoldable pub hex_pair : ℕ → Bytes
unfolding hex_digit
hex_pair b = hex_digit (b / 16) ∷ hex_digit (b % 16) ∷ []

-- The loop from index `i` with `left` rounds left. The digits so far hold no null, so `strcat`
-- appends behind them. A read behind the bytes is a fault.
unfoldable pub hexlify_loop : Bytes → ℕ → ℕ → Bytes → Option Bytes
unfolding hex_pair
hexlify_loop bytes zero i hexlified = some hexlified
hexlify_loop bytes (suc left) i hexlified = do
  b ← get_elem? bytes i
  hexlify_loop bytes left (i + 1) (hexlified ++ hex_pair b)

unfoldable pub hexlify : Bytes → ℕ → Option Bytes
unfolding hexlify_loop
hexlify bytes num_bytes = hexlify_loop bytes num_bytes 0 []
