-- ===== src/Url/Escape.antt =====
-- Percent-encoding every byte of a text, and decoding it again.
use lamseryn.Prelude.{ℕ, ◌+◌, ◌-◌, ◌/◌, ◌%◌, ◌<◌, [], ◌∷◌, ◌≢◌, Bytes, ltb, if◌then◌else◌}

abbrev pub hex_digit : ℕ → ℕ
hex_digit n = if ltb n 10 then b'0' + n else b'A' + (n - 10)

abbrev pub escape : Bytes → Bytes
escape [] = []
escape (c ∷ s) = b'%' ∷ hex_digit (c / 16) ∷ hex_digit (c % 16) ∷ escape s

-- The bytes that the decoder lets an escape stand for, whatever the slash policy.
abbrev pub IsPlainByte : ℕ → Type 0
IsPlainByte c = (c < 256) × (c ≢ 0) × (c ≢ b'/') × (c ≢ b'\\')
