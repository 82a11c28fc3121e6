-- ===== src/Codec/Pack.antt =====
-- What struct.pack and struct.unpack_from of Python do on the little-endian formats of the store:
-- unsigned integers of 1, 2, 4 and 8 bytes, and byte strings of a known length.
use graffiti_protocol.Base.{
  ℕ, zero, suc, ◌+◌, ◌*◌, ◌/◌, ◌%◌, ◌^◌, Bool, [], ◌∷◌, Option, none, some, length, take, drop, ltb,
  if◌then◌else◌,
}
use graffiti_protocol.Script.{Bytes}

-- The `w` bytes of a number.
unfoldable pub little_endian : ℕ → ℕ → Bytes
little_endian zero n = []
little_endian (suc w) n = n % 256 ∷ little_endian w (n / 256)

-- What the format holds; otherwise struct.pack raises an exception.
unfoldable pub fits : ℕ → ℕ → Bool
fits w n = ltb n (256 ^ w)

unfoldable pub from_little_endian : Bytes → ℕ
from_little_endian [] = 0
from_little_endian (b ∷ raw) = b + 256 * from_little_endian raw

-- `w` bytes and what follows; `none` where there are fewer.
unfoldable pub read_bytes : ℕ → Bytes → Option (Bytes × Bytes)
read_bytes w raw = if ltb (length raw) w then none else some (take w raw, drop w raw)

unfoldable pub read_number : ℕ → Bytes → Option (ℕ × Bytes)
unfolding read_bytes from_little_endian
read_number w raw = elim (read_bytes w raw) [
  | none ↦ none
  | some (b, rest) ↦ some (from_little_endian b, rest)
]

-- `raw[offset:offset + n]`, which may be shorter, and what follows.
abbrev pub slice : ℕ → Bytes → Bytes × Bytes
slice n raw = (take n raw, drop n raw)
