-- ===== src/Codec/Packed.antt =====
-- Numbers and byte strings that are written are read back.
use graffiti_protocol.Base.{
  ℕ, zero, suc, ◌*◌, ◌/◌, ◌^◌, ◌<◌, ◌≡◌, refl, sym, arith, true, ◌++◌, some, length, take, drop,
  length-append,
}
use mathlib.Core.List.{append_assoc}
use native.Mathlib.Nat.{pow-suc}
use graffiti_protocol.Script.{Bytes}
use graffiti_protocol.Script.RoundTrip.{take-append, drop-append}
use graffiti_protocol.Codec.Pack.{little_endian, fits, from_little_endian, read_bytes, read_number}

pub length-little_endian : (w n : ℕ) → length (little_endian w n) ≡ w
unfolding little_endian
length-little_endian zero n = refl
length-little_endian (suc w) n = omega (arith, length-little_endian w (n / 256))

from_little_endian-little_endian :
    (w n : ℕ) → n < 256 ^ w → from_little_endian (little_endian w n) ≡ n
unfolding little_endian from_little_endian
from_little_endian-little_endian zero n h = omega arith
from_little_endian-little_endian (suc w) n h =
    let small : n < 256 ^ w * 256 = rw (pow-suc 256 w) at h in
    omega (arith, from_little_endian-little_endian w (n / 256) (omega (arith, small)))

-- A known number of bytes, before others.
pub read_bytes-append :
    (b c rest : Bytes) (w : ℕ)
    → length b ≡ w
    → read_bytes w ((b ++ c) ++ rest) ≡ some (b, c ++ rest)
unfolding read_bytes
read_bytes-append b c rest w e =
    rw (append_assoc b c rest, sym e)
      (ground
        (arith, take-append b (c ++ rest), drop-append b (c ++ rest), length-append b (c ++ rest)))

pub read_number-append :
    (w n : ℕ) (c rest : Bytes)
    → fits w n ≡ true
    → read_number w ((little_endian w n ++ c) ++ rest) ≡ some (n, c ++ rest)
unfolding read_number fits
read_number-append w n c rest h =
    let there = read_bytes-append (little_endian w n) c rest w (length-little_endian w n) in
    let value : from_little_endian (little_endian w n) ≡ n =
      from_little_endian-little_endian w n (ground arith) in
    rw (there, read_number, value) refl

-- The slice of a part before others.
pub take_part : (b c rest : Bytes) → take (length b) ((b ++ c) ++ rest) ≡ b
take_part b c rest = rw (append_assoc b c rest) (take-append b (c ++ rest))

pub drop_part : (b c rest : Bytes) → drop (length b) ((b ++ c) ++ rest) ≡ c ++ rest
drop_part b c rest = rw (append_assoc b c rest) (drop-append b (c ++ rest))
