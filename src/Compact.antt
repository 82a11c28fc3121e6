-- ===== src/Compact.antt =====
-- Compact difficulty bits and targets: the functions from `bits_to_target` to
-- `difficulty_to_target` of src/tsarchain/utils/helpers.py.
-- The shifts are products and quotients by powers of two, and the masks are remainders and
-- quotients, `x & 0x007fffff` being `x % 2 ^ 23`.
use graffiti_protocol.Base.{
  ℕ, zero, suc, ◌+◌, ◌-◌, ◌*◌, ◌/◌, ◌%◌, ◌^◌, max, eqb, leb, if◌then◌else◌,
}

unfoldable pub bits_to_target : ℕ → ℕ
bits_to_target bits =
    let exp = bits / 2 ^ 24 % 256 in
    let mant = bits % 2 ^ 23 in
    if leb 3 exp then mant * 2 ^ (8 * (exp - 3)) else mant / 2 ^ (8 * (3 - exp))

-- Python's `int.bit_length`, by halving on fuel; the number itself is fuel enough.
unfoldable pub bit_length_from : ℕ → ℕ → ℕ
bit_length_from zero n = 0
bit_length_from (suc fuel) n =
    let rest = bit_length_from fuel (n / 2) in if eqb n 0 then 0 else 1 + rest

abbrev pub bit_length : ℕ → ℕ
bit_length n = bit_length_from n n

-- The branch for targets of four bytes or more.
unfoldable pub large_target_to_bits : ℕ → ℕ → ℕ
large_target_to_bits target exp =
    let mant = target / 2 ^ (8 * (exp - 3)) in
    if eqb (mant / 2 ^ 23 % 2) 1
    then (exp + 1) * 2 ^ 24 + mant / 2 ^ 8 % 2 ^ 23
    else exp * 2 ^ 24 + mant % 2 ^ 23

unfoldable pub target_to_bits : ℕ → ℕ
unfolding large_target_to_bits
target_to_bits target =
    let t = if eqb target 0 then 1 else target in
    let exp = (bit_length t + 7) / 8 in
    if leb exp 3 then 3 * 2 ^ 24 + t * 2 ^ (8 * (3 - exp)) % 2 ^ 23 else large_target_to_bits t exp

unfoldable pub target_to_difficulty : ℕ → ℕ
target_to_difficulty target = 2 ^ 256 / max 1 target

unfoldable pub difficulty_to_target : ℕ → ℕ
difficulty_to_target diff = max 1 (2 ^ 256 / max 1 diff)
