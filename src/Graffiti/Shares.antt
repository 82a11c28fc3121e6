-- ===== src/Graffiti/Shares.antt =====
-- The shares of a comment add up, and a challenge asks for bytes that the file has.
use graffiti_protocol.Base.{
  eqb, false, ℕ, zero, suc, ◌+◌, ◌-◌, ◌*◌, ◌%◌, ◌≤◌, ◌<◌, ◌≡◌, refl, arith, max, min, Option, none,
  some, ℤ, to_nonneg,
}
use native.Mathlib.Nat.{mod-lt, mul-mod_left, le-div_iff_mul-le}
use graffiti_protocol.Graffiti.Fees.{
  compute_proof_epoch, ceil_div, Challenge, calc_proof_challenge, calc_comment_split,
  calc_upload_fee_sats, min_billable_size, upload_fee_per_chunk,
}

-- The shares of creator, storage and miner add up to the amount, whatever the rounding; the creator
-- has at most eight tenths of it and the storage at most one, and the tip goes to the creator whole.
calc_comment_split_total :
    (amt : ℕ) (tip : ℤ)
    → let s = calc_comment_split amt tip in
      (s.creator_base + s.storage + s.miner ≡ amt)
      × (10 * s.creator_base ≤ 8 * amt)
      × (10 * s.storage ≤ amt)
      × (s.creator_total ≡ s.creator_base + to_nonneg tip)
unfolding calc_comment_split
calc_comment_split_total amt tip = (omega arith, omega arith, omega arith, omega arith)

-- A number below the rounded-up quotient, times the divisor, is below the dividend.
ceil_div_lem : (idx n m : ℕ) → 0 < m → 0 < n → idx < max 1 (ceil_div n m) → idx * m < n
ceil_div_lem zero n m p q h = omega arith
ceil_div_lem (suc idx) n m p q h =
    let many : suc (suc idx) ≤ ceil_div n m = omega arith in
    let enough : suc (suc idx) * m ≤ n + (m - 1) = (le-div_iff_mul-le p).0 many in
    omega (arith, enough)

-- No challenge for an empty file; otherwise bytes of the file, from the start of a chunk on.
abbrev IsInFile : ℕ → ℤ → ℕ → Option Challenge → Type 0
IsInFile file_size height chunk_bytes none = file_size ≡ 0
IsInFile file_size height chunk_bytes (some c) =
    (0 < c.size)
    × (c.size ≤ max 1 chunk_bytes)
    × (c.offset + c.size ≤ file_size)
    × (c.offset % max 1 chunk_bytes ≡ 0)
    × (c.epoch ≡ compute_proof_epoch height)

-- A challenge for a file that is not empty asks for at least one byte and at most a chunk, all of
-- them in the file, starting at a whole number of chunks, at the epoch of the height, whatever the
-- seed; there is none for an empty file.
calc_proof_challenge-range :
    (seed : ℕ → ℕ) (file_size : ℕ) (height : ℤ) (chunk_bytes : ℕ)
    → IsInFile file_size height chunk_bytes (calc_proof_challenge seed file_size height chunk_bytes)
unfolding calc_proof_challenge
calc_proof_challenge-range seed zero height chunk_bytes = refl
calc_proof_challenge-range seed (suc n) height chunk_bytes =
    let m = max 1 chunk_bytes in
    let total = max 1 (ceil_div (suc n) m) in
    let idx = seed (compute_proof_epoch height) % total in
    let below : idx < total = mod-lt (seed (compute_proof_epoch height)) (omega arith) in
    let inside : idx * m < suc n = ceil_div_lem idx (suc n) m (omega arith) (omega arith) below in
    let not_empty : eqb (suc n) 0 ≡ false = ground arith in
    let not_none : eqb (min m (suc n - idx * m)) 0 ≡ false = ground (arith, inside) in
    rw (not_empty, not_none)
      (omega (arith, inside), omega arith, omega (arith, inside), mul-mod_left idx m, refl)

-- The fee pays 0.8 TSAR for each chunk that the file reaches into, and one chunk at least; so it
-- never falls when the file grows.
calc_upload_fee_sats-ceil :
    (n m : ℕ)
    → n ≤ m
    → (min_billable_size * calc_upload_fee_sats n ≤ upload_fee_per_chunk * (n + min_billable_size))
      × (upload_fee_per_chunk * n ≤ min_billable_size * calc_upload_fee_sats n)
      × (upload_fee_per_chunk ≤ calc_upload_fee_sats n)
      × (calc_upload_fee_sats n ≤ calc_upload_fee_sats m)
unfolding calc_upload_fee_sats
calc_upload_fee_sats-ceil n m h = (omega arith, omega arith, omega arith, omega arith)
