-- ===== src/Graffiti/Fees.antt =====
-- Epochs, challenges, shares and fees of src/tsarchain/contracts/graffiti.py. The quotients that the
-- source rounds up are of floats; they are exact here, as they are there below 2 ^ 53.
use graffiti_protocol.Base.{
  ℕ, ◌+◌, ◌-◌, ◌*◌, ◌/◌, ◌%◌, min, max, Option, none, some, eqb, if◌then◌else◌, ℤ, pos, negsuc,
  to_nonneg,
}
use graffiti_protocol.Config.{tsar}

abbrev proof_epoch_blocks : ℕ
proof_epoch_blocks = 15

abbrev proof_chunk_bytes : ℕ
proof_chunk_bytes = 102400

abbrev comment_bp_denom : ℕ
comment_bp_denom = 10000

abbrev comment_creator_bp : ℕ
comment_creator_bp = 8000

abbrev comment_storage_bp : ℕ
comment_storage_bp = 1000

abbrev pub comment_min_fee : ℕ
comment_min_fee = tsar

abbrev pub min_billable_size : ℕ
min_billable_size = 1048576

abbrev pub upload_fee_per_chunk : ℕ
upload_fee_per_chunk = 80000000

-- `max(0, h // blocks)`; a negative height gives a negative quotient, and so 0.
unfoldable pub compute_proof_epoch : ℤ → ℕ
compute_proof_epoch (pos h) = h / proof_epoch_blocks
compute_proof_epoch (negsuc h) = 0

-- `math.ceil(a / b)` for a positive `b`
abbrev pub ceil_div : ℕ → ℕ → ℕ
ceil_div a b = (a + (b - 1)) / b

pub record Challenge : Type 0 where
  pub epoch : ℕ
  pub offset : ℕ
  pub size : ℕ

-- `seed` is the number that the first eight bytes of the hash stand for, at the epoch.
unfoldable pub calc_proof_challenge : (ℕ → ℕ) → ℕ → ℤ → ℕ → Option Challenge
unfolding compute_proof_epoch
calc_proof_challenge seed file_size height chunk_bytes =
    let epoch = compute_proof_epoch height in
    let max_len = max 1 chunk_bytes in
    let total_chunks = max 1 (ceil_div file_size max_len) in
    let offset = seed epoch % total_chunks * max_len in
    let size = min max_len (file_size - offset) in
    if eqb file_size 0
    then none
    else some (record {
      epoch = epoch;
      offset = offset;
      size = if eqb size 0 then min max_len file_size else size;
    })

pub record Split : Type 0 where
  pub creator_base : ℕ
  pub creator_total : ℕ
  pub storage : ℕ
  pub miner : ℕ
  pub tip : ℕ

-- The shares of an amount that is not negative; the source raises ValueError on another.
unfoldable pub calc_comment_split : ℕ → ℤ → Split
calc_comment_split amt tip =
    let tip_amt = to_nonneg tip in
    let denom = max 1 comment_bp_denom in
    let creator_share = amt * min denom comment_creator_bp / denom in
    let storage_share = amt * min denom comment_storage_bp / denom in
    record {
      creator_base = creator_share;
      creator_total = creator_share + tip_amt;
      storage = storage_share;
      miner = amt - creator_share - storage_share;
      tip = tip_amt;
    }

unfoldable pub calc_upload_fee_sats : ℕ → ℕ
calc_upload_fee_sats size_bytes =
    let billable = max size_bytes min_billable_size in
    let chunks = max 1 (ceil_div billable min_billable_size) in chunks * upload_fee_per_chunk
