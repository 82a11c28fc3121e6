-- ===== src/Config.antt =====
-- The consensus and policy constants of src/tsarchain/utils/config.py that the model reads, in
-- atomic units. Times are in milliseconds where the source has seconds as floats.
use graffiti_protocol.Base.{ℕ}

abbrev pub tsar : ℕ
tsar = 100000000

abbrev pub max_supply : ℕ
max_supply = 25250000000000000

abbrev pub initial_reward : ℕ
initial_reward = 25000000000

abbrev pub blocks_per_halving : ℕ
blocks_per_halving = 235000

abbrev pub coinbase_maturity : ℕ
coinbase_maturity = 3

abbrev pub genesis_reward_amount : ℕ
genesis_reward_amount = 250000000000000

abbrev pub max_bits : ℕ
max_bits = 0x1F9FFFFF

abbrev pub target_block_time : ℕ
target_block_time = 37

abbrev pub lwma_window : ℕ
lwma_window = 75

abbrev pub future_drift : ℕ
future_drift = 600

abbrev pub mtp_windows : ℕ
mtp_windows = 11

abbrev pub eda_window : ℕ
eda_window = 48

abbrev pub reorg_limit : ℕ
reorg_limit = 1000
