-- ===== src/Utxo/Addresses.antt =====
-- The index of outputs by script and the balances, of
-- src/tsarchain/storage/utxo_logic/balances.py. A script in hex is a number, 0 the empty one.
use graffiti_protocol.Base.{
  ℕ, zero, suc, ◌+◌, ◌-◌, List, [], ◌∷◌, Option, none, some, eqb, leb, sum_by, if◌then◌else◌, Dict,
  lookup, insert, erase, contains, add, discard, nat_key, pair_key,
}
use graffiti_protocol.Ledger.{Outpoint}
use graffiti_protocol.Utxo.Store.{Entry, Utxos}

pub record AddressIndex : Type 0 where
  buckets : Dict ℕ (List Outpoint)
  pub key_to_spk : Dict Outpoint ℕ
  pub key_to_amount : Dict Outpoint ℕ
  pub totals : Dict ℕ ℕ
  pub coinbases : Dict ℕ (Dict Outpoint (ℕ × ℕ))

abbrev pub empty_index : AddressIndex
empty_index = record {
  buckets = [];
  key_to_spk = [];
  key_to_amount = [];
  totals = [];
  coinbases = [];
}

abbrev bucket_of : ℕ → Dict ℕ (List Outpoint) → List Outpoint
bucket_of spk buckets = elim (lookup spk buckets) [ none ↦ [] | some keys ↦ keys ]

-- `self._addr_total_balance.get(spk, 0)`
abbrev pub total_of : ℕ → Dict ℕ ℕ → ℕ
total_of spk totals = elim (lookup spk totals) [ none ↦ 0 | some n ↦ n ]

abbrev born_at : ℕ → Dict ℕ (Dict Outpoint (ℕ × ℕ)) → Dict Outpoint (ℕ × ℕ)
born_at h coinbases = elim (lookup h coinbases) [ none ↦ [] | some d ↦ d ]

-- The coinbase outputs by height.
unfoldable note_coinbase :
    Outpoint → ℕ → Entry → Dict ℕ (Dict Outpoint (ℕ × ℕ)) → Dict ℕ (Dict Outpoint (ℕ × ℕ))
note_coinbase key spk entry coinbases =
    if entry.is_coinbase
    then insert entry.block_height
        (insert key (spk, entry.tx_out.amount) (born_at entry.block_height coinbases)) coinbases
    else coinbases

-- An entry goes into an index that is there.
unfoldable pub index_entry : (List ℕ → ℕ) → Outpoint → Entry → AddressIndex → AddressIndex
unfolding note_coinbase
index_entry hex key entry s =
    let spk = hex entry.tx_out.script_pubkey in
    let amt = entry.tx_out.amount in
    if eqb spk 0 then s else record {
      buckets = insert spk (add key (bucket_of spk s.buckets)) s.buckets;
      key_to_spk = insert key spk s.key_to_spk;
      key_to_amount = insert key amt s.key_to_amount;
      totals = insert spk (total_of spk s.totals + amt) s.totals;
      coinbases = note_coinbase key spk entry s.coinbases;
    }

-- A bucket without its last key goes.
unfoldable drop_from_bucket : Outpoint → ℕ → Dict ℕ (List Outpoint) → Dict ℕ (List Outpoint)
drop_from_bucket key spk buckets = elim (discard key (bucket_of spk buckets)) [
  | [] ↦ erase spk buckets
  | k ∷ keys ↦ insert spk (k ∷ keys) buckets
]

unfoldable pub drop_total : ℕ → ℕ → Dict ℕ ℕ → Dict ℕ ℕ
drop_total spk amt totals = elim (lookup spk totals) [
  | none ↦ totals
  | some n ↦ if leb n amt then erase spk totals else insert spk (n - amt) totals
]

-- The first height that has the key.
unfoldable drop_coinbase :
    Outpoint → Dict ℕ (Dict Outpoint (ℕ × ℕ)) → Dict ℕ (Dict Outpoint (ℕ × ℕ))
drop_coinbase key [] = []
drop_coinbase key ((born, d) ∷ coinbases) =
    let rest = drop_coinbase key coinbases in
    if contains key d
    then (elim (erase key d) [ [] ↦ coinbases | e ∷ left ↦ (born, e ∷ left) ∷ coinbases ])
    else (born, d) ∷ rest

unfoldable pub drop_index_entry : Outpoint → AddressIndex → AddressIndex
unfolding drop_from_bucket drop_total drop_coinbase
drop_index_entry key s = elim (lookup key s.key_to_spk) [
  | none ↦ s
  | some spk ↦ record {
    buckets = drop_from_bucket key spk s.buckets;
    key_to_spk = erase key s.key_to_spk;
    key_to_amount = erase key s.key_to_amount;
    totals =
        drop_total spk (elim (lookup key s.key_to_amount) [ none ↦ 0 | some amt ↦ amt ]) s.totals;
    coinbases = drop_coinbase key s.coinbases;
  }
]

unfoldable pub index_all : (List ℕ → ℕ) → Utxos → AddressIndex → AddressIndex
unfolding index_entry
index_all hex [] s = s
index_all hex ((key, entry) ∷ utxos) s = index_all hex utxos (index_entry hex key entry s)

-- `_ensure_index_locked`: an index that is there stays.
unfoldable ensure_index : (List ℕ → ℕ) → Utxos → Option AddressIndex → AddressIndex
unfolding index_all
ensure_index hex utxos none = index_all hex utxos empty_index
ensure_index hex utxos (some s) = s

-- The immature coinbase outputs of one height, and those of `n` heights from `h` on.
unfoldable immature_at : ℕ → ℕ → AddressIndex → ℕ
immature_at spk h s =
    sum_by (λ (e : Outpoint × (ℕ × ℕ)). if eqb e.1.0 spk then e.1.1 else 0) (born_at h s.coinbases)

unfoldable immature_from : ℕ → ℕ → ℕ → AddressIndex → ℕ
unfolding immature_at
immature_from spk h zero s = 0
immature_from spk h (suc n) s = immature_at spk h s + immature_from spk (h + 1) n s

-- Total and mature balance at a height; the heights are those from `curr_h + 2 - maturity`, but not
-- below 0, up to the height itself.
unfoldable pub get_balance : ℕ → ℕ → ℕ → AddressIndex → ℕ × ℕ
unfolding immature_from
get_balance spk curr_h maturity s =
    let total = total_of spk s.totals in
    let first = curr_h + 2 - maturity in
    (total, total - immature_from spk first (curr_h + 1 - first) s)
