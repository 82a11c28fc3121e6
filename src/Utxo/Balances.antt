-- ===== src/Utxo/Balances.antt =====
-- The totals of the index of outputs by script, when an output is entered and dropped.
use graffiti_protocol.Base.{
  ℕ, ◌+◌, ◌-◌, ◌≡◌, ◌≢◌, arith, List, none, some, eqb, lookup, nat_key, pair_key,
  lookup-insert_self, lookup-erase_self, false,
}
use graffiti_protocol.Ledger.{Outpoint}
use graffiti_protocol.Utxo.Store.{Entry}
use graffiti_protocol.Utxo.Addresses.{
  AddressIndex, total_of, index_entry, drop_total, drop_index_entry,
}

-- What an entry leaves under its key, and in the total of its script.
indexed_lem :
    (hex : List ℕ → ℕ) (key : Outpoint) (entry : Entry) (s : AddressIndex)
    → hex entry.tx_out.script_pubkey ≢ 0
    → let spk = hex entry.tx_out.script_pubkey in
      let s' = index_entry hex key entry s in
      (lookup key s'.key_to_spk ≡ some spk)
      × (lookup key s'.key_to_amount ≡ some entry.tx_out.amount)
      × (lookup spk s'.totals ≡ some (total_of spk s.totals + entry.tx_out.amount))
unfolding index_entry
indexed_lem hex key entry s h =
    let spk = hex entry.tx_out.script_pubkey in
    let e : eqb (hex entry.tx_out.script_pubkey) 0 ≡ false = ground arith in
    rw e (
      lookup-insert_self key spk s.key_to_spk,
      lookup-insert_self key entry.tx_out.amount s.key_to_amount,
      lookup-insert_self spk (total_of spk s.totals + entry.tx_out.amount) s.totals,
    )

-- The total after a key is dropped.
drop_total_lem :
    (spk amt n : ℕ) (s : AddressIndex)
    → lookup spk s.totals ≡ some n
    → total_of spk (drop_total spk amt s.totals) ≡ n - amt
unfolding drop_total
drop_total_lem spk amt n s h =
    ground (arith, lookup-insert_self spk (n - amt) s.totals, lookup-erase_self spk s.totals)

dropped_lem :
    (key : Outpoint) (spk amt n : ℕ) (s : AddressIndex)
    → lookup key s.key_to_spk ≡ some spk
    → lookup key s.key_to_amount ≡ some amt
    → lookup spk s.totals ≡ some n
    → (lookup key (drop_index_entry key s).key_to_spk ≡ none)
      × (total_of spk (drop_index_entry key s).totals ≡ n - amt)
unfolding drop_index_entry
dropped_lem key spk amt n s a b c = (
  ground (arith, lookup-erase_self key s.key_to_spk),
  ground (arith, drop_total_lem spk amt n s c),
)

-- A key that is entered and dropped leaves the total of its script as it was. A key that is entered
-- twice, as the rebuilding of the set does for every output that the index has already, and dropped
-- once is gone from the index, and its amount stays in the total of its script.
pub drop_index_entry-index_entry :
    (hex : List ℕ → ℕ) (key : Outpoint) (entry : Entry) (s : AddressIndex)
    → hex entry.tx_out.script_pubkey ≢ 0
    → let spk = hex entry.tx_out.script_pubkey in
      let once = index_entry hex key entry s in
      let twice = index_entry hex key entry once in
      (total_of spk (drop_index_entry key once).totals ≡ total_of spk s.totals)
      × (lookup key (drop_index_entry key twice).key_to_spk ≡ none)
      × (total_of spk (drop_index_entry key twice).totals
          ≡ total_of spk s.totals + entry.tx_out.amount)
drop_index_entry-index_entry hex key entry s h =
    let spk = hex entry.tx_out.script_pubkey in
    let amt = entry.tx_out.amount in
    let once = index_entry hex key entry s in
    let (a, b, c) = indexed_lem hex key entry s h in
    let (a', b', c') = indexed_lem hex key entry once h in
    let first : total_of spk once.totals ≡ total_of spk s.totals + amt = ground (arith, c) in
    let (x, y) = dropped_lem key spk amt (total_of spk s.totals + amt) once a b c in
    let (x', y') =
      dropped_lem key spk amt (total_of spk once.totals + amt) (index_entry hex key entry once) a'
        b' c' in
    (omega (arith, y), x', omega (arith, y', first))
