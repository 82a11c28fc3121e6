-- ===== src/Node/Extends.antt =====
-- The chain after `add_block`.
use mathlib.Core.Path.{subst}
use graffiti_protocol.Base.{
  ℕ, ◌+◌, ◌≡◌, ◌∙◌, ap, sym, refl, arith, inl, inr, List, [], ◌∷◌, ◌++◌, Option, none, some, length,
  length-append, last?, eqb, guard, >>=-some, Option-cases,
}
use graffiti_protocol.Ledger.{Tx, Block}
use graffiti_protocol.Utxo.{Utxos, Op, update}
use graffiti_protocol.Difficulty.Work.{work_from_bits, chainwork_from, compute_chainwork_for_chain}
use graffiti_protocol.Chain.Native.{Native, genesis_lock_ok}
use graffiti_protocol.Mempool.Rules.{Library}
use graffiti_protocol.Node.Prune.{prune_mempool_confirmed}
use graffiti_protocol.Node.Append.{
  weighed, work_below, append_genesis, append_subsequent, append_block, NodeData, add_block,
}

-- Every block says what the work up to it is.
abbrev pub IsWeighed : List Block → Type 0
IsWeighed chain = (compute_chainwork_for_chain chain).1 ≡ chain

abbrev pub work_of : List Block → ℕ
work_of chain = (compute_chainwork_for_chain chain).0

-- The first block has height 0, and another follows the last block in height and hash.
abbrev pub Follows : Native → Option Block → Block → Type 0
Follows native none block = block.height ≡ 0
Follows native (some last_block) block =
    (block.height ≡ last_block.height + 1) × (block.prev_block_hash ≡ native.hash last_block)

chainwork_from-append :
    (cw : ℕ) (bs : List Block) (b : Block)
    → chainwork_from cw (bs ++ b ∷ []) ≡ (
        let (total, blocks) = chainwork_from cw bs in
        (
          total + work_from_bits b.bits,
          blocks ++ record b { chainwork = some (total + work_from_bits b.bits) } ∷ [],
        ))
unfolding chainwork_from
chainwork_from-append cw [] b = refl
chainwork_from-append cw (x ∷ bs) b =
    rw (chainwork_from-append (cw + work_from_bits x.bits) bs b) refl

-- The last block of a weighed chain has the chain's work.
last-work :
    (cw : ℕ) (bs : List Block) (l : Block)
    → last? (chainwork_from cw bs).1 ≡ some l
    → l.chainwork ≡ some (chainwork_from cw bs).0
unfolding chainwork_from
last-work cw [] l h = cc
last-work cw (x ∷ []) l h = ground arith
last-work cw (x ∷ y ∷ bs) l h = last-work (cw + work_from_bits x.bits) (y ∷ bs) l h

last-none : (bs : List Block) → last? bs ≡ none → bs ≡ []
last-none [] h = refl
last-none (x ∷ []) h = cc
last-none (x ∷ y ∷ bs) h = absurd (ground (arith, last-none (y ∷ bs) h))

weighed-IsWeighed :
    (chain : List Block) (block : Block)
    → IsWeighed chain
    → IsWeighed (chain ++ weighed (work_of chain) block ∷ [])
unfolding compute_chainwork_for_chain weighed
weighed-IsWeighed chain block w =
    let b = weighed (work_of chain) block in
    ap (λ r. r.1) (chainwork_from-append 0 chain b) ∙ ap (λ c. c ++ b ∷ []) w

genesis_lem :
    (native : Native) (block : Block) (chain : List Block)
    → append_genesis native block ≡ some chain
    → (block.height ≡ 0) × (chain ≡ weighed 0 block ∷ [])
unfolding append_genesis
genesis_lem native block chain h =
    let (u, a, h1) = >>=-some (guard (eqb block.height 0)) _ chain h in
    let (v, b, h2) = >>=-some (guard (genesis_lock_ok native block)) _ chain h1 in
    (ground arith, ground arith)

subsequent_lem :
    (native : Native) (chain : List Block) (last_block block : Block) (chain' : List Block)
    → last_block.chainwork ≡ some (work_of chain)
    → append_subsequent native chain last_block block ≡ some chain'
    → Follows native (some last_block) block
      × (chain' ≡ chain ++ weighed (work_of chain) block ∷ [])
unfolding append_subsequent work_below
subsequent_lem native chain last_block block chain' known h =
    let (u, a, h1) = >>=-some (guard (eqb block.height (last_block.height + 1))) _ chain' h in
    let (v, b, h2) =
      >>=-some (guard (eqb block.prev_block_hash (native.hash last_block))) _ chain' h1 in
    ((ground arith, ground arith), ground arith)

append_block_lem :
    (native : Native) (chain : List Block) (block : Block) (chain' : List Block)
    → IsWeighed chain
    → append_block native chain block ≡ some chain'
    → Follows native (last? chain) block × (chain' ≡ chain ++ weighed (work_of chain) block ∷ [])
unfolding append_block compute_chainwork_for_chain
append_block_lem native chain block chain' w h = elim (Option-cases (last? chain)) [
  | inl empty ↦
      let (height, front) = genesis_lem native block chain' (ground arith) in
      let e : chain ≡ [] = last-none chain empty in
      let alone : chain' ≡ [] ++ weighed (work_of []) block ∷ [] = unfold chainwork_from in front in
      (rw empty height, alone ∙ ap (λ c. c ++ weighed (work_of c) block ∷ []) (sym e))
  | inr (last_block, there) ↦
      let known = last-work 0 chain last_block (ap last? w ∙ there) in
      let (follows, on_top) =
        subsequent_lem native chain last_block block chain' known (ground arith) in
      (rw there follows, on_top)
]

-- If every block of the chain says what the work up to it is, then a block that `add_block` takes
-- follows the last one in height and hash, or has height 0 where there is none; it is put on top of
-- the chain, which is otherwise unchanged; every block again says what the work up to it is, and the
-- count of blocks is one more.
pub add_block-IsWeighed :
    (native : Native) (lib : Library) (build_ops : List Tx → ℕ → List Op)
    (native_apply : Utxos → List Op → Utxos) (tip now : ℕ) (block : Block) (node node' : NodeData)
    → IsWeighed node.chain
    → add_block native lib build_ops native_apply tip now block node ≡ some node'
    → Follows native (last? node.chain) block
      × (node'.chain ≡ node.chain ++ weighed (work_of node.chain) block ∷ [])
      × IsWeighed node'.chain
      × (node'.total_blocks ≡ length node.chain + 1)
unfolding add_block
add_block-IsWeighed native lib build_ops native_apply tip now block node node' w h =
    let (chain, appended, h1) = >>=-some (append_block native node.chain block) _ node' h in
    let store = update build_ops native_apply block.transactions block.height node.waiting.store in
    let (waiting, pruned, h2) =
      >>=-some (prune_mempool_confirmed lib tip now block (record node.waiting { store = store })) _
        node' h1 in
    let (follows, on_top) = append_block_lem native node.chain block chain w appended in
    let same : node'.chain ≡ chain = ground arith in
    let top = weighed (work_of node.chain) block in
    let count : node'.total_blocks ≡ length chain = ground arith in
    let e = same ∙ on_top in
    (
      follows,
      e,
      subst IsWeighed (sym e) (weighed-IsWeighed node.chain block w),
      count ∙ ap length on_top ∙ length-append node.chain (top ∷ []),
    )
