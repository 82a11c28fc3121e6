-- ===== src/Registry/Record.antt =====
-- The operations that write, of src/tsarchain/contracts/graffiti_registry.py.
use graffiti_protocol.Base.{
  ℕ, ◌+◌, ◌-◌, max, Bool, false, List, [], ◌∷◌, ◌++◌, Option, none, some, ◌&&◌, ◌||◌, eqb, any,
  length, sum_by, if◌then◌else◌, Dict, lookup, insert, nat_key, pair_key, ℤ, to_nonneg,
}
use graffiti_protocol.Registry.Data.{
  Stats, Post, Comment, Payout, Proof, Threads, Registry, list_of, flush,
}

-- The part of a post's metadata that the registry, the block checks and the handlers of events read;
-- a missing text is the empty one.
pub record PostMeta : Type 0 where
  pub sha256 : ℕ
  pub mroot : ℕ
  pub creator : ℕ
  pub stats : Option Stats
  pub ts : ℕ

pub record CommentMeta : Type 0 where
  pub comment : ℕ
  pub commenter : ℕ
  pub amount : ℕ
  pub tip : ℕ
  pub ts : ℕ

abbrev no_stats : Stats
no_stats = record {
  pool_balance = 0;
  creator_paid = 0;
  storage_paid = 0;
  comments = 0;
  last_paid_epoch = none;
}

unfoldable stats_of : Option Stats → Stats
stats_of none = no_stats
stats_of (some stats) = stats

-- `existing and existing.get("txid") == txid`
unfoldable is_same_post : Option Post → ℕ → Bool
is_same_post none txid = false
is_same_post (some post) txid = eqb post.txid txid

unfoldable pub record_post : ℕ → PostMeta → ℕ → ℕ → ℕ → ℕ → Option ℕ → Registry → Registry
unfolding stats_of is_same_post flush
record_post art_id meta txid block_height pool_addr amount_paid block_hash s =
    let stats = stats_of meta.stats in
    let entry : Post = record {
      sha256 = meta.sha256;
      mroot = meta.mroot;
      creator = meta.creator;
      txid = txid;
      block_height = block_height;
      pool_address = pool_addr;
      amount_paid = amount_paid;
      block_hash = block_hash;
      ts = meta.ts;
      stats = record stats { pool_balance = stats.pool_balance + amount_paid };
    } in
    if is_same_post (lookup art_id s.posts) txid
    then s
    else flush (record s { posts = insert art_id entry s.posts })

-- A change of the statistics of a post, if it is there.
unfoldable pub update_stats : ℕ → (Stats → Stats) → Dict ℕ Post → Dict ℕ Post
update_stats art_id change posts = elim (lookup art_id posts) [
  | none ↦ posts
  | some post ↦ insert art_id (record post { stats = change post.stats }) posts
]

-- `threads.setdefault(art_id, [])`
unfoldable pub set_default : {A : Type 0} → ℕ → Threads A → Threads A
set_default art_id t = elim (lookup art_id t.lists) [
  | none ↦ record t { lists = insert art_id [] t.lists }
  | some _ ↦ t
]

unfoldable pub append_item : {A : Type 0} → ℕ → A → Threads A → Threads A
append_item art_id item t = record t {
  lists = insert art_id (list_of art_id t.lists ++ item ∷ []) t.lists;
}

unfoldable pub has_comment : ℕ → List Comment → Bool
has_comment txid thread = any (λ (c : Comment). eqb c.txid txid) thread

unfoldable pub record_comment : ℕ → CommentMeta → ℕ → ℕ → ℕ → ℕ → Registry → Registry
unfolding update_stats set_default append_item has_comment flush
record_comment art_id meta txid block_height creator_paid storage_paid s =
    let entry : Comment = record {
      txid = txid;
      block_height = block_height;
      comment = meta.comment;
      commenter = meta.commenter;
      amount = meta.amount;
      tip = meta.tip;
      creator_paid = creator_paid;
      storage_paid = storage_paid;
      ts = meta.ts;
    } in
    let change : Stats → Stats = λ stats. record stats {
      creator_paid = stats.creator_paid + creator_paid;
      storage_paid = stats.storage_paid + storage_paid;
      pool_balance = stats.pool_balance + storage_paid;
      comments = stats.comments + 1;
    } in
    let comments = set_default art_id s.comments in
    if has_comment txid (list_of art_id comments.lists)
    then record s { comments = comments }
    else flush (record s {
      comments = append_item art_id entry comments;
      posts = update_stats art_id change s.posts;
    })

unfoldable pub has_payout : ℕ → List Payout → Bool
has_payout txid payouts = any (λ (p : Payout). eqb p.txid txid) payouts

-- The balance that a payout leaves, given or worked out.
unfoldable balance_after : Option ℤ → ℕ → Stats → Stats
balance_after none total stats = record stats { pool_balance = stats.pool_balance - total }
balance_after (some b) total stats = record stats { pool_balance = to_nonneg b }

unfoldable epoch_after : Option ℕ → Stats → Stats
epoch_after none stats = stats
epoch_after (some epoch) stats = record stats {
  last_paid_epoch = some (elim stats.last_paid_epoch [ none ↦ epoch | some last ↦ max last epoch ]);
}

-- A replay only sets the balance that it is given.
unfoldable replay_balance : Option ℤ → Stats → Stats
replay_balance none stats = stats
replay_balance (some b) stats = record stats { pool_balance = to_nonneg b }

unfoldable pub record_payout : ℕ → Dict ℕ ℕ → ℕ → ℕ → Option ℕ → Option ℤ → Registry → Registry
unfolding update_stats set_default append_item has_payout balance_after epoch_after replay_balance
    flush
record_payout art_id recipients txid block_height epoch pool_balance s =
    let total = sum_by (λ e. e.1) recipients in
    let entry : Payout = record {
      txid = txid;
      block_height = block_height;
      recipients = recipients;
      amount = total;
      epoch = epoch;
    } in
    let payouts = set_default art_id s.payouts in
    elim (lookup art_id s.posts) [
      | none ↦ s
      | some _ ↦
          if has_payout txid (list_of art_id payouts.lists)
          then record s {
            payouts = payouts;
            posts = update_stats art_id (replay_balance pool_balance) s.posts;
          }
          else flush (record s {
            payouts = append_item art_id entry payouts;
            posts =
                update_stats art_id
                  (λ stats. epoch_after epoch (balance_after pool_balance total stats)) s.posts;
          })
    ]

unfoldable pub set_pool_balance : ℕ → ℤ → Registry → Registry
unfolding update_stats flush
set_pool_balance art_id pool_balance s = elim (lookup art_id s.posts) [
  | none ↦ s
  | some _ ↦ flush (record s {
    posts =
        update_stats art_id (λ stats. record stats { pool_balance = to_nonneg pool_balance })
          s.posts;
  })
]

abbrev pub is_proof_of : ℕ → ℕ → Proof → Bool
is_proof_of storer epoch item = eqb item.storer storer && eqb item.epoch epoch

-- The proofs with the new one in its place, and that place.
unfoldable place_proof : Proof → ℕ → List Proof → List Proof × ℕ
place_proof entry idx [] = (entry ∷ [], idx)
place_proof entry idx (item ∷ items) =
    let rest = place_proof entry (idx + 1) items in
    if is_proof_of entry.storer entry.epoch item
    then (entry ∷ items, idx)
    else (item ∷ rest.0, rest.1)

-- `art_id` and `entry.storer` are stripped and lowered already.
unfoldable pub record_proof : ℕ → Proof → Registry → Registry
unfolding place_proof
record_proof art_id entry s =
    let (art_proofs, target_idx) = place_proof entry 0 (list_of art_id s.proofs.lists) in
    if eqb art_id 0 || eqb entry.storer 0 then s else record s {
      proofs = record s.proofs {
        lists = insert art_id art_proofs s.proofs.lists;
        disk = insert (art_id, target_idx) entry s.proofs.disk;
        counts = insert art_id (length art_proofs) s.proofs.counts;
      };
    }
