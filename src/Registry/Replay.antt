-- ===== src/Registry/Replay.antt =====
-- The same comment or payout recorded twice, of src/tsarchain/contracts/graffiti_registry.py.
use graffiti_protocol.Base.{
  ℕ, ◌+◌, ◌≡◌, refl, arith, true, List, [], ◌∷◌, ◌++◌, some, lookup, lookup-insert_self, nat_key,
  pair_key, Bool-cases, inl, inr,
}
use graffiti_protocol.Registry.Data.{
  Stats, Comment, Threads, Registry, list_of, flush, flush_threads, all_ids,
}
use graffiti_protocol.Registry.Record.{
  CommentMeta, record_comment, set_default, append_item, has_comment, update_stats,
}

flush_threads-lists :
    {A : Type 0} (ids : List ℕ) (t : Threads A) → (flush_threads ids t).lists ≡ t.lists
unfolding flush_threads
flush_threads-lists [] t = refl
flush_threads-lists (art_id ∷ ids) t = flush_threads-lists ids _

flush-parts :
    (s : Registry)
    → ((flush s).posts ≡ s.posts)
      × ((flush s).comments.lists ≡ s.comments.lists)
      × ((flush s).payouts.lists ≡ s.payouts.lists)
unfolding flush
flush-parts s = (
  refl,
  flush_threads-lists (all_ids s.comments.counts s.comments.lists) s.comments,
  flush_threads-lists (all_ids s.payouts.counts s.payouts.lists) s.payouts,
)

has_comment-append :
    (txid : ℕ) (thread : List Comment) (c : Comment)
    → c.txid ≡ txid
    → has_comment txid (thread ++ c ∷ []) ≡ true
unfolding has_comment
has_comment-append txid [] c e = ground arith
has_comment-append txid (d ∷ thread) c e = ground (arith, has_comment-append txid thread c)

set_default-there :
    {A : Type 0} (art_id : ℕ) (t : Threads A) (items : List A)
    → lookup art_id t.lists ≡ some items
    → set_default art_id t ≡ t
unfolding set_default
set_default-there art_id t items e = ground arith

lookup-set_default :
    {A : Type 0} (art_id : ℕ) (t : Threads A)
    → lookup art_id (set_default art_id t).lists ≡ some (list_of art_id t.lists)
unfolding set_default
lookup-set_default art_id t = ground (arith, lookup-insert_self art_id [] t.lists)

-- A comment that is in its thread already.
seen_again :
    (art_id : ℕ) (meta : CommentMeta) (txid height creator storage : ℕ) (s : Registry)
    (thread : List Comment)
    → lookup art_id s.comments.lists ≡ some thread
    → has_comment txid thread ≡ true
    → record_comment art_id meta txid height creator storage s ≡ s
unfolding record_comment
seen_again art_id meta txid height creator storage s thread there seen =
    ground (arith, set_default-there art_id s.comments thread)

after_comment :
    (art_id : ℕ) (meta : CommentMeta) (txid height creator storage : ℕ) (s : Registry)
    → (thread : List Comment) × (lookup art_id
          (record_comment art_id meta txid height creator storage s).comments.lists
        ≡ some thread)
      × (has_comment txid thread ≡ true)
unfolding record_comment append_item update_stats
after_comment art_id meta txid height creator storage s =
    let thread = list_of art_id s.comments.lists in
    let t = set_default art_id s.comments in
    let entry : Comment = record {
      txid = txid;
      block_height = height;
      comment = meta.comment;
      commenter = meta.commenter;
      amount = meta.amount;
      tip = meta.tip;
      creator_paid = creator;
      storage_paid = storage;
      ts = meta.ts;
    } in
    let change : Stats → Stats = λ stats. record stats {
      creator_paid = stats.creator_paid + creator;
      storage_paid = stats.storage_paid + storage;
      pool_balance = stats.pool_balance + storage;
      comments = stats.comments + 1;
    } in
    let written : Registry = record s {
      comments = append_item art_id entry t;
      posts = update_stats art_id change s.posts;
    } in
    elim (Bool-cases (has_comment txid thread)) [
      | inl seen ↦ (thread, ground (arith, lookup-set_default art_id s.comments), seen)
      | inr fresh ↦ (
        thread ++ entry ∷ [],
        ground (
          arith,
          lookup-set_default art_id s.comments,
          flush-parts written,
          lookup-insert_self art_id (thread ++ entry ∷ []) t.lists,
        ),
        has_comment-append txid thread entry refl,
      )
    ]

-- Recording a comment a second time under the same transaction, whatever else it says, changes
-- nothing, in memory and on disk.
record_comment_again :
    (art_id : ℕ) (meta meta' : CommentMeta)
    (txid height height' creator creator' storage storage' : ℕ) (s : Registry)
    → record_comment art_id meta' txid height' creator' storage'
        (record_comment art_id meta txid height creator storage s)
      ≡ record_comment art_id meta txid height creator storage s
record_comment_again art_id meta meta' txid height height' creator creator' storage storage' s =
    let (thread, there, seen) = after_comment art_id meta txid height creator storage s in
    seen_again art_id meta' txid height' creator' storage' _ thread there seen
