-- ===== src/Registry/Data.antt =====
-- The entries, the state, `_flush` and `_load` of src/tsarchain/contracts/graffiti_registry.py.
-- Amounts and epochs are not negative, and a missing last paid epoch is `none` for the source's -1.
use graffiti_protocol.Base.{
  ℕ, zero, suc, ◌+◌, ◌-◌, Bool, List, [], ◌∷◌, ◌++◌, Option, none, some, map, length, if◌then◌else◌,
  Dict, lookup, contains, insert, erase, add, nat_key, pair_key, ltb, eqb, ◌||◌, ◌&&◌,
}

pub record Stats : Type 0 where
  pub pool_balance : ℕ
  pub creator_paid : ℕ
  pub storage_paid : ℕ
  pub comments : ℕ
  pub last_paid_epoch : Option ℕ

pub record Post : Type 0 where
  pub sha256 : ℕ
  pub mroot : ℕ
  pub creator : ℕ
  pub txid : ℕ
  pub block_height : ℕ
  pub pool_address : ℕ
  pub amount_paid : ℕ
  pub block_hash : Option ℕ
  pub ts : ℕ
  pub stats : Stats

pub record Comment : Type 0 where
  pub txid : ℕ
  pub block_height : ℕ
  pub comment : ℕ
  pub commenter : ℕ
  pub amount : ℕ
  pub tip : ℕ
  pub creator_paid : ℕ
  pub storage_paid : ℕ
  pub ts : ℕ

pub record Payout : Type 0 where
  pub txid : ℕ
  pub block_height : ℕ
  pub recipients : Dict ℕ ℕ
  pub amount : ℕ
  pub epoch : Option ℕ

pub record Proof : Type 0 where
  pub storer : ℕ
  pub epoch : ℕ
  pub offset : ℕ
  pub size : ℕ
  pub hash : ℕ
  pub height : ℕ
  pub seed : ℕ
  pub ts : ℕ

-- The key `f"{art_id}:{idx:08d}"` under a prefix is the pair of its parts.
abbrev pub Slot : Type 0
Slot = ℕ × ℕ

-- The entries of one kind under their prefix, with the lists in memory and the stored counts.
pub record Threads (A : Type 0) : Type 0 where
  pub lists : Dict ℕ (List A)
  pub counts : Dict ℕ ℕ
  pub disk : Dict Slot A

pub record Registry : Type 0 where
  pub posts : Dict ℕ Post
  pub stored_posts : List ℕ
  pub disk_posts : Dict ℕ Post
  pub comments : Threads Comment
  pub payouts : Threads Payout
  pub proofs : Threads Proof

abbrev pub list_of : {A : Type 0} → ℕ → Dict ℕ (List A) → List A
list_of art_id lists = elim (lookup art_id lists) [ none ↦ [] | some items ↦ items ]

abbrev pub count_of : ℕ → Dict ℕ ℕ → ℕ
count_of art_id counts = elim (lookup art_id counts) [ none ↦ 0 | some n ↦ n ]

-- The keys of both dicts, each once.
unfoldable pub all_ids : {A : Type 0} → Dict ℕ ℕ → Dict ℕ (List A) → List ℕ
all_ids [] [] = []
all_ids [] ((art_id, _) ∷ lists) = add art_id (all_ids [] lists)
all_ids ((art_id, _) ∷ counts) lists = add art_id (all_ids counts lists)

-- `b.put` for the items from `idx` on.
unfoldable pub put_items : {A : Type 0} → ℕ → ℕ → List A → Dict Slot A → Dict Slot A
put_items art_id idx [] disk = disk
put_items art_id idx (item ∷ items) disk =
    put_items art_id (idx + 1) items (insert (art_id, idx) item disk)

-- `b.delete` for `n` places from `idx` on.
unfoldable pub delete_stale : {A : Type 0} → ℕ → ℕ → ℕ → Dict Slot A → Dict Slot A
delete_stale art_id idx zero disk = disk
delete_stale art_id idx (suc n) disk = delete_stale art_id (idx + 1) n (erase (art_id, idx) disk)

-- The loop over the art ids of one kind.
unfoldable pub flush_threads : {A : Type 0} → List ℕ → Threads A → Threads A
unfolding put_items delete_stale
flush_threads [] t = t
flush_threads (art_id ∷ ids) t =
    let items = list_of art_id t.lists in
    let written = put_items art_id 0 items t.disk in
    flush_threads ids (record t {
      disk = delete_stale art_id (length items) (count_of art_id t.counts - length items) written;
      counts = insert art_id (length items) t.counts;
    })

unfoldable put_posts : Dict ℕ Post → Dict ℕ Post → Dict ℕ Post
put_posts [] disk = disk
put_posts ((art_id, post) ∷ posts) disk = put_posts posts (insert art_id post disk)

-- `b.delete` for the stored posts that are no longer there.
unfoldable delete_posts : List ℕ → Dict ℕ Post → Dict ℕ Post → Dict ℕ Post
delete_posts [] posts disk = disk
delete_posts (art_id ∷ stored) posts disk =
    delete_posts stored posts (if contains art_id posts then disk else erase art_id disk)

unfoldable pub flush : Registry → Registry
unfolding all_ids flush_threads put_posts delete_posts
flush s = record s {
  disk_posts = delete_posts s.stored_posts s.posts (put_posts s.posts s.disk_posts);
  stored_posts = map (λ e. e.0) s.posts;
  comments = flush_threads (all_ids s.comments.counts s.comments.lists) s.comments;
  payouts = flush_threads (all_ids s.payouts.counts s.payouts.lists) s.payouts;
  proofs = flush_threads (all_ids s.proofs.counts s.proofs.lists) s.proofs;
}

unfoldable slot_lt : Slot → Slot → Bool
slot_lt a b = ltb a.0 b.0 || eqb a.0 b.0 && ltb a.1 b.1

unfoldable insert_slot : {A : Type 0} → Slot × A → Dict Slot A → Dict Slot A
unfolding slot_lt
insert_slot e [] = e ∷ []
insert_slot e (f ∷ disk) = if slot_lt f.0 e.0 then f ∷ insert_slot e disk else e ∷ f ∷ disk

-- The store gives its entries back in the order of their keys.
unfoldable in_key_order : {A : Type 0} → Dict Slot A → Dict Slot A
unfolding insert_slot
in_key_order [] = []
in_key_order (e ∷ disk) = insert_slot e (in_key_order disk)

-- `_load` of one kind: the entries join the lists of their art ids.
unfoldable load_lists : {A : Type 0} → Dict Slot A → Dict ℕ (List A) → Dict ℕ (List A)
load_lists [] lists = lists
load_lists (((art_id, idx), item) ∷ disk) lists =
    load_lists disk (insert art_id (list_of art_id lists ++ item ∷ []) lists)

unfoldable load_threads : {A : Type 0} → Threads A → Threads A
unfolding load_lists in_key_order
load_threads t =
    let lists = load_lists (in_key_order t.disk) [] in
    record t { lists = lists; counts = map (λ e. (e.0, length e.1)) lists }

unfoldable pub load : Registry → Registry
unfolding load_threads
load s = record s {
  posts = s.disk_posts;
  stored_posts = map (λ e. e.0) s.disk_posts;
  comments = load_threads s.comments;
  payouts = load_threads s.payouts;
  proofs = load_threads s.proofs;
}
