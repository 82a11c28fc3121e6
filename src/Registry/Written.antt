-- ===== src/Registry/Written.antt =====
-- `_flush` of src/tsarchain/contracts/graffiti_registry.py: lists in memory against slots on disk.
use graffiti_protocol.Base.{
  ℕ, zero, suc, ◌+◌, ◌-◌, ◌≡◌, ◌≢◌, ◌≤◌, ◌<◌, ◌⊎◌, inl, inr, refl, arith, ltb, leb, eqb, ◌&&◌, ◌||◌,
  List, [], ◌∷◌, Option, none, some, length, get_elem?, Dict, lookup, contains, insert, erase,
  member, lookup-insert, lookup-erase, member-add, pair_eqb_iff, nat_key, pair_key, if◌then◌else◌,
  Bool-cases,
}
use graffiti_protocol.Registry.Data.{
  Slot, Threads, Registry, list_of, count_of, all_ids, put_items, delete_stale, flush_threads,
  flush,
}

abbrev or_else : {A : Type 0} → Option A → Option A → Option A
or_else none o = o
or_else (some a) o = some a

put_items-other :
    {A : Type 0} (art_id idx a i : ℕ) (items : List A) (disk : Dict Slot A)
    → (a ≢ art_id) ⊎ (i < idx)
    → lookup (a, i) (put_items art_id idx items disk) ≡ lookup (a, i) disk
unfolding put_items
put_items-other art_id idx a i [] disk h = refl
put_items-other art_id idx a i (item ∷ items) disk h = ground (
  arith,
  put_items-other art_id (idx + 1) a i items (insert (art_id, idx) item disk),
  lookup-insert (art_id, idx) (a, i) item disk,
)

put_items-own :
    {A : Type 0} (art_id idx k : ℕ) (items : List A) (disk : Dict Slot A)
    → lookup (art_id, idx + k) (put_items art_id idx items disk)
      ≡ or_else (get_elem? items k) (lookup (art_id, idx + k) disk)
unfolding put_items
put_items-own art_id idx k [] disk = refl
put_items-own art_id idx zero (item ∷ items) disk = ground (
  arith,
  put_items-other art_id (idx + 1) art_id (idx + 0) items (insert (art_id, idx) item disk),
  lookup-insert (art_id, idx) (art_id, idx + 0) item disk,
  pair_eqb_iff (art_id, idx) (art_id, idx + 0),
)
put_items-own art_id idx (suc k) (item ∷ items) disk =
    let later : idx + suc k ≡ idx + 1 + k = omega arith in
    ground (
      arith,
      later,
      put_items-own art_id (idx + 1) k items (insert (art_id, idx) item disk),
      lookup-insert (art_id, idx) (art_id, idx + suc k) item disk,
    )

delete_stale-lookup :
    {A : Type 0} (art_id idx n a i : ℕ) (disk : Dict Slot A)
    → lookup (a, i) (delete_stale art_id idx n disk)
      ≡ (if eqb a art_id && leb idx i && ltb i (idx + n) then none else lookup (a, i) disk)
unfolding delete_stale
delete_stale-lookup art_id idx zero a i disk = ground arith
delete_stale-lookup art_id idx (suc n) a i disk = ground (
  arith,
  delete_stale-lookup art_id (idx + 1) n a i (erase (art_id, idx) disk),
  lookup-erase (art_id, idx) (a, i) disk,
)

get_elem?-short :
    {A : Type 0} (items : List A) (i : ℕ) → length items ≤ i → get_elem? items i ≡ none
get_elem?-short [] i h = refl
get_elem?-short (x ∷ items) zero h = absurd (omega arith)
get_elem?-short (x ∷ items) (suc i) h = get_elem?-short items i (omega arith)

get_elem?-long :
    {A : Type 0} (items : List A) (i : ℕ) (o : Option A)
    → i < length items
    → or_else (get_elem? items i) o ≡ get_elem? items i
get_elem?-long [] i o h = absurd (omega arith)
get_elem?-long (x ∷ items) zero o h = refl
get_elem?-long (x ∷ items) (suc i) o h = get_elem?-long items i o (omega arith)

-- Past the stored count the disk has no slot of an art id.
abbrev pub IsCounted : {A : Type 0} → Threads A → Type 0
IsCounted t = (a i : ℕ) → count_of a t.counts ≤ i → lookup (a, i) t.disk ≡ none

-- One round of the loop.
flush_one : {A : Type 0} → ℕ → Threads A → Threads A
flush_one art_id t =
    let items = list_of art_id t.lists in
    let written = put_items art_id 0 items t.disk in
    record t {
      disk = delete_stale art_id (length items) (count_of art_id t.counts - length items) written;
      counts = insert art_id (length items) t.counts;
    }

flush_one-own :
    {A : Type 0} (art_id i : ℕ) (t : Threads A)
    → IsCounted t
    → lookup (art_id, i) (flush_one art_id t).disk ≡ get_elem? (list_of art_id t.lists) i
unfolding flush_one
flush_one-own art_id i t h =
    let items = list_of art_id t.lists in
    ground (
      arith,
      h art_id i,
      put_items-own art_id 0 i items t.disk,
      get_elem?-short items i,
      get_elem?-long items i (lookup (art_id, i) t.disk),
      delete_stale-lookup art_id (length items) (count_of art_id t.counts - length items) art_id i
          (put_items art_id 0 items t.disk),
    )

flush_one-other :
    {A : Type 0} (art_id a i : ℕ) (t : Threads A)
    → a ≢ art_id
    → (lookup (a, i) (flush_one art_id t).disk ≡ lookup (a, i) t.disk)
      × (count_of a (flush_one art_id t).counts ≡ count_of a t.counts)
unfolding flush_one
flush_one-other art_id a i t h =
    let items = list_of art_id t.lists in
    (
      ground (
        arith,
        put_items-other art_id 0 a i items t.disk,
        delete_stale-lookup art_id (length items) (count_of art_id t.counts - length items) a i
            (put_items art_id 0 items t.disk),
      ),
      ground (arith, lookup-insert art_id a (length items) t.counts),
    )

flush_one-count :
    {A : Type 0} (art_id : ℕ) (t : Threads A)
    → count_of art_id (flush_one art_id t).counts ≡ length (list_of art_id t.lists)
unfolding flush_one
flush_one-count art_id t =
    ground (arith, lookup-insert art_id art_id (length (list_of art_id t.lists)) t.counts)

flush_one-IsCounted :
    {A : Type 0} (art_id : ℕ) (t : Threads A) → IsCounted t → IsCounted (flush_one art_id t)
flush_one-IsCounted art_id t h a i past = elim (Bool-cases (eqb a art_id)) [
  | inl same ↦ ground (
    arith,
    flush_one-own art_id i t h,
    flush_one-count art_id t,
    get_elem?-short (list_of art_id t.lists) i,
  )
  | inr other ↦ ground (arith, flush_one-other art_id a i t, h a i)
]

flush_threads-lookup :
    {A : Type 0} (ids : List ℕ) (t : Threads A) (a i : ℕ)
    → IsCounted t
    → (lookup (a, i) (flush_threads ids t).disk
        ≡ (if member a ids then get_elem? (list_of a t.lists) i else lookup (a, i) t.disk))
unfolding flush_threads flush_one
flush_threads-lookup [] t a i h = refl
flush_threads-lookup (art_id ∷ ids) t a i h = elim (Bool-cases (eqb a art_id)) [
  | inl same ↦ ground (
    arith,
    flush_one-own art_id i t h,
    flush_threads-lookup ids (flush_one art_id t) a i (flush_one-IsCounted art_id t h),
  )
  | inr other ↦ ground (
    arith,
    flush_one-other art_id a i t,
    flush_threads-lookup ids (flush_one art_id t) a i (flush_one-IsCounted art_id t h),
  )
]

flush_threads-IsCounted :
    {A : Type 0} (ids : List ℕ) (t : Threads A) → IsCounted t → IsCounted (flush_threads ids t)
unfolding flush_threads flush_one
flush_threads-IsCounted [] t h = h
flush_threads-IsCounted (art_id ∷ ids) t h =
    flush_threads-IsCounted ids (flush_one art_id t) (flush_one-IsCounted art_id t h)

member-all_ids :
    {A : Type 0} (a : ℕ) (counts : Dict ℕ ℕ) (lists : Dict ℕ (List A))
    → member a (all_ids counts lists) ≡ (contains a counts || contains a lists)
unfolding all_ids
member-all_ids a [] [] = refl
member-all_ids a [] ((j, items) ∷ lists) =
    ground (arith, member-all_ids a [] lists, member-add j a (all_ids [] lists))
member-all_ids a ((j, n) ∷ counts) lists =
    ground (arith, member-all_ids a counts lists, member-add j a (all_ids counts lists))

abbrev flushed : {A : Type 0} → Threads A → Threads A
flushed t = flush_threads (all_ids t.counts t.lists) t

-- Each slot on disk holds the item at that place of its list, and there are no others.
abbrev pub IsWritten : {A : Type 0} → Threads A → Dict ℕ (List A) → Type 0
IsWritten t lists = (a i : ℕ) → lookup (a, i) t.disk ≡ get_elem? (list_of a lists) i

flushed-IsWritten :
    {A : Type 0} (t : Threads A)
    → IsCounted t
    → IsWritten (flushed t) t.lists × IsCounted (flushed t)
flushed-IsWritten t h = (
  λ a i. ground (
    arith,
    flush_threads-lookup (all_ids t.counts t.lists) t a i h,
    member-all_ids a t.counts t.lists,
    h a i,
  ),
  flush_threads-IsCounted (all_ids t.counts t.lists) t h,
)

-- If the stored counts cover what the disk holds, then after a flush the disk holds exactly the
-- comments, payouts and proofs of the lists in memory, each in the slot of its place and with nothing
-- left over from longer lists, and the new counts cover it again.
pub flush-IsWritten :
    (s : Registry)
    → IsCounted s.comments
    → IsCounted s.payouts
    → IsCounted s.proofs
    → (IsWritten (flush s).comments s.comments.lists × IsCounted (flush s).comments)
      × (IsWritten (flush s).payouts s.payouts.lists × IsCounted (flush s).payouts)
      × (IsWritten (flush s).proofs s.proofs.lists × IsCounted (flush s).proofs)
unfolding flush
flush-IsWritten s h h' h'' =
    (flushed-IsWritten s.comments h, flushed-IsWritten s.payouts h', flushed-IsWritten s.proofs h'')
