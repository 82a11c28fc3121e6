-- ===== src/Chain/Reorg/Better.antt =====
-- `replace_with` and `swap_tip_if_better` of src/tsarchain/consensus/chain_ops.py against the order on
-- chains that they implement.
use graffiti_protocol.Base.{
  ℕ, ◌+◌, ◌<◌, ◌≤◌, ◌≡◌, ◌∙◌, ap, Bool, any, eqb, refl, arith, true, false, List, [], ◌∷◌, ◌++◌,
  none, some, length, last?, ◌⊎◌, inl, inr, Option-cases, length-append,
}
use graffiti_protocol.Config.{reorg_limit}
use graffiti_protocol.Ledger.{Block}
use graffiti_protocol.Difficulty.Work.{work_from_bits, chainwork_from, compute_chainwork_for_chain}
use graffiti_protocol.Chain.Native.{Native}
use graffiti_protocol.Chain.Validate.{validate_complete_chain}
use graffiti_protocol.Chain.Reorg.{
  accepted, ChainState, loses_tie, index_of, common_ancestor_height, is_deep_reorg,
  replacement_rejection, replace_with, init_of, beats_tip, is_valid_tip_candidate,
  swap_tip_if_better,
}

abbrev pub work_of : List Block → ℕ
work_of chain = (compute_chainwork_for_chain chain).0

abbrev has_hash : Native → ℕ → List Block → Bool
has_hash native h = any (λ (b : Block). eqb (native.hash b) h)

-- More work; or as much work in more blocks; or as much in as many, with the smaller tip hash.
abbrev pub IsBetter : Native → List Block → List Block → Type 0
IsBetter native theirs ours =
    (work_of ours < work_of theirs)
    ⊎ (work_of ours ≡ work_of theirs) × (length ours < length theirs)
    ⊎ (work_of ours ≡ work_of theirs)
      × (length ours ≡ length theirs)
      × ((o : Block) × (t : Block) × (last? ours ≡ some o)
          × (last? theirs ≡ some t)
          × (native.hash t < native.hash o))

-- The chains have no block of the same hash, or one with at most REORG_LIMIT of our blocks above it.
abbrev pub IsShallow : Native → List Block → List Block → Type 0
IsShallow native ours theirs =
    (any (λ b. has_hash native (native.hash b) ours) theirs ≡ false)
    ⊎ ((below : List Block) × (o : Block) × (above : List Block) × (ours ≡ below ++ o ∷ above)
        × (has_hash native (native.hash o) theirs ≡ true)
        × (length above ≤ reorg_limit))

length-chainwork_from : (cw : ℕ) (c : List Block) → length (chainwork_from cw c).1 ≡ length c
unfolding chainwork_from
length-chainwork_from cw [] = refl
length-chainwork_from cw (b ∷ c) =
    omega (arith, length-chainwork_from (cw + work_from_bits b.bits) c)

module _ (native : Native) where
  open native use {hash}

  -- The index that is found is that of a block with the hash.
  index_of-some :
      (h i j : ℕ) (chain : List Block)
      → index_of native h i chain ≡ some j
      → (below : List Block) × (o : Block) × (above : List Block) × (chain ≡ below ++ o ∷ above)
        × (hash o ≡ h)
        × (j ≡ i + length below)
  unfolding index_of
  index_of-some h i j [] e = absurd (ground arith)
  index_of-some h i j (b ∷ chain) e = elim (Option-cases (index_of native h (i + 1) chain)) [
    | inl last ↦ ([], b, chain, refl, ground arith, ground arith)
    | inr (k, later) ↦
        let (below, o, above, split, same, at) = index_of-some h (i + 1) k chain later in
        (b ∷ below, o, above, ap (λ l. b ∷ l) split, same, ground (arith, at))
  ]

  index_of-none :
      (h i : ℕ) (chain : List Block)
      → index_of native h i chain ≡ none
      → has_hash native h chain ≡ false
  unfolding index_of
  index_of-none h i [] e = refl
  index_of-none h i (b ∷ chain) e = elim (Option-cases (index_of native h (i + 1) chain)) [
    | inl none_later ↦ ground (arith, index_of-none h (i + 1) chain none_later)
    | inr (k, later) ↦ absurd (ground arith)
  ]

  common-some :
      (ours theirs : List Block) (j : ℕ)
      → common_ancestor_height native ours theirs ≡ some j
      → (h : ℕ) × (index_of native h 0 ours ≡ some j) × (has_hash native h theirs ≡ true)
  unfolding common_ancestor_height
  common-some ours [] j e = absurd (ground arith)
  common-some ours (b ∷ theirs) j e =
      elim (Option-cases (common_ancestor_height native ours theirs)) [
        | inl here ↦ (hash b, ground arith, ground arith)
        | inr (k, later) ↦
            let same : some k ≡ some j = ground arith in
            let (h, found, there) = common-some ours theirs j (later ∙ same) in
            (h, found, ground arith)
      ]

  common-none :
      (ours theirs : List Block)
      → common_ancestor_height native ours theirs ≡ none
      → any (λ b. has_hash native (hash b) ours) theirs ≡ false
  unfolding common_ancestor_height
  common-none ours [] e = refl
  common-none ours (b ∷ theirs) e =
      elim (Option-cases (common_ancestor_height native ours theirs)) [
        | inl none_later ↦ ground (
          arith,
          index_of-none (hash b) 0 ours (ground arith),
          common-none ours theirs none_later,
        )
        | inr (k, later) ↦ absurd (ground arith)
      ]

  is_deep_reorg-IsShallow :
      (ours theirs : List Block)
      → is_deep_reorg native ours theirs ≡ false
      → IsShallow native ours theirs
  unfolding is_deep_reorg
  is_deep_reorg-IsShallow ours theirs e =
      elim (Option-cases (common_ancestor_height native ours theirs)) [
        | inl apart ↦ inl (common-none ours theirs apart)
        | inr (j, fork) ↦
            let (h, found, there) = common-some ours theirs j fork in
            let (below, o, above, split, same, at) = index_of-some h 0 j ours found in
            let count : length ours ≡ length below + length (o ∷ above) =
              ap length split ∙ length-append below (o ∷ above) in
            inr (below, o, above, split, rw same there, ground (arith, count))
      ]

  loses_tie-won :
      (ours theirs : List Block)
      → loses_tie native ours theirs ≡ false
      → (o : Block) × (t : Block) × (last? ours ≡ some o)
        × (last? theirs ≡ some t)
        × (hash t < hash o)
  unfolding loses_tie
  loses_tie-won ours theirs e = elim (Option-cases (last? theirs)) [
    | inl nothing ↦ absurd (ground arith)
    | inr (t, theirs_end) ↦ elim (Option-cases (last? ours)) [
      | inl nothing ↦ absurd (ground arith)
      | inr (o, ours_end) ↦ (o, t, ours_end, theirs_end, ground arith)
    ]
  ]

  replacement-IsBetter :
      (ours theirs : List Block)
      → replacement_rejection native ours theirs ≡ none
      → (validate_complete_chain native theirs ≡ true)
        × IsBetter native theirs ours
        × IsShallow native ours theirs
  unfolding replacement_rejection
  replacement-IsBetter ours theirs e =
      let cases : (work_of ours < work_of theirs)
          ⊎ (work_of ours ≡ work_of theirs) × (length ours < length theirs)
          ⊎ (work_of ours ≡ work_of theirs)
            × (length ours ≡ length theirs)
            × (loses_tie native ours theirs ≡ false) =
        ground arith in
      let shallow : is_deep_reorg native ours theirs ≡ false = ground arith in
      (
        ground arith,
        elim cases [
          | inl more ↦ inl more
          | inr (inl longer) ↦ inr (inl longer)
          | inr (inr (work, length', won)) ↦
              inr (inr (work, length', loses_tie-won ours theirs won))
        ],
        is_deep_reorg-IsShallow ours theirs shallow,
      )

  -- A replacement goes through only for a valid chain that is strictly better: it has more work, or as
  -- much in more blocks, or as much in as many with the smaller tip hash. If the two chains have a block
  -- of the same hash at all, then they have one with at most REORG_LIMIT of our blocks above it; there
  -- is no limit for chains without one. Then the chain is the candidate, block by block.
  pub replace_with-IsBetter :
      (s s' : ChainState) (theirs : List Block) (supply : ℕ)
      → replace_with native s theirs supply ≡ accepted s'
      → (validate_complete_chain native theirs ≡ true)
        × IsBetter native theirs s.chain
        × IsShallow native s.chain theirs
        × (s'.chain ≡ (compute_chainwork_for_chain theirs).1)
        × (s'.total_blocks ≡ length theirs)
        × (s'.total_supply ≡ supply)
  unfolding replace_with compute_chainwork_for_chain
  replace_with-IsBetter s s' theirs supply e =
      elim (Option-cases (replacement_rejection native s.chain theirs)) [
        | inl none_found ↦
            ground (
              arith,
              replacement-IsBetter s.chain theirs none_found,
              length-chainwork_from 0 theirs,
            )
        | inr (why, found) ↦ absurd (ground arith)
      ]

  -- If one chain is better than another, the other is not better than it.
  IsBetter-asym :
      (ours theirs : List Block) → IsBetter native theirs ours → ¬ IsBetter native ours theirs
  IsBetter-asym ours theirs a b = ground (arith)

length-init_of :
    (c : List Block) (p : Block) → last? (init_of c) ≡ some p → length (init_of c) + 1 ≡ length c
length-init_of [] p e = ground arith
length-init_of (b ∷ []) p e = ground arith
length-init_of (b ∷ c ∷ []) p e = refl
length-init_of (b ∷ c ∷ d ∷ r) p e = omega (arith, length-init_of (c ∷ d ∷ r) p e)

module _ (native : Native) where
  open native use {hash}

  -- The tip of a chain is swapped only when the chain with the new tip is valid, and has more work than
  -- the old one or as much with the smaller tip hash; the chain keeps its length.
  pub swap_tip_if_better-length :
      (s s' : ChainState) (block tip : Block)
      → last? s.chain ≡ some tip
      → swap_tip_if_better native s block ≡ some s'
      → (validate_complete_chain native (init_of s.chain ++ block ∷ []) ≡ true)
        × (length s'.chain ≡ length s.chain)
        × ((work_of s.chain < work_of (init_of s.chain ++ block ∷ []))
            ⊎ (work_of s.chain ≡ work_of (init_of s.chain ++ block ∷ [])) × (hash block < hash tip))
  unfolding swap_tip_if_better is_valid_tip_candidate beats_tip compute_chainwork_for_chain
  swap_tip_if_better-length s s' block tip current_tip e =
      elim (Option-cases (last? (init_of s.chain))) [
        | inl short ↦ absurd (ground arith)
        | inr (p, parent) ↦
            let base = chainwork_from 0 (init_of s.chain) in
            let work = work_from_bits block.bits in
            let new : Block = record block {
              difficulty = work;
              chainwork = some (base.0 + work);
            } in
            (
              ground arith,
              ground (
                arith,
                length-append base.1 (new ∷ []),
                length-chainwork_from 0 (init_of s.chain),
                length-init_of s.chain p parent,
              ),
              ground arith,
            )
      ]
