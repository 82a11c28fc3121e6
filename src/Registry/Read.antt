-- ===== src/Registry/Read.antt =====
-- The operations that read, of src/tsarchain/contracts/graffiti_registry.py.
use graffiti_protocol.Base.{
  ℕ, Bool, true, List, [], ◌∷◌, Option, none, some, ltb, eqb, ◌||◌, ◌&&◌, take, drop, if◌then◌else◌,
  lookup, nat_key,
}
use graffiti_protocol.Registry.Data.{Post, Comment, Payout, Proof, Registry, list_of}
use graffiti_protocol.Registry.Record.{is_proof_of}

unfoldable pub get_post : ℕ → Registry → Option Post
get_post art_id s = lookup art_id s.posts

unfoldable pub find_proof : ℕ → ℕ → List Proof → Option Proof
find_proof storer epoch [] = none
find_proof storer epoch (item ∷ items) =
    if is_proof_of storer epoch item then some item else find_proof storer epoch items

unfoldable pub get_proof : ℕ → ℕ → ℕ → Registry → Option Proof
unfolding find_proof
get_proof art_id storer epoch s =
    if eqb art_id 0 || eqb storer 0
    then none
    else find_proof storer epoch (list_of art_id s.proofs.lists)

-- `items.sort(key=…, reverse=True)` for a key of two numbers; equal items keep their order.
module _ {A : Type 0} (key : A → ℕ × ℕ) where
  unfoldable key_lt : A → A → Bool
  key_lt a b = ltb (key a).0 (key b).0 || eqb (key a).0 (key b).0 && ltb (key a).1 (key b).1

  unfoldable pub insert_desc : A → List A → List A
  unfolding key_lt
  insert_desc a [] = a ∷ []
  insert_desc a (b ∷ items) = if key_lt a b then b ∷ insert_desc a items else a ∷ b ∷ items

  unfoldable pub sort_desc : List A → List A
  unfolding insert_desc
  sort_desc [] = []
  sort_desc (a ∷ items) = insert_desc a (sort_desc items)

-- `items[:limit]` for a positive limit.
abbrev limited : {A : Type 0} → ℕ → List A → List A
limited limit items = if ltb 0 limit then take limit items else items

unfoldable pub of_storer : Option ℕ → List Proof → List Proof
of_storer storer [] = []
of_storer storer (p ∷ items) =
    let wanted : Bool = elim storer [
      | none ↦ true
      | some x ↦ if eqb x 0 then true else eqb p.storer x
    ] in
    if wanted then p ∷ of_storer storer items else of_storer storer items

unfoldable pub get_latest_proof : ℕ → Option ℕ → Registry → Option Proof
unfolding of_storer sort_desc
get_latest_proof art_id storer s =
    elim (sort_desc (λ (p : Proof). (p.epoch, p.ts))
      (of_storer storer (list_of art_id s.proofs.lists))) [ [] ↦ none | p ∷ _ ↦ some p ]

-- `none` is -1.
unfoldable pub get_latest_proof_epoch : ℕ → Option ℕ → Registry → Option ℕ
unfolding get_latest_proof
get_latest_proof_epoch art_id storer s = elim (get_latest_proof art_id storer s) [
  | none ↦ none
  | some p ↦ some p.epoch
]

unfoldable list_payouts : ℕ → ℕ → Registry → List Payout
unfolding sort_desc
list_payouts art_id limit s =
    limited limit (sort_desc (λ (p : Payout). (p.block_height, 0)) (list_of art_id s.payouts.lists))

unfoldable list_posts : ℕ → ℕ → Registry → List (ℕ × Post)
unfolding sort_desc
list_posts limit offset s =
    limited limit (drop offset (sort_desc (λ (e : ℕ × Post). (e.1.block_height, e.1.ts)) s.posts))

unfoldable list_comments : ℕ → ℕ → Registry → List Comment
unfolding sort_desc
list_comments art_id limit s =
    if eqb art_id 0
    then []
    else limited limit
        (sort_desc (λ (c : Comment). (c.block_height, c.ts)) (list_of art_id s.comments.lists))
