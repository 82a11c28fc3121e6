-- ===== src/Base/Maps.antt =====
-- Python's dicts and sets as association lists, over any key with a Boolean equality.
-- A dict holds a key once; so that no lemma needs to say it, `erase` drops every entry of the key.
use Prim.Native.Nat.{ℕ}
use mathlib.Core.Path.{◌≡◌, refl}
use mathlib.Core.Logic.{◌↔◌}
use mathlib.Core.Bool.{Bool, true, false, ◌&&◌}
use mathlib.Core.List.{List, [], ◌∷◌}
use mathlib.Core.Option.{Option, none, some}
use native.Mathlib.Omega.{arith}
use graffiti_protocol.Base.Booleans.{eqb, eqb_iff, if◌then◌else◌}

-- What can be a key: `same` is Python's equality of two of them.
pub record Key {ℓ} (K : Type ℓ) : Type ℓ where
  pub same : K → K → Bool
  pub same_iff : (j k : K) → (same j k ≡ true) ↔ (j ≡ k)

abbrev pub ◌==◌ {ℓ} : {K : Type ℓ} ⦃key : Key K⦄ → K → K → Bool
◌==◌ ⦃key⦄ j k = key.same j k

infix 50 ◌==◌
instance abbrev pub nat_key : Key ℕ
nat_key = record { same = eqb; same_iff = eqb_iff }

abbrev pub pair_eqb : ℕ × ℕ → ℕ × ℕ → Bool
pair_eqb p q = eqb p.0 q.0 && eqb p.1 q.1

pub pair_eqb_iff : (p q : ℕ × ℕ) → (pair_eqb p q ≡ true) ↔ (p ≡ q)
pair_eqb_iff p q = (λ h. ground arith, λ h. ground arith)

instance abbrev pub pair_key : Key (ℕ × ℕ)
pair_key = record { same = pair_eqb; same_iff = pair_eqb_iff }

abbrev pub Dict {ℓ κ} : Type ℓ → Type κ → Type (ℓ ⊔ κ)
Dict K V = List (K × V)

module _ {ℓ κ} {K : Type ℓ} {V : Type κ} ⦃e : Key K⦄ where
  -- `d.get(k)`
  abbrev pub lookup : K → Dict K V → Option V
  lookup k [] = none
  lookup k ((j, v) ∷ d) = if j == k then some v else lookup k d

  -- `k in d`
  abbrev pub contains : K → Dict K V → Bool
  contains k d = elim (lookup k d) [ none ↦ false | some _ ↦ true ]

  -- `d[k] = v`
  abbrev pub insert : K → V → Dict K V → Dict K V
  insert k v [] = (k, v) ∷ []
  insert k v ((j, w) ∷ d) = if j == k then (k, v) ∷ d else (j, w) ∷ insert k v d

  -- `d.pop(k, None)`
  abbrev pub erase : K → Dict K V → Dict K V
  erase k [] = []
  erase k ((j, w) ∷ d) = if j == k then erase k d else (j, w) ∷ erase k d

  pub lookup-insert :
      (k j : K) (v : V) (d : Dict K V)
      → lookup j (insert k v d) ≡ (if k == j then some v else lookup j d)
  lookup-insert k j v [] = refl
  lookup-insert k j v ((i, w) ∷ d) =
      ground (arith, e.same_iff k j, e.same_iff i k, e.same_iff i j, lookup-insert k j v d)

  pub lookup-erase :
      (k j : K) (d : Dict K V) → lookup j (erase k d) ≡ (if k == j then none else lookup j d)
  lookup-erase k j [] = ground arith
  lookup-erase k j ((i, w) ∷ d) =
      ground (arith, e.same_iff k j, e.same_iff i k, e.same_iff i j, lookup-erase k j d)

module _ {ℓ} {K : Type ℓ} ⦃e : Key K⦄ where
  -- `k in s`
  abbrev pub member : K → List K → Bool
  member k [] = false
  member k (j ∷ s) = if j == k then true else member k s

  -- `s.add(k)`
  abbrev pub add : K → List K → List K
  add k s = if member k s then s else k ∷ s

  -- `s.discard(k)`
  abbrev pub discard : K → List K → List K
  discard k [] = []
  discard k (j ∷ s) = if j == k then discard k s else j ∷ discard k s

  same_refl : (k : K) → (k == k) ≡ true
  same_refl k = (e.same_iff k k).1 refl

  pub member-add :
      (k j : K) (s : List K) → member j (add k s) ≡ (if k == j then true else member j s)
  member-add k j s = ground (arith, e.same_iff k j)

  pub member-discard :
      (k j : K) (s : List K) → member j (discard k s) ≡ (if k == j then false else member j s)
  member-discard k j [] = ground arith
  member-discard k j (i ∷ s) =
      ground (arith, e.same_iff k j, e.same_iff i k, e.same_iff i j, member-discard k j s)

module _ {ℓ κ} {K : Type ℓ} {V : Type κ} ⦃e : Key K⦄ where
  pub lookup-insert_self : (k : K) (v : V) (d : Dict K V) → lookup k (insert k v d) ≡ some v
  lookup-insert_self k v d = ground (arith, lookup-insert k k v d, same_refl k)

  pub lookup-erase_self : (k : K) (d : Dict K V) → lookup k (erase k d) ≡ none
  lookup-erase_self k d = ground (arith, lookup-erase k k d, same_refl k)
