-- ===== src/Rewards/Sums.antt =====
-- The subsidy's schedule as a plain sum, and how it changes with the height.
use graffiti_protocol.Base.{
  ℕ, zero, suc, ◌+◌, ◌*◌, ◌/◌, ◌^◌, ◌≤◌, ◌<◌, ◌≡◌, arith, pos, refl, ap, ◌∙◌,
}
use graffiti_protocol.Config.{blocks_per_halving, initial_reward}
use graffiti_protocol.Rewards.{scheduled_reward}
use native.Mathlib.Nat.{
  add-zero, zero-add, add-suc, add_assoc, le_trans, le-div_iff_mul-le, one-le-pow, pow-le-pow_right,
  div-mul-le_self, mul-le-mul_left,
}

-- The scheduled rewards of the `n` blocks from height `h` on, added up one by one.
unfoldable pub scheduled_sum : ℕ → ℕ → ℕ
scheduled_sum h zero = 0
scheduled_sum h (suc n) = scheduled_sum h n + scheduled_reward (pos (h + n))

div_pow_antitone : (a : ℕ) {m n : ℕ} → m ≤ n → a / 2 ^ n ≤ a / 2 ^ m
div_pow_antitone a {m} {n} h = (le-div_iff_mul-le (one-le-pow m 2 (omega arith))).1 (
    le_trans (mul-le-mul_left (a / 2 ^ n) (pow-le-pow_right {n = 2} (omega arith) h))
      (div-mul-le_self a (2 ^ n)))

-- Within an epoch the reward stays the same.
scheduled_reward-epoch :
    (h i : ℕ)
    → 0 < h
    → h + i < (h / blocks_per_halving + 1) * blocks_per_halving
    → scheduled_reward (pos (h + i)) ≡ scheduled_reward (pos h)
unfolding scheduled_reward
scheduled_reward-epoch h i p q =
    let e : (h + i) / blocks_per_halving ≡ h / blocks_per_halving = omega arith in
    rw e (ground arith)

-- After block zero the reward never rises.
scheduled_reward_antitone :
    (h i : ℕ) → 0 < h → scheduled_reward (pos (h + i)) ≤ scheduled_reward (pos h)
unfolding scheduled_reward
scheduled_reward_antitone h i p =
    let e : h / blocks_per_halving ≤ (h + i) / blocks_per_halving = omega arith in
    ground (arith, div_pow_antitone initial_reward e)

-- Within an epoch the sum is a product.
pub scheduled_sum-epoch :
    (h n : ℕ)
    → 0 < h
    → h + n ≤ (h / blocks_per_halving + 1) * blocks_per_halving
    → scheduled_sum h n ≡ n * scheduled_reward (pos h)
unfolding scheduled_sum
scheduled_sum-epoch h zero p q = omega arith
scheduled_sum-epoch h (suc n) p q =
    omega
      (arith, scheduled_sum-epoch h n p (omega arith), scheduled_reward-epoch h n p (omega arith))

pub scheduled_sum-split :
    (h n m : ℕ) → scheduled_sum h (n + m) ≡ scheduled_sum h n + scheduled_sum (h + n) m
unfolding scheduled_sum
scheduled_sum-split h n zero = ap (scheduled_sum h) (add-zero n) ∙ omega arith
scheduled_sum-split h n (suc m) =
    rw (add-suc n m, add_assoc h n m) (omega (arith, scheduled_sum-split h n m))

-- Once the reward is zero nothing more is added.
pub scheduled_sum_ended : (h n : ℕ) → 0 < h → scheduled_reward (pos h) ≡ 0 → scheduled_sum h n ≡ 0
unfolding scheduled_sum
scheduled_sum_ended h zero p z = refl
scheduled_sum_ended h (suc n) p z =
    omega (arith, scheduled_sum_ended h n p z, scheduled_reward_antitone h n p)

pub scheduled_sum_zero : (h : ℕ) → scheduled_sum h 0 ≡ 0
unfolding scheduled_sum
scheduled_sum_zero h = refl

pub scheduled_sum_next :
    (h : ℕ) → scheduled_sum 0 (suc h) ≡ scheduled_sum 0 h + scheduled_reward (pos h)
unfolding scheduled_sum
scheduled_sum_next h = rw zero-add refl

pub scheduled_sum_one : (h : ℕ) → scheduled_sum h 1 ≡ scheduled_reward (pos h)
unfolding scheduled_sum
scheduled_sum_one h = rw (add-zero h) (omega arith)

pub scheduled_sum_first :
    (n : ℕ) → scheduled_sum 0 (1 + n) ≡ scheduled_reward (pos 0) + scheduled_sum 1 n
scheduled_sum_first n = omega (arith, scheduled_sum-split 0 1 n, scheduled_sum_one 0)
