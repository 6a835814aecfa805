-- ===== src/ThreadPool/Construct.antt =====
-- The constructor of the pool of ThreadPool.antt.
use didactic_pancake_server.Prelude.{
  ℕ, zero, suc, ◌<◌, Bool, true, Bool-cases, inl, inr, some, [], ◌≡◌, refl, arith, ap, ◌∙◌, ◌⊎◌,
}
use didactic_pancake_server.ThreadPool.{ThreadPool, all_created, construct}

-- What the constructor makes.
abbrev pub fresh_pool : ℕ → ℕ → ThreadPool
fresh_pool n max = record { thread_number = n; max_requests = max; workqueue = []; queuestat = 0 }

all_created-true :
    (creates : ℕ → Bool) (n : ℕ)
    → ((i : ℕ) → i < n → creates i ≡ true)
    → all_created creates n ≡ true
all_created-true creates zero h = refl
all_created-true creates (suc n) h =
    rw (h n (omega arith)) (all_created-true creates n (λ i less. h i (omega arith)))

last-cases : (i n : ℕ) → i < suc n → (i ≡ n) ⊎ (i < n)
last-cases i n less = ground arith

created-true :
    (creates : ℕ → Bool) (n i : ℕ) → all_created creates n ≡ true → i < n → creates i ≡ true
created-true creates zero i h less = absurd (omega arith)
created-true creates (suc n) i h less = elim (Bool-cases (creates n)) [
  | inl e ↦ elim (last-cases i n less) [
    | inl same ↦ ap creates same ∙ e
    | inr before ↦ created-true creates n i (rw e at h) before
  ]
  | inr e ↦ absurd (cc (rw e at h))
]

-- Every thread can be created and detached, and there is at least one.
pub construct_lem :
    (creates : ℕ → Bool) (n max : ℕ)
    → ((i : ℕ) → i < suc n → creates i ≡ true)
    → construct creates (suc n) (suc max) ≡ some (fresh_pool (suc n) (suc max))
unfolding construct
construct_lem creates n max h =
    let e : all_created creates (suc n) ≡ true = all_created-true creates (suc n) h in
    ground (arith, e)

-- The constructor gives a pool only when there is at least one thread and all could be created.
pub record IsConstructed (creates : ℕ → Bool) (n max : ℕ) (p : ThreadPool) : Type 0 where
  pub fewer : ℕ
  pub positive : n ≡ suc fewer
  pub created : (i : ℕ) → i < n → creates i ≡ true
  pub fresh : p ≡ fresh_pool n max

pub construct-IsConstructed :
    (creates : ℕ → Bool) (n max : ℕ) (p : ThreadPool)
    → construct creates n max ≡ some p
    → IsConstructed creates n max p
unfolding construct
construct-IsConstructed creates zero max p e = absurd (cc e)
construct-IsConstructed creates (suc n) max p e = elim (Bool-cases (all_created creates (suc n))) [
  | inl yes_all ↦ record {
    fewer = n;
    positive = refl;
    created = λ i less. created-true creates (suc n) i yes_all less;
    fresh = ground (arith, yes_all, e);
  }
  | inr failed ↦ absurd (ground (arith, failed, e))
]
