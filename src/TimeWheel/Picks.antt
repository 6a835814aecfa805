-- ===== src/TimeWheel/Picks.antt =====
-- The timers of one address in the lists of TimeWheel.antt.
use native.Mathlib.Decide.{ℕ_discrete}
use didactic_pancake_server.Prelude.{
  ℕ, true, false, Option, none, some, List, [], ◌∷◌, ◌++◌, ◌==◌, ◌≡◌, ◌≢◌, refl, arith, ap, ◌∙◌,
  if_rule, if◌then◌else◌, Bool-cases, Option-cases, inl, inr,
}
use didactic_pancake_server.TimeWheel.{Timer, set_slot, set_user, unlink, expired, remaining}

-- The timers at address `id`.
unfoldable pub pick : ℕ → List Timer → List Timer
pick id [] = []
pick id (t ∷ ts) = let rest = pick id ts in if t.id == id then t ∷ rest else rest

pub pick-append : (id : ℕ) (a b : List Timer) → pick id (a ++ b) ≡ pick id a ++ pick id b
unfolding pick
pick-append id [] b = refl
pick-append id (t ∷ a) b = ground (arith, pick-append id a b)

pub pick-expired : (id : ℕ) (l : List Timer) → pick id (expired l) ≡ expired (pick id l)
unfolding pick expired
pick-expired id [] = refl
pick-expired id (t ∷ l) = ground (arith, pick-expired id l)

pub pick-remaining : (id : ℕ) (l : List Timer) → pick id (remaining l) ≡ remaining (pick id l)
unfolding pick remaining
pick-remaining id [] = refl
pick-remaining id (t ∷ l) = ground (arith, pick-remaining id l)

pub pick-set_user :
    (id other user : ℕ) (l : List Timer) → other ≢ id → pick id (set_user other user l) ≡ pick id l
unfolding pick set_user
pick-set_user id other user [] ne = refl
pick-set_user id other user (t ∷ l) ne = ground (arith, pick-set_user id other user l)

abbrev Keeps : ℕ → List Timer → Option (List Timer) → Type 0
Keeps id l none = Unit
Keeps id l (some rest) = pick id rest ≡ pick id l

unlink-Keeps : (id other : ℕ) (l : List Timer) → other ≢ id → Keeps id l (unlink other l)
unfolding pick unlink
unlink-Keeps id other [] ne = tt
unlink-Keeps id other (t ∷ l) ne = elim (Bool-cases (t.id == other)) [
  | inl here ↦
      let apart : (t.id == id) ≡ false = ground arith in rw (here, unlink) (rw (apart, pick) refl)
  | inr on ↦
      let ih : Keeps id l (unlink other l) = unlink-Keeps id other l ne in
      elim (Option-cases (unlink other l)) [
        | inl e ↦ rw (on, unlink, e) tt
        | inr (rest, e) ↦
            let same : pick id rest ≡ pick id l = rw e at ih in
            rw (on, unlink, e) (rw (pick, same) refl)
      ]
]

pub pick-unlink :
    (id other : ℕ) (l rest : List Timer)
    → other ≢ id
    → unlink other l ≡ some rest
    → pick id rest ≡ pick id l
pick-unlink id other l rest ne e =
    let kept : Keeps id l (unlink other l) = unlink-Keeps id other l ne in rw e at kept

-- A write to slot `s`, seen at one address.
pub pick-set_slot :
    (id s : ℕ) (l : List Timer) (slots f : ℕ → List Timer)
    → pick id l ≡ f s
    → ((j : ℕ) → s ≢ j → pick id (slots j) ≡ f j)
    → (j : ℕ) → pick id (set_slot s l slots j) ≡ f j
pick-set_slot id s l slots f here there j =
    if_rule (λ x. pick id x ≡ f j) (s == j)
      (λ e. let same : s ≡ j = ground arith in here ∙ ap f same) (λ e. there j (ground arith))

-- No timer at an address stays none.
pub pick-set_user_none :
    (id other user : ℕ) (l : List Timer) → pick id l ≡ [] → pick id (set_user other user l) ≡ []
unfolding pick set_user
pick-set_user_none id other user [] e = refl
pick-set_user_none id other user (t ∷ l) e = ground (arith, pick-set_user_none id other user l)

unlink-none : (id : ℕ) (l : List Timer) → pick id l ≡ [] → unlink id l ≡ none
unfolding pick unlink
unlink-none id [] e = refl
unlink-none id (t ∷ l) e = elim (Bool-cases (t.id == id)) [
  | inl here ↦ let found : t ∷ pick id l ≡ [] = rw here at e in absurd (cc found)
  | inr on ↦ let rest : pick id l ≡ [] = rw on at e in rw (on, unlink, unlink-none id l rest) refl
]

pub pick-unlink-none :
    (id other : ℕ) (l rest : List Timer)
    → pick id l ≡ []
    → unlink other l ≡ some rest
    → pick id rest ≡ []
pick-unlink-none id other l rest none_here e = elim (ℕ_discrete other id) [
  | yes same ↦
      let gone : unlink other l ≡ none = rw same (unlink-none id l none_here) in
      absurd (cc (e, gone))
  | no apart ↦ pick-unlink id other l rest apart e ∙ none_here
]

pub pick_first : (t : Timer) (l : List Timer) → pick t.id l ≡ [] → pick t.id (t ∷ l) ≡ t ∷ []
unfolding pick
pick_first t l e = let self : (t.id == t.id) ≡ true = ground arith in rw (self, e) refl
