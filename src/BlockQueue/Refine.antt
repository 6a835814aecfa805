-- ===== src/BlockQueue/Refine.antt =====
-- The ring of BlockQueue.antt against the bounded queue of BlockQueue/Fifo.antt.
use mathlib.Core.Path.{ap₂, subst}
use native.Mathlib.Nat.{mod-add-mod, mod-lt}
use didactic_pancake_server.Prelude.{
  if_rule, Bool-cases, ℕ, zero, suc, ◌+◌, ◌-◌, ◌%◌, ◌≤◌, ◌<◌, true, false, Option, none, some, List,
  [], ◌∷◌, ◌++◌, length, length-append, length-set, replicate, get_elem?, get_elem?-set_self, set,
  leb, ◌==◌, ◌≡◌, refl, arith, ap, sym, ◌∙◌, if◌then◌else◌, inl, inr,
}
use didactic_pancake_server.BlockQueue.{
  BlockQueue, Reply, waits, says, gives, counts, next, read_at, construct, clear, full, empty, back,
  push, take_entry, Section, pushes, pops, pops_timed, pops_woken, clears, asks_full, asks_empty,
  asks_front, asks_back, asks_size, asks_max_size, run_section, replies,
}
use didactic_pancake_server.BlockQueue.Fifo.{
  IsOther, NoFront, pop_or, newest, is_nil, answer, answers,
}
use didactic_pancake_server.BlockQueue.Ring.{Stands, behind, Stands-set}

-- The entry that was pushed last is the newest of the list.
abbrev EndsIn {ℓ} : {A : Type ℓ} → Option A → List A → Type ℓ
EndsIn pushed [] = Unit
EndsIn pushed (x ∷ xs) = gives pushed ≡ newest (x ∷ xs)

-- The ring holds the list `xs`, which stands in the array behind the entry that was popped last.
record Holds {ℓ} {A : Type ℓ} (max : ℕ) (q : BlockQueue A) (xs : List A) : Type ℓ where
  same_max : q.max_size ≡ max
  positive : 0 < max
  whole : length q.array ≡ max
  counted : q.size ≡ length xs
  fits : length xs ≤ max
  start : next max q.front < max
  joined : next max q.back ≡ (next max q.front + length xs) % max
  stands : Stands max q.array (next max q.front) xs
  ends : EndsIn (read_at q.back q.array) xs

-- The replies are the same, and the ring that is left holds the list that is left.
abbrev Agrees {ℓ} : {A : Type ℓ} → ℕ → Reply A × BlockQueue A → Reply A × List A → Type ℓ
Agrees max (reply, q) (reply', xs) = (reply ≡ reply') × Holds max q xs

module _ {ℓ} {A : Type ℓ} (max : ℕ) (q : BlockQueue A) where
  EndsIn-append : (xs : List A) (item : A) → EndsIn (some item) (xs ++ (item ∷ []))
  EndsIn-append [] item = refl
  EndsIn-append (x ∷ []) item = refl
  EndsIn-append (x ∷ y ∷ xs) item = EndsIn-append (y ∷ xs) item

  push-Holds :
      (xs : List A) (item : A)
      → Holds max q xs
      → length xs < max
      → Holds max
          (record q {
            back = some (next max q.back);
            array = set q.array (next max q.back) item;
            size = q.size + 1;
          })
          (xs ++ (item ∷ []))
  push-Holds xs item h room =
      let j = next max q.back in
      let in_array : j < length q.array =
        omega (arith, h.whole, h.joined, mod-lt (next max q.front + length xs) h.positive) in
      let longer = length-append xs (item ∷ []) in
      record {
        same_max = h.same_max;
        positive = h.positive;
        whole = length-set q.array j item ∙ h.whole;
        counted = omega (arith, h.counted, longer);
        fits = omega (arith, longer);
        start = h.start;
        joined =
            ap (λ k. (k + 1) % max) h.joined
            ∙ mod-add-mod (next max q.front + length xs) max 1
            ∙ ap (λ k. k % max) (omega (arith, longer));
        stands =
            Stands-set max q.array (next max q.front) j xs item h.whole h.start room h.joined
              h.stands;
        ends = rw (get_elem?-set_self q.array j item in_array) (EndsIn-append xs item);
      }

  EndsIn-tail :
      (pushed : Option A) (x : A) (xs : List A) → EndsIn pushed (x ∷ xs) → EndsIn pushed xs
  EndsIn-tail pushed x [] e = tt
  EndsIn-tail pushed x (y ∷ xs) e = e

  popped-Holds :
      (i : ℕ) (x : A) (xs : List A)
      → i ≡ next max q.front
      → Holds max q (x ∷ xs)
      → Holds max (record q { front = some i; size = q.size - 1 }) xs
  popped-Holds i x xs at h =
      let step : (i + 1) % max ≡ (next max q.front + 1) % max = ap (λ k. (k + 1) % max) at in
      record {
        same_max = h.same_max;
        positive = h.positive;
        whole = h.whole;
        counted = omega (arith, h.counted);
        fits = omega (arith, h.fits);
        start = mod-lt (i + 1) h.positive;
        joined =
            h.joined
            ∙ sym (behind max (next max q.front) (length xs))
            ∙ ap (λ k. (k + length xs) % max) (sym step);
        stands = rw step h.stands.1;
        ends = EndsIn-tail (read_at q.back q.array) x xs h.ends;
      }

  take_entry-Agrees :
      (x : A) (xs : List A) (e : Reply A)
      → Holds max q (x ∷ xs)
      → Agrees max (take_entry q) (pop_or e (x ∷ xs))
  unfolding take_entry
  take_entry-Agrees x xs e h =
      let at : next q.max_size q.front ≡ next max q.front = ap (λ m. next m q.front) h.same_max in
      (
        ap gives (ap (get_elem? q.array) at ∙ h.stands.0),
        popped-Holds (next q.max_size q.front) x xs at h,
      )

  -- A pop that finds nothing answers `e` and changes nothing.
  pop_or-Agrees :
      (xs : List A) (e : Reply A)
      → Holds max q xs
      → Agrees max (if leb q.size 0 then (e, q) else take_entry q) (pop_or e xs)
  pop_or-Agrees [] e h =
      let none_left : leb q.size 0 ≡ true = ground (arith, h.counted) in rw none_left (refl, h)
  pop_or-Agrees (x ∷ xs) e h =
      let some_left : leb q.size 0 ≡ false = ground (arith, h.counted) in
      rw some_left (take_entry-Agrees x xs e h)

  push-Agrees :
      (xs : List A) (item : A)
      → Holds max q xs
      → Agrees max (push item q) (answer max (pushes item) xs)
  unfolding push answer
  push-Agrees xs item h =
      let test : leb q.max_size q.size ≡ leb max (length xs) =
        ap (λ m. leb m q.size) h.same_max ∙ ap (leb max) h.counted in
      let at : next q.max_size q.back ≡ next max q.back = ap (λ m. next m q.back) h.same_max in
      elim (Bool-cases (leb max (length xs))) [
        | inl e ↦ rw (test, e) (refl, h)
        | inr e ↦ rw (test, e, at) (refl, push-Holds xs item h (ground arith))
      ]

  clear-Holds : (xs : List A) → Holds max q xs → Holds max (clear q) []
  unfolding clear
  clear-Holds xs h = record {
    same_max = h.same_max;
    positive = h.positive;
    whole = h.whole;
    counted = refl;
    fits = omega arith;
    start = mod-lt 0 h.positive;
    joined = sym (mod-add-mod 0 max 0);
    stands = tt;
    ends = tt;
  }

  empty-Agrees : (xs : List A) → Holds max q xs → empty q ≡ is_nil xs
  unfolding empty
  empty-Agrees [] h = let e : (q.size == 0) ≡ true = ground (arith, h.counted) in rw e
  empty-Agrees (x ∷ xs) h = let e : (q.size == 0) ≡ false = ground (arith, h.counted) in rw e

  full-Agrees : (xs : List A) → Holds max q xs → full q ≡ leb max (length xs)
  unfolding full
  full-Agrees xs h = rw (h.same_max, h.counted) (ground arith)

  back-Agrees : (xs : List A) → Holds max q xs → back q ≡ newest xs
  unfolding back
  back-Agrees [] h = let e : (q.size == 0) ≡ true = ground (arith, h.counted) in rw e
  back-Agrees (x ∷ xs) h = let e : (q.size == 0) ≡ false = ground (arith, h.counted) in rw e h.ends

  run_section-Agrees :
      (s : Section A) (xs : List A)
      → IsOther s
      → Holds max q xs
      → Agrees max (run_section s q) (answer max s xs)
  unfolding run_section answer
  run_section-Agrees (pushes item) xs other h = push-Agrees xs item h
  run_section-Agrees pops xs other h = pop_or-Agrees xs waits h
  run_section-Agrees pops_timed xs other h = pop_or-Agrees xs waits h
  run_section-Agrees (pops_woken true) xs other h = pop_or-Agrees xs (says false) h
  run_section-Agrees (pops_woken false) xs other h = (refl, h)
  run_section-Agrees clears xs other h = (refl, clear-Holds xs h)
  run_section-Agrees asks_full xs other h = (ap says (full-Agrees xs h), h)
  run_section-Agrees asks_empty xs other h = (ap says (empty-Agrees xs h), h)
  run_section-Agrees asks_front xs other h = absurd other
  run_section-Agrees asks_back xs other h = (back-Agrees xs h, h)
  run_section-Agrees asks_size xs other h = (ap counts h.counted, h)
  run_section-Agrees asks_max_size xs other h = (ap counts h.same_max, h)

module _ {ℓ} {A : Type ℓ} where
  Holds-answers :
      (max : ℕ) (ss : List (Section A)) (q : BlockQueue A) (xs : List A)
      → NoFront ss
      → Holds max q xs
      → replies q ss ≡ answers max xs ss
  unfolding replies answers
  Holds-answers max [] q xs none_asked h = refl
  Holds-answers max (s ∷ ss) q xs (other, others) h =
      let (same, h') = run_section-Agrees max q s xs other h in
      ap₂ ◌∷◌ same (Holds-answers max ss (run_section s q).1 (answer max s xs).1 others h')

  length-replicate : (n : ℕ) (a : A) → length (replicate n a) ≡ n
  length-replicate zero a = refl
  length-replicate (suc n) a = ap suc (length-replicate n a)

  construct-Holds : (a : A) (max : ℕ) (q : BlockQueue A) → construct a max ≡ some q → Holds max q []
  unfolding construct
  construct-Holds a max q =
      let P : Option (BlockQueue A) → Type ℓ = λ out. out ≡ some q → Holds max q [] in
      let fresh : BlockQueue A = record {
        array = replicate max a;
        size = 0;
        max_size = max;
        front = none;
        back = none;
      } in
      if_rule P (leb max 0) (λ e h. absurd (cc h))
        (λ e h.
          let same : fresh ≡ q = cc in
          subst (λ x. Holds max x []) same
            (record {
              same_max = refl;
              positive = ground arith;
              whole = length-replicate max a;
              counted = refl;
              fits = omega arith;
              start = mod-lt 0 (ground arith);
              joined = sym (mod-add-mod 0 max 0);
              stands = tt;
              ends = tt;
            }))

  -- Whatever critical sections but `front` the threads go through on a queue that was constructed,
  -- and in whatever order, its replies are those of a first-in first-out queue of at most max_size
  -- entries.
  pub replies-answers :
      (a : A) (max : ℕ) (q : BlockQueue A) (ss : List (Section A))
      → NoFront ss
      → construct a max ≡ some q
      → replies q ss ≡ answers max [] ss
  replies-answers a max q ss other e = Holds-answers max ss q [] other (construct-Holds a max q e)
