-- ===== src/Locker/Exclusion.antt =====
-- Readers and writers under the lock of Locker.antt.
use didactic_pancake_server.Prelude.{
  ℕ, zero, suc, ◌+◌, ◌-◌, ◌<◌, Bool, false, ◌≡◌, ◌⊎◌, inl, inr, refl, arith, if◌then◌else◌,
}
use didactic_pancake_server.Locker.{
  Locker, count_up, count_down, Arrival, reader_comes, writer_comes, Move, counts, shuts_writers,
  enters, reader_goes, uncounts, admits_writers, leaves, writer_goes, Reach, start, comes, goes_on,
}

abbrev held : Bool → ℕ
held b = if b then 1 else 0

-- `shut` is whether the readers have m_write_mutex.
record Inv (w : Locker) (shut : ℕ) : Type 0 where
  one_inside : w.counting + w.first + w.entering + w.leaving + w.last + w.left ≡ held w.read_locked
  counted : w.read_cnt ≡ w.first + w.entering + w.reading + w.leaving
  owned : w.writing + shut ≡ held w.write_locked
  open_to_writers : (shut ≡ 0) ⊎ (w.first ≡ 0)
  readers_shut : (shut ≡ 1) ⊎ (w.entering + w.reading + w.leaving + w.last ≡ 0)
  shut_by_readers : (shut ≡ 0) ⊎ ((0 < w.read_cnt) ⊎ (w.last ≡ 1))
  last_reader : (w.last ≡ 0) ⊎ (w.read_cnt ≡ 0)

Holds : Locker → Type 0
Holds w = (shut : ℕ) × Inv w shut

Arrival-Inv : {w w' : Locker} (shut : ℕ) → Arrival w w' → Inv w shut → Inv w' shut
Arrival-Inv shut (reader_comes e) h = ground arith
Arrival-Inv shut (writer_comes e) h = ground arith

-- Whether the readers have m_write_mutex after a move.
shut_after : {w w' : Locker} → ℕ → Move w w' → ℕ
shut_after shut (shuts_writers n e free) = 1
shut_after shut (admits_writers n e) = 0
shut_after shut (counts n e) = shut
shut_after shut (enters n e) = shut
shut_after shut (reader_goes n e free) = shut
shut_after shut (uncounts n e) = shut
shut_after shut (leaves n e) = shut
shut_after shut (writer_goes n e) = shut

Move-Inv : {w w' : Locker} (shut : ℕ) (m : Move w w') → Inv w shut → Inv w' (shut_after shut m)
unfolding shut_after count_up count_down
Move-Inv shut (counts n e) h = ground arith
Move-Inv shut (shuts_writers n e free) h = ground arith
Move-Inv shut (enters n e) h = ground arith
Move-Inv shut (reader_goes n e free) h = ground arith
Move-Inv shut (uncounts n e) h = ground arith
Move-Inv shut (admits_writers n e) h = ground arith
Move-Inv shut (leaves n e) h = ground arith
Move-Inv shut (writer_goes n e) h = ground arith

Reach-Holds : {w : Locker} → Reach w → Holds w
unfolding Holds
Reach-Holds start = (0, ground arith)
Reach-Holds (comes r a) = let (shut, h) = Reach-Holds r in (shut, Arrival-Inv shut a h)
Reach-Holds (goes_on r m) = let (shut, h) = Reach-Holds r in (shut_after shut m, Move-Inv shut m h)

-- In every state that threads reach, at most one thread is past writeLock, and none is past readLock
-- then.
pub writer_excludes : {w : Locker} → Reach w → 0 < w.writing → (w.writing ≡ 1) × (w.reading ≡ 0)
unfolding Holds
writer_excludes r some_writer = let (shut, h) = Reach-Holds r in ground (arith, h)

-- The threads that have a mutex or are past a lock function.
abbrev pub inside : Locker → ℕ
inside w = w.counting + w.first + w.entering + w.reading + w.leaving + w.last + w.left + w.writing

ℕ-cases : (n : ℕ) → ((m : ℕ) × (n ≡ suc m)) ⊎ (n ≡ 0)
ℕ-cases zero = inr refl
ℕ-cases (suc n) = inl (n, refl)

-- With the readers only, at rest or in front of m_write_mutex.
readers-Move :
    (w : Locker) (shut : ℕ)
    → Inv w shut
    → w.counting + w.entering + w.leaving + w.last + w.left + w.writing ≡ 0
    → 0 < w.first + w.reading
    → (w' : Locker) × Move w w'
readers-Move w shut h quiet some_reader = elim (ℕ-cases w.first) [
  | inl (n, e) ↦
      let free : w.write_locked ≡ false = ground (arith, h) in (_, shuts_writers n e free)
  | inr none_first ↦
      let free : w.read_locked ≡ false = ground (arith, h) in
      (_, reader_goes (w.reading - 1) (omega arith) free)
]

-- No deadlock: while a thread has a mutex or is past a lock function, one of those can move.
pub no_deadlock : {w : Locker} → Reach w → 0 < inside w → (w' : Locker) × Move w w'
unfolding Holds
no_deadlock {w} r h = elim (ℕ-cases w.counting) [
  | inl (n, e) ↦ (_, counts n e)
  | inr a ↦ elim (ℕ-cases w.entering) [
    | inl (n, e) ↦ (_, enters n e)
    | inr b ↦ elim (ℕ-cases w.leaving) [
      | inl (n, e) ↦ (_, uncounts n e)
      | inr c ↦ elim (ℕ-cases w.last) [
        | inl (n, e) ↦ (_, admits_writers n e)
        | inr d ↦ elim (ℕ-cases w.left) [
          | inl (n, e) ↦ (_, leaves n e)
          | inr f ↦ elim (ℕ-cases w.writing) [
            | inl (n, e) ↦ (_, writer_goes n e)
            | inr g ↦
                let (shut, inv) = Reach-Holds r in
                readers-Move w shut inv (omega arith) (omega arith)
          ]
        ]
      ]
    ]
  ]
]
