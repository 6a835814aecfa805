-- ===== src/BlockQueue.antt =====
-- log/block_queue.h: block_queue, a ring of a fixed number of entries behind a mutex. One function
-- stands for one critical section, from `lock` to `unlock` or to a wait on the condition variable.
pub mod Fifo
pub mod Ring
pub mod Refine
use didactic_pancake_server.Prelude.{
  ℕ, zero, suc, ◌+◌, ◌-◌, ◌%◌, ◌/◌, ◌*◌, Bool, true, false, Option, none, some, List, [], ◌∷◌,
  get_elem?, set, replicate, leb, ◌==◌, if◌then◌else◌,
}

-- `none` stands for the index -1.
pub record BlockQueue {ℓ} (A : Type ℓ) : Type ℓ where
  pub array : List A
  pub size : ℕ
  pub max_size : ℕ
  pub front : Option ℕ
  pub back : Option ℕ

-- What a section tells the caller: a Boolean, `true` with the entry that it hands out (`none` for a
-- read outside of the array), a number, or that the thread waits on m_cond.
pub data Reply {ℓ} (A : Type ℓ) : Type ℓ where
  waits : Reply A
  says : Bool → Reply A
  gives : Option A → Reply A
  counts : ℕ → Reply A

-- (i + 1) % m_max_size
abbrev pub next : ℕ → Option ℕ → ℕ
next max none = 0 % max
next max (some i) = (i + 1) % max

module _ {ℓ} {A : Type ℓ} where
  -- The constructor: `none` where it ends the process. `a` is what `new T[max_size]` puts in.
  unfoldable pub construct : A → ℕ → Option (BlockQueue A)
  construct a max =
      if leb max 0
      then none
      else some
          (record { array = replicate max a; size = 0; max_size = max; front = none; back = none })

  unfoldable pub clear : BlockQueue A → BlockQueue A
  clear q = record q { size = 0; front = none; back = none }

  unfoldable pub full : BlockQueue A → Bool
  full q = if leb q.max_size q.size then true else false

  unfoldable pub empty : BlockQueue A → Bool
  empty q = if q.size == 0 then true else false

  -- m_array[i]
  abbrev pub read_at : Option ℕ → List A → Option A
  read_at none array = none
  read_at (some i) array = get_elem? array i

  unfoldable pub front : BlockQueue A → Reply A
  front q = if q.size == 0 then says false else gives (read_at q.front q.array)

  unfoldable pub back : BlockQueue A → Reply A
  back q = if q.size == 0 then says false else gives (read_at q.back q.array)

  unfoldable pub push : A → BlockQueue A → Reply A × BlockQueue A
  push item q =
      let i = next q.max_size q.back in
      if leb q.max_size q.size
      then (says false, q)
      else (says true, record q { back = some i; array = set q.array i item; size = q.size + 1 })

  -- The end of both versions of `pop`.
  unfoldable pub take_entry : BlockQueue A → Reply A × BlockQueue A
  take_entry q =
      let i = next q.max_size q.front in
      (gives (get_elem? q.array i), record q { front = some i; size = q.size - 1 })

  -- `pop(item)` from one test of its loop on: it waits, or returns.
  unfoldable pub pop : BlockQueue A → Reply A × BlockQueue A
  unfolding take_entry
  pop q = if leb q.size 0 then (waits, q) else take_entry q

  -- `pop(item, ms_timeout)` up to the wait, and from the return of the wait on.
  unfoldable pub pop_timed : BlockQueue A → Reply A × BlockQueue A
  unfolding take_entry
  pop_timed q = if leb q.size 0 then (waits, q) else take_entry q

  unfoldable pub pop_woken : Bool → BlockQueue A → Reply A × BlockQueue A
  unfolding take_entry
  pop_woken woken q =
      if woken then (if leb q.size 0 then (says false, q) else take_entry q) else (says false, q)

-- The deadline of `pop(item, ms_timeout)`: seconds and nanoseconds.
unfoldable pub deadline : ℕ → ℕ → ℕ × ℕ
deadline now_sec ms = (now_sec + ms / 1000, ms % 1000 * 1000)

-- A critical section, by the call that makes it.
pub data Section {ℓ} (A : Type ℓ) : Type ℓ where
  pushes : A → Section A
  pops : Section A
  pops_timed : Section A
  pops_woken : Bool → Section A
  clears : Section A
  asks_full : Section A
  asks_empty : Section A
  asks_front : Section A
  asks_back : Section A
  asks_size : Section A
  asks_max_size : Section A

module _ {ℓ} {A : Type ℓ} where
  unfoldable pub run_section : Section A → BlockQueue A → Reply A × BlockQueue A
  unfolding push pop pop_timed pop_woken clear full empty front back
  run_section (pushes item) q = push item q
  run_section pops q = pop q
  run_section pops_timed q = pop_timed q
  run_section (pops_woken woken) q = pop_woken woken q
  run_section clears q = (says true, clear q)
  run_section asks_full q = (says (full q), q)
  run_section asks_empty q = (says (empty q), q)
  run_section asks_front q = (front q, q)
  run_section asks_back q = (back q, q)
  run_section asks_size q = (counts q.size, q)
  run_section asks_max_size q = (counts q.max_size, q)

  -- The sections of all threads in the order in which they take the mutex.
  unfoldable pub replies : BlockQueue A → List (Section A) → List (Reply A)
  replies q [] = []
  replies q (s ∷ ss) = let (reply, q') = run_section s q in reply ∷ replies q' ss
