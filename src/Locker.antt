-- ===== src/Locker.antt =====
-- locker/locker.h: readWriteLocker. A move is one statement of one thread: a lock of a mutex that is
-- free, an unlock, or a step of readCnt with the test on it.
pub mod Exclusion
use didactic_pancake_server.Prelude.{
  ℕ, zero, suc, ◌+◌, ◌-◌, Bool, true, false, ◌==◌, ◌≡◌, if◌then◌else◌,
}

-- The members, and how many threads stand at each point of the four functions: in readLock with
-- m_read_mutex and before ++readCnt (counting), before the lock of m_write_mutex (first), before
-- the unlock of m_read_mutex (entering); past readLock (reading); in readUnlock with m_read_mutex
-- and before --readCnt (leaving), before the unlock of m_write_mutex (last), before the unlock of
-- m_read_mutex (left); past writeLock (writing).
pub record Locker : Type 0 where
  pub read_locked : Bool
  pub write_locked : Bool
  pub read_cnt : ℕ
  pub counting : ℕ
  pub first : ℕ
  pub entering : ℕ
  pub reading : ℕ
  pub leaving : ℕ
  pub last : ℕ
  pub left : ℕ
  pub writing : ℕ

-- The constructor.
abbrev pub read_write_locker : Locker
read_write_locker = record {
  read_locked = false;
  write_locked = false;
  read_cnt = 0;
  counting = 0;
  first = 0;
  entering = 0;
  reading = 0;
  leaving = 0;
  last = 0;
  left = 0;
  writing = 0;
}

-- if (++readCnt == 1), by a thread that stands in front of it.
unfoldable pub count_up : Locker → Locker
count_up w =
    if w.read_cnt + 1 == 1
    then record w { read_cnt = w.read_cnt + 1; counting = w.counting - 1; first = suc w.first }
    else record w {
      read_cnt = w.read_cnt + 1;
      counting = w.counting - 1;
      entering = suc w.entering;
    }

-- if (--readCnt == 0)
unfoldable pub count_down : Locker → Locker
count_down w =
    if w.read_cnt - 1 == 0
    then record w { read_cnt = w.read_cnt - 1; leaving = w.leaving - 1; last = suc w.last }
    else record w { read_cnt = w.read_cnt - 1; leaving = w.leaving - 1; left = suc w.left }

-- A thread calls readLock or writeLock and gets its first mutex.
pub data Arrival : Locker → Locker → Type 0 where
  reader_comes :
      {w : Locker}
      → w.read_locked ≡ false
      → Arrival w (record w { read_locked = true; counting = suc w.counting })
  writer_comes :
      {w : Locker}
      → w.write_locked ≡ false
      → Arrival w (record w { write_locked = true; writing = suc w.writing })

-- A thread that has a mutex, or is past one of the lock functions, goes on.
pub data Move : Locker → Locker → Type 0 where
  counts : {w : Locker} (n : ℕ) → w.counting ≡ suc n → Move w (count_up w)
  shuts_writers :
      {w : Locker} (n : ℕ)
      → w.first ≡ suc n
      → w.write_locked ≡ false
      → Move w (record w { write_locked = true; first = n; entering = suc w.entering })
  enters :
      {w : Locker} (n : ℕ)
      → w.entering ≡ suc n
      → Move w (record w { read_locked = false; entering = n; reading = suc w.reading })
  reader_goes :
      {w : Locker} (n : ℕ)
      → w.reading ≡ suc n
      → w.read_locked ≡ false
      → Move w (record w { read_locked = true; reading = n; leaving = suc w.leaving })
  uncounts : {w : Locker} (n : ℕ) → w.leaving ≡ suc n → Move w (count_down w)
  admits_writers :
      {w : Locker} (n : ℕ)
      → w.last ≡ suc n
      → Move w (record w { write_locked = false; last = n; left = suc w.left })
  leaves :
      {w : Locker} (n : ℕ) → w.left ≡ suc n → Move w (record w { read_locked = false; left = n })
  writer_goes :
      {w : Locker} (n : ℕ)
      → w.writing ≡ suc n
      → Move w (record w { write_locked = false; writing = n })

pub data Reach : Locker → Type 0 where
  start : Reach read_write_locker
  comes : {w w' : Locker} → Reach w → Arrival w w' → Reach w'
  goes_on : {w w' : Locker} → Reach w → Move w w' → Reach w'
