-- ===== src/Request/Sending.antt =====
-- request/request_process.cpp: process_write, and how the packets of one connection come to be sent:
-- append_back_data, the tasks of the thread pool, process_write, write and the one-shot interest
-- that modfd sets, while the connection is open. A move is one critical section or one system call of
-- one thread.
pub mod Guarded
pub mod Alone
pub mod Stranded
use didactic_pancake_server.Prelude.{
  ℕ, zero, suc, ◌+◌, ◌-◌, Bool, true, false, ◌&&◌, ◌||◌, not, List, [], ◌∷◌, ◌++◌, ◌≡◌,
  if◌then◌else◌,
}
use didactic_pancake_server.Request.Packet.{Packet}
use didactic_pancake_server.Request.Server.{
  Server, Kernel, rearm_read, rearm_write, update_conn, append_task,
}
use didactic_pancake_server.Request.Writer.{Armed, for_input, for_output, disarmed}

abbrev pub is_empty : List Packet → Bool
is_empty [] = true
is_empty (p ∷ ps) = false

-- process_write by a thread that no other interrupts; the flag is false again at its end.
unfoldable pub process_write : ℕ → Server → Server
unfolding update_conn append_task
process_write k s =
    let c = s.conns k in
    if c.is_process_write
    then append_task k 1 s
    else let s1 = update_conn k (λ d. record d { is_process_write = false }) s in
      if is_empty c.datas
      then s1
      else record s1 { kernel = s.kernel ++ (rearm_write c.sockfd ∷ []) }

-- m_datas, m_is_process_write and the interest of the socket; how many threads are between
-- append_back_data and append (appending), how many tasks of mode 1 there are for the connection up
-- to the test of the flag (tasks), how many threads are in process_write in front of and behind the
-- look at m_datas (entered, looked), in the loop of write and behind its break (writing, emptied),
-- and between an input event and the modfd at the end of process (reading). `dropped` says that the
-- pool refused a task or that send failed, `taken_back` that a modfd for input took back an interest
-- in output while packets waited.
pub record Sending : Type 0 where
  pub datas : List Packet
  pub is_process_write : Bool
  pub interest : Armed
  pub appending : ℕ
  pub tasks : ℕ
  pub entered : ℕ
  pub looked : ℕ
  pub writing : ℕ
  pub emptied : ℕ
  pub reading : ℕ
  pub dropped : Bool
  pub taken_back : Bool

-- A connection behind init and addfd, when no packet is left from an earlier one on its descriptor.
abbrev pub begun : Sending
begun = record {
  datas = [];
  is_process_write = false;
  interest = for_input;
  appending = 0;
  tasks = 0;
  entered = 0;
  looked = 0;
  writing = 0;
  emptied = 0;
  reading = 0;
  dropped = false;
  taken_back = false;
}

-- The first section of process_write: a thread that finds the flag set puts its task back.
unfoldable pub enter_write : Sending → Sending
enter_write w =
    if w.is_process_write
    then w
    else record w { is_process_write = true; tasks = w.tasks - 1; entered = suc w.entered }

-- The second: modfd for EPOLLOUT, if there are packets.
unfoldable pub look : Sending → Sending
look w =
    let w1 = record w { entered = w.entered - 1; looked = suc w.looked } in
    if is_empty w.datas then w1 else record w1 { interest = for_output }

-- The third.
unfoldable pub leave_write : Sending → Sending
leave_write w = record w { is_process_write = false; looked = w.looked - 1 }

-- modfd for EPOLLIN.
abbrev pub wants_output : Armed → Bool
wants_output for_input = false
wants_output for_output = true
wants_output disarmed = false

unfoldable pub arm_input : Sending → Sending
arm_input w = record w {
  interest = for_input;
  taken_back = w.taken_back || (wants_output w.interest && not (is_empty w.datas));
}

pub data Move : Sending → Sending → Type 0 where
  queues_back :
      {w : Sending} (p : Packet)
      → Move w (record w { datas = w.datas ++ (p ∷ []); appending = suc w.appending })
  queues_front :
      {w : Sending} (p : Packet)
      → Move w (record w { datas = p ∷ w.datas; appending = suc w.appending })
  calls :
      {w : Sending} (n : ℕ)
      → w.appending ≡ suc n
      → Move w (record w { appending = n; tasks = suc w.tasks })
  is_refused :
      {w : Sending} (n : ℕ)
      → w.appending ≡ suc n
      → Move w (record w { appending = n; dropped = true })
  enters : {w : Sending} (n : ℕ) → w.tasks ≡ suc n → Move w (enter_write w)
  put_back_refused :
      {w : Sending} (n : ℕ)
      → w.tasks ≡ suc n
      → w.is_process_write ≡ true
      → Move w (record w { tasks = n; dropped = true })
  looks : {w : Sending} (n : ℕ) → w.entered ≡ suc n → Move w (look w)
  leaves : {w : Sending} (n : ℕ) → w.looked ≡ suc n → Move w (leave_write w)
  output_comes :
      {w : Sending}
      → w.interest ≡ for_output
      → Move w (record w { interest = disarmed; writing = suc w.writing })
  sends_part :
      {w : Sending} (n sent : ℕ) (p : Packet) (before behind : List Packet)
      → w.writing ≡ suc n
      → w.datas ≡ before ++ (p ∷ behind)
      → Move w (record w {
        datas = before ++ (record p { byte_have_write = p.byte_have_write + sent } ∷ behind);
      })
  sends_rest :
      {w : Sending} (n : ℕ) (p : Packet) (before behind : List Packet)
      → w.writing ≡ suc n
      → w.datas ≡ before ++ (p ∷ behind)
      → Move w (record w { datas = before ++ behind })
  would_block :
      {w : Sending} (n : ℕ)
      → w.writing ≡ suc n
      → Move w (record w { interest = for_output; writing = n })
  send_fails :
      {w : Sending} (n : ℕ) → w.writing ≡ suc n → Move w (record w { writing = n; dropped = true })
  finds_empty :
      {w : Sending} (n : ℕ)
      → w.writing ≡ suc n
      → w.datas ≡ []
      → Move w (record w { writing = n; emptied = suc w.emptied })
  ends_write :
      {w : Sending} (n : ℕ) → w.emptied ≡ suc n → Move w (arm_input (record w { emptied = n }))
  input_comes :
      {w : Sending}
      → w.interest ≡ for_input
      → Move w (record w { interest = disarmed; reading = suc w.reading })
  ends_process :
      {w : Sending} (n : ℕ) → w.reading ≡ suc n → Move w (arm_input (record w { reading = n }))

pub data Moves : Sending → Sending → Type 0 where
  rests : {w : Sending} → Moves w w
  moves : {w w' w'' : Sending} → Moves w w' → Move w' w'' → Moves w w''
