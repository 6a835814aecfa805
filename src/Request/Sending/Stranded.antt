-- ===== src/Request/Sending/Stranded.antt =====
-- A run of Request/Sending.antt on one connection, while a worker reads a request of its client.
use didactic_pancake_server.Prelude.{false, List, [], ◌∷◌, ◌≡◌, refl}
use didactic_pancake_server.Request.Packet.{Packet}
use didactic_pancake_server.Request.Writer.{for_input, for_output}
use didactic_pancake_server.Request.Sending.{
  Sending, begun, enter_write, look, leave_write, arm_input, queues_back, calls, enters, looks,
  leaves, input_comes, ends_process, Moves, rests, moves,
}
use didactic_pancake_server.Request.Sending.Guarded.{under_way}

-- Packets wait, no thread or task will look at them, and the socket is armed for input alone,
-- though nothing failed.
pub record IsStranded (datas : List Packet) (w : Sending) : Type 0 where
  pub waits : w.datas ≡ datas
  pub nobody : under_way w ≡ 0
  pub no_reader : w.reading ≡ 0
  pub deaf : w.interest ≡ for_input
  pub not_dropped : w.dropped ≡ false

-- The flag is free again and process has not ended.
abbrev queued : Packet → Sending
queued p = record begun { datas = p ∷ []; interest = for_output; reading = 1 }

queued-Moves : (p : Packet) → Moves begun (queued p)
unfolding enter_write look leave_write
queued-Moves p =
    moves
      (moves
        (moves (moves (moves (moves rests (input_comes refl)) (queues_back p)) (calls 0 refl))
          (enters 0 refl))
        (looks 0 refl))
      (leaves 0 refl)

-- A reply can be left behind: for every packet there is a run, in which neither the pool nor send
-- fails, to a state in which the packet waits while no thread or task will look at it and the socket
-- is armed for input alone.
pub reply-IsStranded : (p : Packet) → (w : Sending) × Moves begun w × IsStranded (p ∷ []) w
unfolding arm_input
reply-IsStranded p = (
  arm_input (record (queued p) { reading = 0 }),
  moves (queued-Moves p) (ends_process 0 refl),
  record { waits = refl; nobody = refl; no_reader = refl; deaf = refl; not_dropped = refl },
)
