-- ===== src/Request/EndToEnd.antt =====
-- request/request_process.cpp from recv to send: what read, process and write make of the packets of a
-- client, by Request/Reader.antt, Request/History.antt and Request/Writer.antt.
use didactic_pancake_server.Prelude.{
  ltb, ℕ, ◌+◌, ◌<◌, Bytes, Bool, true, false, some, List, [], ◌∷◌, ◌++◌, map, length, length-append,
  take, take-append, drop, ◌==◌, ◌≡◌, refl, arith, ap, sym, ◌∙◌, append_assoc, append-nil,
}
use didactic_pancake_server.Request.Packet.{PacketType}
use didactic_pancake_server.Request.Server.{Server, Inputs}
use didactic_pancake_server.Request.History.{serve}
use didactic_pancake_server.Request.Reader.{
  Reader, ResultCode, get_request, init_read, read_buffer_size,
}
use didactic_pancake_server.Request.Reader.Process.{done, process}
use didactic_pancake_server.Request.Reader.Input.{
  Recv, again, got, receive, receive_all, room, take_all, read,
}
use didactic_pancake_server.Request.Reader.Headed.{IsFresh}
use didactic_pancake_server.Request.Reader.Pipeline.{
  print_all, AllSendable, request_of, process-serve,
}

-- The results of recv for bytes that come in these pieces, and then EAGAIN.
abbrev pub recv_of : List Bytes → Recv
recv_of [] = again
recv_of (c ∷ cs) = got c (recv_of cs)

abbrev pub joined : List Bytes → Bytes
joined [] = []
joined (c ∷ cs) = c ++ joined cs

abbrev pub AllFull : List Bytes → Type 0
AllFull [] = Unit {0}
AllFull (c ∷ cs) = (0 < length c) × AllFull cs

-- A reader that waits for its first packet, with these bytes in its buffer.
pub record Waits (pre : Bytes) (r : Reader) : Type 0 where
  pub fresh : IsFresh r
  pub at_start : r.checked_idx ≡ 0
  pub counted : r.read_idx ≡ length pre
  pub held : (rest : Bytes) × (r.read_buf ≡ pre ++ rest)

receive-Waits : (pre c : Bytes) (r : Reader) → Waits pre r → Waits (pre ++ c) (receive c r)
unfolding receive
receive-Waits pre c r h =
    let rest = h.held.0 in
    let old : take r.read_idx r.read_buf ≡ pre =
      ap (λ n. take n r.read_buf) h.counted
      ∙ ap (take (length pre)) h.held.1
      ∙ take-append pre rest in
    let behind = drop (r.read_idx + length c) r.read_buf in
    record {
      fresh = record {
        waits = h.fresh.waits;
        starts = h.fresh.starts;
        unread = h.fresh.unread;
        empty = h.fresh.empty;
      };
      at_start = h.at_start;
      counted = omega (arith, h.counted, length-append pre c);
      held = (behind, ap (λ x. x ++ (c ++ behind)) old ∙ sym (append_assoc pre c behind));
    }

pub record Received (pre : Bytes) (out : Bool × Reader) : Type 0 where
  pub goes_on : out.0 ≡ true
  pub waits : Waits pre out.1

pub receive_all-Received :
    (cs : List Bytes) (pre : Bytes) (r : Reader)
    → AllFull cs
    → length pre + length (joined cs) < read_buffer_size
    → Waits pre r
    → Received (pre ++ joined cs) (receive_all (recv_of cs) r)
unfolding receive_all
receive_all-Received [] pre r full fits h = record {
  goes_on = ground (arith, h.counted);
  waits = rw append-nil h;
}
receive_all-Received (c ∷ cs) pre r (some_bytes, full) fits h =
    let size = length-append c (joined cs) in
    let taken : take (room r) c ≡ c = take_all (room r) c (omega (arith, h.counted, size)) in
    let more : (length c == 0) ≡ false = ground arith in
    let enough : ltb (room r) (length c) ≡ false = ground (arith, h.counted, size) in
    rw (taken, more, enough)
      (rw (← append_assoc pre c (joined cs)) (
        receive_all-Received cs (pre ++ c) (receive c r) full
          (omega (arith, size, length-append pre c)) (receive-Waits pre c r h)))

pub init_read-Waits : Waits [] init_read
init_read-Waits = record {
  fresh = record { waits = refl; starts = refl; unread = refl; empty = refl };
  at_start = refl;
  counted = refl;
  held = (init_read.read_buf, refl);
}

-- The bytes of packets, at least one, come in any pieces in one call of read under edge triggering;
-- they are fewer than the buffer has. Then read succeeds, and process serves the requests that the
-- client sent, in order, if the handlers return, and leaves the reader as at first.
pub read-process-serve :
    (env : Inputs) (me : ℕ) (code : ResultCode) (cs : List Bytes) (p : PacketType) (text : Bytes)
    (ps : List (PacketType × Bytes)) (s s' : Server)
    → AllSendable ((p, text) ∷ ps)
    → AllFull cs
    → joined cs ≡ print_all ((p, text) ∷ ps)
    → length (joined cs) < read_buffer_size
    → serve (map (request_of env me) ((p, text) ∷ ps)) s ≡ some s'
    → ((read true (recv_of cs) init_read).0 ≡ true)
      × (process env me code (read true (recv_of cs) init_read).1 s ≡ done get_request init_read s')
unfolding read
read-process-serve env me code cs p text ps s s' sendable full bytes fits run =
    let h = receive_all-Received cs [] init_read full (omega (arith, fits)) init_read-Waits in
    let r : Reader = (receive_all (recv_of cs) init_read).1 in
    let rest = h.waits.held.0 in
    let held : drop r.checked_idx r.read_buf ≡ print_all ((p, text) ∷ ps) ++ rest =
      ap (λ n. drop n r.read_buf) h.waits.at_start ∙ h.waits.held.1 ∙ ap (λ b. b ++ rest) bytes in
    (
      h.goes_on,
      process-serve env me code p text ps rest r s s' sendable h.waits.fresh held
          (omega (arith, h.waits.at_start, h.waits.counted, ap length bytes))
          (omega (arith, h.waits.counted)) run,
    )
