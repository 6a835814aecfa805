-- ===== src/Request/Reader/Pipeline.antt =====
-- Packets that stand one behind the other in the buffer of Request/Reader.antt, and the requests of
-- Request/History.antt that they are.
use mathlib.Core.Path.{subst}
use didactic_pancake_server.Prelude.{
  ℕ, zero, suc, ◌+◌, ◌-◌, ◌^◌, ◌≤◌, ◌<◌, Bytes, true, false, some, List, [], ◌∷◌, ◌++◌, map, length,
  length-append, drop, ltb, ◌≡◌, ◌≢◌, refl, arith, ap, ◌∙◌, append_assoc, lt→ltb, Option-cases, inl,
  inr,
}
use didactic_pancake_server.Request.Packet.{PacketType, ign, make_format}
use didactic_pancake_server.Request.Server.{Server, Inputs}
use didactic_pancake_server.Request.Dispatch.{do_request}
use didactic_pancake_server.Request.History.{Request, serve}
use didactic_pancake_server.Request.Reader.{Reader, ResultCode, get_request, init_read}
use didactic_pancake_server.Request.Reader.Process.{
  done, process_read, next_packet, finish_reading, process_loop, process,
}
use didactic_pancake_server.Request.Reader.Rounds.{Held, Lands, process_read-Lands}
use didactic_pancake_server.Request.Reader.Headed.{IsFresh, length-make_format}
use didactic_pancake_server.Request.Reader.RoundTrip.{Reads, process_read-make_format}

-- The packets as make_format prints them, one behind the other.
abbrev pub print_all : List (PacketType × Bytes) → Bytes
print_all [] = []
print_all ((p, text) ∷ ps) = make_format p text ++ print_all ps

-- Types that the server knows, and contents whose length an int holds.
abbrev pub AllSendable : List (PacketType × Bytes) → Type 0
AllSendable [] = Unit {0}
AllSendable ((p, text) ∷ ps) = (p ≢ ign) × (length text < 2 ^ 31) × AllSendable ps

-- The requests of a connection that a round of a worker serves.
abbrev pub request_of : Inputs → ℕ → PacketType × Bytes → Request
request_of env me (p, text) = record { env = env; me = me; method = p; content = text }

pub length-make_format-pos : (p : PacketType) (text : Bytes) → 0 < length (make_format p text)
length-make_format-pos p text = omega (arith, length-make_format p text 0)

-- What is left of the buffer is the packets.
record Holds (ps : List (PacketType × Bytes)) (r : Reader) : Type 0 where
  fresh : IsFresh r
  held : Held r.read_idx r
  bytes : (rest : Bytes) × (drop r.checked_idx r.read_buf ≡ print_all ps ++ rest)
  whole : r.checked_idx + length (print_all ps) ≡ r.read_idx
  near : r.read_idx < 2 ^ 31

-- The reader that one packet leaves for the next.
next_packet-Holds :
    (env : Inputs) (me : ℕ) (p : PacketType) (text : Bytes) (ps : List (PacketType × Bytes))
    (rest : Bytes) (r : Reader) (s s' : Server)
    → Holds ((p, text) ∷ ps) r
    → (h : Reads
        (print_all ps ++ rest)
        (r.checked_idx + length (make_format p text))
        s'
        (process_read env me r s))
    → Holds ps (next_packet h.reader) × (h.reader.read_idx ≡ r.read_idx)
unfolding next_packet
next_packet-Holds env me p text ps rest r s s' holds h =
    let lands : Lands _ r.read_idx (done get_request h.reader s') =
      subst (Lands _ r.read_idx) h.reads (process_read-Lands env me r.read_idx r s holds.held) in
    let held : Held r.read_idx h.reader = lands.0 in
    let size : length (make_format p text ++ print_all ps)
        ≡ length (make_format p text) + length (print_all ps) =
      length-append (make_format p text) (print_all ps) in
    (
      record {
        fresh = record { waits = refl; starts = refl; unread = refl; empty = refl };
        held = record {
          all_read = refl;
          started = omega arith;
          checked = omega (arith, held.checked, held.all_read);
        };
        bytes = (rest, h.left);
        whole = omega (arith, h.at_end, holds.whole, size, held.all_read);
        near = omega (arith, holds.near, held.all_read);
      },
      held.all_read,
    )

-- The first round of the loop of process serves the first packet.
record Served (env : Inputs) (me fuel : ℕ) (code : ResultCode) (ps : List (PacketType × Bytes))
    (r : Reader) (s s1 : Server) : Type 0 where
  reader : Reader
  holds : Holds ps reader
  runs : process_loop env me (suc fuel) code r s ≡ process_loop env me fuel get_request reader s1

process_loop-Served :
    (env : Inputs) (me fuel : ℕ) (code : ResultCode) (p : PacketType) (text : Bytes)
    (ps : List (PacketType × Bytes)) (r : Reader) (s s1 : Server)
    → p ≢ ign
    → Holds ((p, text) ∷ ps) r
    → do_request env me p text s ≡ some s1
    → Served env me fuel code ps r s s1
unfolding process_loop
process_loop-Served env me fuel code p text ps r s s1 ne h served =
    let rest = h.bytes.0 in
    let size : length (make_format p text ++ print_all ps)
        ≡ length (make_format p text) + length (print_all ps) =
      length-append (make_format p text) (print_all ps) in
    let bytes : drop r.checked_idx r.read_buf ≡ make_format p text ++ (print_all ps ++ rest) =
      h.bytes.1 ∙ append_assoc (make_format p text) (print_all ps) rest in
    let reads : Reads (print_all ps ++ rest) (r.checked_idx + length (make_format p text)) s1
        (process_read env me r s) =
      process_read-make_format env me p text (print_all ps ++ rest) r s s1 ne h.near h.fresh bytes
        (omega (arith, size, h.whole)) served in
    let next = next_packet-Holds env me p text ps rest r s s1 h reads in
    let more : ltb r.checked_idx r.read_idx ≡ true =
      lt→ltb r.checked_idx r.read_idx
        (omega (arith, size, h.whole, length-make_format-pos p text)) in
    record {
      reader = next_packet reads.reader;
      holds = next.0;
      runs = rw (process_loop, more, reads.reads) refl;
    }

serve-cases :
    (req : Request) (reqs : List Request) (s s' : Server)
    → serve (req ∷ reqs) s ≡ some s'
    → (s1 : Server) × (do_request req.env req.me req.method req.content s ≡ some s1)
      × (serve reqs s1 ≡ some s')
unfolding serve
serve-cases req reqs s s' run =
    elim (Option-cases (do_request req.env req.me req.method req.content s)) [
      | inl e ↦ absurd (cc (rw (serve, e) at run))
      | inr (s1, e) ↦ (s1, e, rw (serve, e) at run)
    ]

module _ (env : Inputs) (me : ℕ) where
  -- The loop of process, when it has read a packet already.
  process_loop-serve :
      (fuel : ℕ) (ps : List (PacketType × Bytes)) (r : Reader) (s s' : Server)
      → length ps < fuel
      → AllSendable ps
      → Holds ps r
      → serve (map (request_of env me) ps) s ≡ some s'
      → process_loop env me fuel get_request r s ≡ done get_request init_read s'
  unfolding process_loop finish_reading serve
  process_loop-serve zero ps r s s' enough sendable h run = absurd (omega arith)
  process_loop-serve (suc fuel) [] r s s' enough sendable h run =
      let at_end : ltb r.checked_idx r.read_idx ≡ false = ground (arith, h.whole) in
      let same : s ≡ s' = cc in rw (process_loop, at_end) (ap (done get_request init_read) same)
  process_loop-serve (suc fuel) ((p, text) ∷ ps) r s s' enough (ne, small, sendable) h run =
      let (s1, served, rest) =
        serve-cases (request_of env me (p, text)) (map (request_of env me) ps) s s' run in
      let first = process_loop-Served env me fuel get_request p text ps r s s1 ne h served in
      first.runs
      ∙ process_loop-serve fuel ps first.reader s1 s' (omega arith) sendable first.holds rest

  length-print_all : (ps : List (PacketType × Bytes)) → length ps ≤ length (print_all ps)
  length-print_all [] = omega arith
  length-print_all ((p, text) ∷ ps) = omega (
    arith,
    length-append (make_format p text) (print_all ps),
    length-make_format-pos p text,
    length-print_all ps,
  )

  -- When packets, at least one, lie whole in the buffer and fill it, as make_format prints them, the index
  -- m_read_idx is one that an int can be, and the handlers return for the requests that they are, one after the other, then process serves
  -- exactly these requests in this order, and leaves the reader as init_read does.
  pub process-serve :
      (code : ResultCode) (p : PacketType) (text : Bytes) (ps : List (PacketType × Bytes))
      (rest : Bytes) (r : Reader) (s s' : Server)
      → AllSendable ((p, text) ∷ ps)
      → IsFresh r
      → drop r.checked_idx r.read_buf ≡ print_all ((p, text) ∷ ps) ++ rest
      → r.checked_idx + length (print_all ((p, text) ∷ ps)) ≡ r.read_idx
      → r.read_idx < 2 ^ 31
      → serve (map (request_of env me) ((p, text) ∷ ps)) s ≡ some s'
      → process env me code r s ≡ done get_request init_read s'
  unfolding process
  process-serve code p text ps rest r s s' (ne, small, sendable) fresh bytes whole near run =
      let (s1, served, later) =
        serve-cases (request_of env me (p, text)) (map (request_of env me) ps) s s' run in
      let h : Holds ((p, text) ∷ ps) r = record {
        fresh = fresh;
        held = record {
          all_read = refl;
          started = omega (arith, fresh.starts);
          checked = omega arith;
        };
        bytes = (rest, bytes);
        whole = whole;
        near = near;
      } in
      let fuel = r.read_idx - r.checked_idx + 1 in
      let enough : r.read_idx - r.checked_idx + 2 ≡ suc fuel = omega arith in
      let first = process_loop-Served env me fuel code p text ps r s s1 ne h served in
      rw enough (
        first.runs
        ∙ process_loop-serve fuel ps first.reader s1 s'
            (omega (arith, length-print_all ((p, text) ∷ ps), whole)) sendable first.holds later)
