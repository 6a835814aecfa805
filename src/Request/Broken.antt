-- ===== src/Request/Broken.antt =====
-- request/request_process.cpp: read and process when the bytes that have come are the start of a line.
use didactic_pancake_server.Prelude.{
  Bool, take, if_rule, ℕ, zero, suc, ◌+◌, ◌-◌, ◌<◌, Bytes, true, List, [], ◌∷◌, ◌++◌, length, drop,
  replicate, ltb, ◌==◌, ◌≡◌, refl, arith, ap, sym, ◌∙◌, lt→ltb, if◌then◌else◌,
}
use didactic_pancake_server.Request.Server.{Server, Inputs}
use didactic_pancake_server.Request.Reader.{
  Reader, ResultCode, no_request, line_ok, line_open, scan_bytes, parse_line, init_read,
  read_buffer_size,
}
use didactic_pancake_server.Request.Reader.Lines.{Clean, check_byte-clean, drop-suc}
use didactic_pancake_server.Request.Reader.Process.{
  ReadResult, done, process_read, read_loop, next_line, after_line, indices_from, keep_broken,
  after_packet, finish_reading, process_loop, process,
}
use didactic_pancake_server.Request.Reader.Input.{
  Recv, again, failed, got, receive, room, receive_all, read,
}
use didactic_pancake_server.Request.EndToEnd.{
  recv_of, joined, AllFull, receive_all-Received, init_read-Waits,
}

-- A reader that keeps `n` bytes, which are the indices 0, 1, … of the buffer.
abbrev pub overwritten : ℕ → Reader
overwritten n = record init_read {
  read_buf = indices_from n 0 ++ replicate (read_buffer_size - n) 0;
  read_idx = n;
  checked_idx = n;
}

-- parse_line over bytes among which no line ends.
scan_bytes-open :
    (line post : Bytes) (left : ℕ) (r : Reader)
    → drop r.checked_idx r.read_buf ≡ line ++ post
    → Clean line
    → left ≡ length line
    → scan_bytes left r ≡ (line_open, record r { checked_idx = r.checked_idx + left })
unfolding scan_bytes
scan_bytes-open [] post zero r e c n =
    let same : r.checked_idx ≡ r.checked_idx + 0 = omega arith in
    ap (λ i. (line_open, record r { checked_idx = i })) same
scan_bytes-open [] post (suc left) r e c n = absurd (omega arith)
scan_bytes-open (x ∷ line) post zero r e c n = absurd (omega arith)
scan_bytes-open (x ∷ line) post (suc left) r e (c13, (c10, (c0, c))) n =
    let same : suc r.checked_idx + left ≡ r.checked_idx + suc left = omega arith in
    rw (check_byte-clean r x (line ++ post) e c13 c10, scan_bytes)
      (scan_bytes-open line post left (record r { checked_idx = suc r.checked_idx })
          (drop-suc r.read_buf r.checked_idx x (line ++ post) e) c (omega arith)
        ∙ ap (λ i. (line_open, record r { checked_idx = i })) same)

-- A reader that differs from `r` in the bytes that it has read alone.
record OnlyReads (r r' : Reader) : Type 0 where
  read_buf : Bytes
  read_idx : ℕ
  only : r' ≡ record r { read_buf = read_buf; read_idx = read_idx }

unread : (r : Reader) → OnlyReads r r
unread r = record { read_buf = r.read_buf; read_idx = r.read_idx; only = refl }

receive_all-OnlyReads : (more : Recv) (r : Reader) → OnlyReads r (receive_all more r).1
unfolding receive_all receive
receive_all-OnlyReads again r = unread r
receive_all-OnlyReads failed r = unread r
receive_all-OnlyReads (got bytes more) r =
    let part = take (room r) bytes in
    let P : Bool × Reader → Type 0 = λ out. OnlyReads r out.1 in
    let rest = receive_all-OnlyReads more (receive part r) in
    if_rule P (length part == 0) (λ e. unread r)
      (λ e.
        if_rule P (ltb (room r) (length bytes))
          (λ e1. record {
            read_buf = (receive part r).read_buf;
            read_idx = (receive part r).read_idx;
            only = refl;
          })
          (λ e1. record { read_buf = rest.read_buf; read_idx = rest.read_idx; only = rest.only }))

-- The reader with `n` bytes of its first line.
abbrev holding : Bytes → ℕ → Reader
holding buf n = record init_read { read_buf = buf; read_idx = n }

process_read-open :
    (env : Inputs) (me n : ℕ) (pre rest : Bytes) (s : Server)
    → Clean pre
    → n ≡ length pre
    → process_read env me (holding (pre ++ rest) n) s
      ≡ done no_request (record (holding (pre ++ rest) n) { checked_idx = n }) s
unfolding process_read read_loop next_line after_line parse_line
process_read-open env me n pre rest s clean counted =
    let all : n - 0 ≡ length pre = omega arith in
    let end : 0 + (n - 0) ≡ n = omega arith in
    let fuel : n - 0 + 2 ≡ suc (suc n) = omega arith in
    let r : Reader = holding (pre ++ rest) n in
    ap (λ f. read_loop env me f line_ok r s) fuel
    ∙ ap (after_line env me s (λ status r'. read_loop env me (suc n) status r' s)) (
        scan_bytes-open pre rest (n - 0) r refl clean all
        ∙ ap (λ i. (line_open, record r { checked_idx = i })) end)

process-open :
    (env : Inputs) (me : ℕ) (code : ResultCode) (n : ℕ) (pre rest : Bytes) (s : Server)
    → Clean pre
    → n ≡ length pre
    → 0 < n
    → process env me code (holding (pre ++ rest) n) s ≡ done no_request (overwritten n) s
unfolding process process_loop after_packet finish_reading keep_broken
process-open env me code n pre rest s clean counted some_bytes =
    let more : ltb 0 n ≡ true = lt→ltb 0 n some_bytes in
    let left : n - 0 ≡ n = omega arith in
    let fuel : n - 0 + 2 ≡ suc (suc n) = omega arith in
    let r : Reader = holding (pre ++ rest) n in
    let again : ResultCode → Reader → Server → ReadResult =
      λ code' r' s'. process_loop env me (suc n) code' r' s' in
    ap (λ f. process_loop env me f code r s) fuel
    ∙ ap (λ b. if b then after_packet again (process_read env me r s) else finish_reading code r s)
        more
    ∙ ap (after_packet again) (process_read-open env me n pre rest s clean counted)
    ∙ ap (λ k. done no_request (overwritten k) s) left

-- When bytes that are the start of a type line, without a byte that ends it and not 0, and fewer than
-- the buffer has, come in any pieces in one call of read under edge triggering, process keeps none of them: it serves nothing,
-- and its buffer holds the numbers 0, 1, … in their place, as many as bytes came.
pub process-overwritten :
    (env : Inputs) (me : ℕ) (code : ResultCode) (cs : List Bytes) (s : Server)
    → AllFull cs
    → Clean (joined cs)
    → 0 < length (joined cs)
    → length (joined cs) < read_buffer_size
    → process env me code (read true (recv_of cs) init_read).1 s
      ≡ done no_request (overwritten (length (joined cs))) s
unfolding read
process-overwritten env me code cs s full clean some_bytes fits =
    let only = receive_all-OnlyReads (recv_of cs) init_read in
    let waits = receive_all-Received cs [] init_read full (omega (arith, fits)) init_read-Waits in
    let n : ℕ = length (joined cs) in
    let rest = waits.waits.held.0 in
    let r : Reader = (receive_all (recv_of cs) init_read).1 in
    let counted : only.read_idx ≡ n = ap (λ x. x.read_idx) (sym only.only) ∙ waits.waits.counted in
    let held : only.read_buf ≡ joined cs ++ rest =
      ap (λ x. x.read_buf) (sym only.only) ∙ waits.waits.held.1 in
    ap (λ x. process env me code x s)
      (only.only
        ∙ ap (λ b. holding b only.read_idx) held
        ∙ ap (holding (joined cs ++ rest)) counted)
    ∙ process-open env me code n (joined cs) rest s clean refl some_bytes
