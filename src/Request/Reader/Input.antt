-- ===== src/Request/Reader/Input.antt =====
-- request/request_process.cpp: read, which moves what recv has into the read buffer of
-- Request/Reader.antt.
use didactic_pancake_server.Prelude.{
  ℕ, zero, suc, [], ◌∷◌, ltb, ◌≡◌, ap, Bool-cases, inl, inr, ◌+◌, ◌-◌, ◌≤◌, Bytes, Bool, true,
  false, ◌++◌, length, take, drop, leb, ◌==◌, if◌then◌else◌, refl, arith, if_rule,
}
use didactic_pancake_server.Request.Reader.{Reader, read_buffer_size}
use didactic_pancake_server.Request.Reader.Passes.{IsReadable}

-- The results of successive calls of recv: bytes (none if the client has closed), and at the end
-- EAGAIN or another error.
pub data Recv : Type 0 where
  again failed : Recv
  got : Bytes → Recv → Recv

-- The bytes that recv puts at m_read_buf + m_read_idx, and m_read_idx += bytes_read.
unfoldable pub receive : Bytes → Reader → Reader
receive bytes r = record r {
  read_buf = take r.read_idx r.read_buf ++ (bytes ++ drop (r.read_idx + length bytes) r.read_buf);
  read_idx = r.read_idx + length bytes;
}

-- The length with which recv is called: READ_BUFFER_SIZE - m_read_idx.
abbrev pub room : Reader → ℕ
room r = read_buffer_size - r.read_idx

-- The loop of `read` under edge triggering. recv takes as many bytes as it is asked for; where it is
-- asked for none, it returns 0, as if the client had closed.
unfoldable pub receive_all : Recv → Reader → Bool × Reader
unfolding receive
receive_all again r = (ltb 0 (room r), r)
receive_all failed r = (false, r)
receive_all (got bytes more) r =
    let part = take (room r) bytes in
    let rest = receive_all more (receive part r) in
    if length part == 0
    then (false, r)
    else if ltb (room r) (length bytes)
    then (false, receive part r)
    else rest

-- One call of recv, behind which the bytes that it did not take wait; -1 is added to m_read_idx as
-- well.
unfoldable pub receive_once : Recv → Reader → Bool × Reader
unfolding receive
receive_once again r = (false, record r { read_idx = r.read_idx - 1 })
receive_once failed r = (false, record r { read_idx = r.read_idx - 1 })
receive_once (got bytes more) r =
    let part = take (room r) bytes in
    if length part == 0 then (false, r) else (true, receive part r)

-- `edge` is m_connfd_Trig_mode.
unfoldable pub read : Bool → Recv → Reader → Bool × Reader
unfolding receive_all receive_once
read edge bytes r =
    if leb read_buffer_size r.read_idx
    then (true, r)
    else if edge
    then receive_all bytes r
    else receive_once bytes r

-- A connection on which `read` succeeds has a readable reader.
abbrev pub Readable : Bool × Reader → Type 0
Readable (true, r) = IsReadable r
Readable (false, r) = Unit {0}

receive-IsReadable :
    (bytes : Bytes) (r : Reader)
    → r.read_idx + length bytes ≤ read_buffer_size
    → IsReadable r
    → IsReadable (receive bytes r)
unfolding receive
receive-IsReadable bytes r b h = record {
  held = record {
    all_read = refl;
    started = h.held.started;
    checked = omega (arith, h.held.checked);
  };
  fits = b;
}

-- What recv takes has room.
take-room : (n : ℕ) (s : Bytes) → length (take n s) ≤ n
take-room zero s = omega arith
take-room (suc n) [] = omega arith
take-room (suc n) (c ∷ s) = omega (arith, take-room n s)

pub take_all : (n : ℕ) (s : Bytes) → length s ≤ n → take n s ≡ s
take_all zero [] h = refl
take_all zero (c ∷ s) h = absurd (omega arith)
take_all (suc n) [] h = refl
take_all (suc n) (c ∷ s) h = ap (λ t. c ∷ t) (take_all n s (omega arith))

part-IsReadable :
    (bytes : Bytes) (r : Reader) → IsReadable r → IsReadable (receive (take (room r) bytes) r)
part-IsReadable bytes r h =
    receive-IsReadable (take (room r) bytes) r (omega (arith, take-room (room r) bytes, h.fits)) h

receive_all-Readable : (more : Recv) (r : Reader) → IsReadable r → Readable (receive_all more r)
unfolding receive_all
receive_all-Readable again r h = elim (Bool-cases (ltb 0 (room r))) [
  | inl e ↦ rw e h
  | inr e ↦ rw e tt
]
receive_all-Readable failed r h = tt
receive_all-Readable (got bytes more) r h =
    if_rule Readable (length (take (room r) bytes) == 0) (λ e. tt)
      (λ e.
        if_rule Readable (ltb (room r) (length bytes)) (λ e1. tt)
          (λ e1.
            receive_all-Readable more (receive (take (room r) bytes) r)
              (part-IsReadable bytes r h)))

receive_once-Readable : (more : Recv) (r : Reader) → IsReadable r → Readable (receive_once more r)
unfolding receive_once
receive_once-Readable again r h = tt
receive_once-Readable failed r h = tt
receive_once-Readable (got bytes more) r h =
    if_rule Readable (length (take (room r) bytes) == 0) (λ e. tt) (λ e. part-IsReadable bytes r h)

-- A read that succeeds has written inside of the buffer and leaves the indices in order, in both
-- trigger modes and whatever the client sends.
pub read-Readable :
    (edge : Bool) (bytes : Recv) (r : Reader) → IsReadable r → Readable (read edge bytes r)
unfolding read
read-Readable edge bytes r h =
    if_rule Readable (leb read_buffer_size r.read_idx) (λ e. h)
      (λ e.
        if_rule Readable edge (λ e1. receive_all-Readable bytes r h)
          (λ e1. receive_once-Readable bytes r h))
