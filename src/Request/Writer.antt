-- ===== src/Request/Writer.antt =====
-- request/request_process.cpp: write, which sends the packets of m_datas.
use mathlib.Core.List.{append_assoc, append-nil}
use didactic_pancake_server.Prelude.{
  if_rule, ℕ, zero, suc, ◌+◌, ◌≤◌, Bytes, List, [], ◌∷◌, ◌++◌, length, take, drop, leb, ◌≡◌, refl,
  arith, ap, sym, ◌∙◌, if◌then◌else◌,
}
use didactic_pancake_server.Request.Packet.{Packet, make_format}
use didactic_pancake_server.Request.Reader.Lines.{drop-drop}

-- The result of one call of send: the number of bytes, EAGAIN, or another error.
pub data Send : Type 0 where
  sent : ℕ → Send
  again failed : Send

-- The event with which the socket is armed at the end; none if write returns false.
pub data Armed : Type 0 where
  for_input for_output disarmed : Armed

pub record Written : Type 0 where
  pub armed : Armed
  pub datas : List Packet
  pub stream : Bytes

-- What is left of m_format_string.
abbrev pub pending : Packet → Bytes
pending p = drop p.byte_have_write (make_format p.category p.content)

-- The bytes of one call of send, in front of those of the later calls.
abbrev pub after_send : Bytes → Written → Written
after_send bytes w = record w { stream = bytes ++ w.stream }

abbrev pub stop : Armed → List Packet → Written
stop armed datas = record { armed = armed; datas = datas; stream = [] }

-- The loop, over the results of send; where there is none left, the socket is not ready.
unfoldable pub write : List Send → List Packet → Written
write outs [] = stop for_input []
write [] (p ∷ ps) = stop for_output (p ∷ ps)
write (again ∷ outs) (p ∷ ps) = stop for_output (p ∷ ps)
write (failed ∷ outs) (p ∷ ps) = stop disarmed (p ∷ ps)
write (sent n ∷ outs) (p ∷ ps) =
    let have = p.byte_have_write + n in
    let bytes = take n (pending p) in
    let finished = after_send bytes (write outs ps) in
    let partial = after_send bytes (write outs (record p { byte_have_write = have } ∷ ps)) in
    if leb (length (make_format p.category p.content)) have then finished else partial

abbrev pub pending_all : List Packet → Bytes
pending_all [] = []
pending_all (p ∷ ps) = pending p ++ pending_all ps

take-drop : (n : ℕ) (s : Bytes) → take n s ++ drop n s ≡ s
take-drop zero s = refl
take-drop (suc n) [] = refl
take-drop (suc n) (c ∷ s) = ap (λ t. c ∷ t) (take-drop n s)

drop_all : (n : ℕ) (s : Bytes) → length s ≤ n → drop n s ≡ []
drop_all zero [] h = refl
drop_all zero (c ∷ s) h = absurd (omega arith)
drop_all (suc n) [] h = refl
drop_all (suc n) (c ∷ s) h = drop_all n s (omega arith)

-- The bytes of a packet that one call of send takes, and those that it leaves.
pending-send :
    (n : ℕ) (p : Packet)
    → take n (pending p) ++ pending (record p { byte_have_write = p.byte_have_write + n })
      ≡ pending p
pending-send n p =
    rw (drop-drop (make_format p.category p.content) p.byte_have_write n) (take-drop n (pending p))

-- Whatever the results of send are, the bytes that write sends, followed by those that are left to
-- send, are the bytes that there were to send.
pub write-pending_all :
    (outs : List Send) (ps : List Packet)
    → (write outs ps).stream ++ pending_all (write outs ps).datas ≡ pending_all ps
unfolding write
write-pending_all [] [] = refl
write-pending_all (out ∷ outs) [] = refl
write-pending_all [] (p ∷ ps) = refl
write-pending_all (again ∷ outs) (p ∷ ps) = refl
write-pending_all (failed ∷ outs) (p ∷ ps) = refl
write-pending_all (sent n ∷ outs) (p ∷ ps) =
    let P : Written → Type 0 = λ w. w.stream ++ pending_all w.datas ≡ pending_all (p ∷ ps) in
    let bytes = take n (pending p) in
    let p' = record p { byte_have_write = p.byte_have_write + n } in
    if_rule P (leb (length (make_format p.category p.content)) (p.byte_have_write + n))
      (λ e.
        let whole : pending p' ≡ [] = drop_all (p.byte_have_write + n) _ (ground arith) in
        let all : bytes ≡ pending p =
          sym (append-nil bytes) ∙ ap (λ t. bytes ++ t) (sym whole) ∙ pending-send n p in
        append_assoc bytes (write outs ps).stream (pending_all (write outs ps).datas)
        ∙ ap (λ t. bytes ++ t) (write-pending_all outs ps)
        ∙ ap (λ t. t ++ pending_all ps) all)
      (λ e.
        append_assoc bytes (write outs (p' ∷ ps)).stream (pending_all (write outs (p' ∷ ps)).datas)
        ∙ ap (λ t. bytes ++ t) (write-pending_all outs (p' ∷ ps))
        ∙ sym (append_assoc bytes (pending p') (pending_all ps))
        ∙ ap (λ t. t ++ pending_all ps) (pending-send n p))
