-- ===== src/Request/Sending/Alone.antt =====
-- process_write as a whole, and its three sections, of Request/Sending.antt.
use didactic_pancake_server.Prelude.{
  ℕ, false, Bool-cases, inl, inr, Option, List, [], ◌∷◌, ◌++◌, append-nil, ◌≡◌, refl, ap, sym, ◌∙◌,
  arith, if◌then◌else◌,
}
use didactic_pancake_server.Request.Server.{Conn, Server, Kernel, rearm_write, update_conn}
use didactic_pancake_server.Request.Server.Conns.{conns-update_conn_self}
use didactic_pancake_server.Request.Writer.{Armed, for_input, for_output, disarmed}
use didactic_pancake_server.Request.Sending.{
  Sending, is_empty, enter_write, look, leave_write, process_write,
}

-- What modfd asks of the kernel, when the socket was armed for input before.
abbrev pub asked : Armed → Option ℕ → List Kernel
asked for_input fd = []
asked for_output fd = rearm_write fd ∷ []
asked disarmed fd = []

-- The three sections, by one thread.
abbrev pub sections : Sending → Sending
sections w = leave_write (look (enter_write w))

abbrev free : Conn → Conn
free c = record c { is_process_write = false }

-- The server behind process_write, and the connection behind the sections, agree.
pub record IsSections (k : ℕ) (s s' : Server) (w : Sending) : Type 0 where
  pub same_datas : (s'.conns k).datas ≡ w.datas
  pub same_flag : (s'.conns k).is_process_write ≡ w.is_process_write
  pub same_kernel : s'.kernel ≡ s.kernel ++ asked w.interest (s.conns k).sockfd

kernel_lem :
    (k : ℕ) (s : Server)
    → (s.conns k).is_process_write ≡ false
    → (process_write k s).kernel
      ≡ s.kernel
        ++ asked (if is_empty (s.conns k).datas then for_input else for_output) (s.conns k).sockfd
unfolding process_write update_conn
kernel_lem k s flag = rw flag (elim (Bool-cases (is_empty (s.conns k).datas)) [
  | inl e ↦ rw e (sym (append-nil s.kernel))
  | inr e ↦ rw e refl
])

-- When no other thread has set the flag, process_write leaves the packets and the flag as its three
-- sections do, one after the other, and asks the kernel for what the sections arm the socket for.
pub process_write-sections :
    (k : ℕ) (s : Server) (w : Sending)
    → w.datas ≡ (s.conns k).datas
    → w.is_process_write ≡ false
    → w.interest ≡ for_input
    → (s.conns k).is_process_write ≡ false
    → IsSections k s (process_write k s) (sections w)
unfolding process_write enter_write look leave_write
process_write-sections k s w datas idle input flag =
    let freed = conns-update_conn_self k free s in
    record {
      same_datas = ground arith;
      same_flag = ground arith;
      same_kernel =
          kernel_lem k s flag ∙ ap (λ i. s.kernel ++ asked i (s.conns k).sockfd) (sym armed);
    }
  where
    armed : (sections w).interest ≡ (if is_empty (s.conns k).datas then for_input else for_output)
    armed = ground arith
