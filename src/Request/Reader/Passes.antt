-- ===== src/Request/Reader/Passes.antt =====
-- The loop of `process` over the packets of the read buffer (Request/Reader/Process.antt): its end,
-- and the reader that it leaves.
use didactic_pancake_server.Prelude.{ℕ, ◌+◌, ◌≤◌, ◌≡◌}
use didactic_pancake_server.Request.Server.{Server}
use didactic_pancake_server.Request.Reader.{
  Reader, no_request, get_request, bad_request, read_buffer_size, init_read,
}
use didactic_pancake_server.Request.Reader.Process.{ReadResult, dead, exhausted, done}
use didactic_pancake_server.Request.Reader.Rounds.{step, Held}

-- The bytes of the buffer that are in use, and the indices in them, fit the buffer.
pub record IsReadable (r : Reader) : Type 0 where
  pub held : Held r.read_idx r
  pub fits : r.read_idx ≤ read_buffer_size

-- The model had enough fuel, and the reader that is left is readable; after a packet that is
-- complete or bad it is the initial one, else its line starts the buffer.
abbrev pub Ends : ReadResult → Type 0
Ends dead = Unit {0}
Ends exhausted = ⊥
Ends (done no_request r s) = IsReadable r
Ends (done get_request r s) = r ≡ init_read
Ends (done bad_request r s) = r ≡ init_read

-- What the loop wants: the bytes that are left are fewer than the rounds.
record Going (fuel read : ℕ) (r : Reader) : Type 0 where
  held : Held read r
  fits : read ≤ read_buffer_size
  enough : read + 2 ≤ r.checked_idx + step r.check_state + fuel
