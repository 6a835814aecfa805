-- ===== src/Tests/Reading.antt =====
-- Runs of the reader of Request/Reader.antt.
use didactic_pancake_server.Prelude.{to_string, Bytes, lit, crlf, true, ◌++◌, refl, arith}
use didactic_pancake_server.Request.Reader.{Reader, init_read}
use didactic_pancake_server.Request.Reader.Passes.{IsReadable}
use didactic_pancake_server.Request.Reader.Input.{Recv, again, got, Readable, read, read-Readable}
use didactic_pancake_server.Prelude.{◌≡◌, ◌+◌, ◌<◌, ◌^◌, ◌≢◌, some, length}
use didactic_pancake_server.Request.Packet.{req_to_string, hbt, ign, make_format}
use didactic_pancake_server.Request.Account.{heartbeat}
use didactic_pancake_server.Request.Dispatch.{do_request}
use didactic_pancake_server.Request.Reader.Process.{process_read}
use didactic_pancake_server.Request.Reader.Headed.{IsFresh}
use didactic_pancake_server.Request.Reader.RoundTrip.{Reads, process_read-make_format}
use didactic_pancake_server.Tests.Sample.{env, server}

init_read-IsReadable : IsReadable init_read
init_read-IsReadable = record {
  held = record { all_read = refl; started = omega arith; checked = omega arith };
  fits = omega arith;
}

abbrev heartbeat_bytes : Bytes
heartbeat_bytes = lit "HBT" ++ (crlf ++ crlf)

-- A heartbeat, and the first byte of the next packet.
abbrev arriving : Recv
arriving = got heartbeat_bytes (got (lit "L") again)

abbrev loaded : Reader
loaded = (read true arriving init_read).1

read-Readable_example : Readable (read true arriving init_read)
unfolding lit
read-Readable_example = read-Readable true arriving init_read init_read-IsReadable

abbrev hello : Bytes
hello = lit "hi"

-- A heartbeat as make_format prints it, and the first byte of the next packet.
abbrev waiting : Reader
waiting = record init_read {
  read_buf = make_format hbt hello ++ lit "L";
  read_idx = length (make_format hbt hello) + 1;
}

answered : do_request env 3 hbt hello server ≡ some (heartbeat 3 hello server)
unfolding do_request
answered = refl

hbt≢ign : hbt ≢ ign
hbt≢ign e = ground arith

waiting-IsFresh : IsFresh waiting
waiting-IsFresh = record { waits = refl; starts = refl; unread = refl; empty = refl }

waiting-fits : waiting.read_idx < 2 ^ 31
unfolding make_format req_to_string lit to_string
waiting-fits = omega arith

process_read-make_format_example :
    Reads
      (lit "L")
      (0 + length (make_format hbt hello))
      (heartbeat 3 hello server)
      (process_read env 3 waiting server)
process_read-make_format_example =
    process_read-make_format env 3 hbt hello (lit "L") waiting server (heartbeat 3 hello server)
      hbt≢ign waiting-fits waiting-IsFresh refl (omega arith) answered
