-- ===== src/Request/History.antt =====
-- Sequences of requests: each is a call of do_request on behalf of a connection, in the order in
-- which the handlers take the lock.
use didactic_pancake_server.Prelude.{ℕ, Bytes, Option, none, some, List, [], ◌∷◌}
use didactic_pancake_server.Request.Packet.{PacketType}
use didactic_pancake_server.Request.Server.{Server, Inputs}
use didactic_pancake_server.Request.Dispatch.{do_request}

pub record Request : Type 0 where
  pub env : Inputs
  pub me : ℕ
  pub method : PacketType
  pub content : Bytes

unfoldable pub serve : List Request → Server → Option Server
serve [] s = some s
serve (r ∷ rs) s = elim (do_request r.env r.me r.method r.content s) [
  | none ↦ none
  | some s' ↦ serve rs s'
]
