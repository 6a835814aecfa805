-- ===== src/Spec/Returns.antt =====
-- Handlers that may not return, and the steps of Spec.antt.
use didactic_pancake_server.Prelude.{Option, none, some, ◌≡◌}
use didactic_pancake_server.Request.Server.{Server}
use didactic_pancake_server.Spec.{Runs}

-- What holds of the server that a handler returns, if it returns one.
abbrev pub Returned : Server → Option Server → Type 0
Returned s r = (s' : Server) → r ≡ some s' → Runs s s'

pub Returned-some : (s s' : Server) → Runs s s' → Returned s (some s')
Returned-some s s' h u e = rw (← some_eq s' u e) h
  where
    some_eq : (x y : Server) → some x ≡ some y → x ≡ y
    some_eq x y p = cc

pub Returned-none : (s : Server) → Returned s none
Returned-none s u e = absurd (never e)
  where
    never : none ≡ some u → ⊥
    never p = cc
