-- ===== src/Boot/Running.antt =====
-- The program that Boot.antt starts, in its loop: MainLoop/Alive.antt, Spec/History.antt and
-- Config/Loader.antt from the start of main on.
use mathlib.Core.Option.{some-injective}
use didactic_pancake_server.Prelude.{Bytes, lit, some, List, [], ◌≡◌, ap, sym, ◌∙◌}
use didactic_pancake_server.Config.{Config, empty_config, print}
use didactic_pancake_server.Config.Loader.{from_file}
use didactic_pancake_server.Config.Loader.Printed.{AllPlain}
use didactic_pancake_server.Config.Loader.RoundTrip.{Grows, load-print}
use didactic_pancake_server.Request.Server.{Server}
use didactic_pancake_server.Request.History.{Request}
use didactic_pancake_server.MainLoop.{MainLoop}
use didactic_pancake_server.Boot.{System, Program, runs, read_settings, boot}
use didactic_pancake_server.Boot.Started.{boot-runs}

-- When main reaches its loop with a file of settings that operator<< wrote, for keys in order, and
-- keys and values with none of the characters = and #, no line end and no white space at their ends,
-- then it has read the settings that were written.
pub boot-print :
    (w : System) (p : Program) (es : List (Bytes × Bytes))
    → AllPlain es
    → Grows [] es
    → w.disk (lit "server.config") ≡ some (print (record empty_config { contents = es }))
    → boot w ≡ runs p
    → p.settings ≡ read_settings w.string_as_int (record empty_config { contents = es })
unfolding from_file lit
boot-print w p es plain grows file booted =
    let (ready, same) = (boot-runs w).1 p booted in
    let written : Config = record empty_config { contents = es } in
    let read_back : some written ≡ some ready.cf =
      ap some (sym (load-print es plain grows))
      ∙ sym (ap (from_file (lit "=") (lit "#")) file)
      ∙ ready.loads in
    ap (λ q. q.settings) same
    ∙ sym (ap (read_settings w.string_as_int) (some-injective written ready.cf read_back))
