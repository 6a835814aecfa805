-- ===== src/Tests/Settings.antt =====
-- A configuration file of Config.antt.
use didactic_pancake_server.Prelude.{Bytes, List, [], ◌∷◌, ◌≡◌, refl, arith, precedes, same}
use didactic_pancake_server.Config.{empty_config, print, trim, trim_start, trim_end}
use didactic_pancake_server.Config.Loader.{load}
use didactic_pancake_server.Config.Loader.Printed.{IsPlain}
use didactic_pancake_server.Config.Loader.RoundTrip.{load-print}

-- The keys "m" and "t".
abbrev settings : List (Bytes × Bytes)
settings = (109 ∷ [], 49 ∷ []) ∷ (116 ∷ [], 57 ∷ 48 ∷ []) ∷ []

mode-IsPlain : IsPlain (109 ∷ [])
unfolding trim trim_start trim_end
mode-IsPlain = record {
  no_delim = (omega arith, tt);
  no_comment = (omega arith, tt);
  one_line = (omega arith, tt);
  trimmed = refl;
}

one-IsPlain : IsPlain (49 ∷ [])
unfolding trim trim_start trim_end
one-IsPlain = record {
  no_delim = (omega arith, tt);
  no_comment = (omega arith, tt);
  one_line = (omega arith, tt);
  trimmed = refl;
}

threads-IsPlain : IsPlain (116 ∷ [])
unfolding trim trim_start trim_end
threads-IsPlain = record {
  no_delim = (omega arith, tt);
  no_comment = (omega arith, tt);
  one_line = (omega arith, tt);
  trimmed = refl;
}

ninety-IsPlain : IsPlain (57 ∷ 48 ∷ [])
unfolding trim trim_start trim_end
ninety-IsPlain = record {
  no_delim = (omega arith, (omega arith, tt));
  no_comment = (omega arith, (omega arith, tt));
  one_line = (omega arith, (omega arith, tt));
  trimmed = refl;
}

load-print_example :
    load (print (record empty_config { contents = settings })) empty_config
    ≡ record empty_config { contents = settings }
unfolding same precedes
load-print_example =
    load-print settings (mode-IsPlain, one-IsPlain, (threads-IsPlain, ninety-IsPlain, tt))
      (tt, ((refl, refl, tt), tt))
