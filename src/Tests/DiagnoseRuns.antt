-- ===== src/Tests/DiagnoseRuns.antt =====
-- Runs of the diagnosis (web/src/lib/diagnose.ts).
use zte_u60_pro_mu5250_manag.Common.{
  ◌≤◌, ◌≡◌, refl, true, none, List, [], ◌∷◌, String, filter, length,
}
use zte_u60_pro_mu5250_manag.Diagnose.Page.{
  DiagLevel, DiagLayer, DiagRun, RunState, progress, counted_layers, is_over,
}
use zte_u60_pro_mu5250_manag.Diagnose.Order.{progress_lem}

abbrev layer_with : String → DiagLevel → DiagLayer
layer_with id level = record {
  id = id;
  level = level;
  detail = none;
  detail_en = none;
  counted = true;
}

abbrev three_layers : List DiagLayer
three_layers =
    layer_with "vpn" DiagLevel.ok
    ∷ layer_with "link" DiagLevel.pending
    ∷ layer_with "wifi" DiagLevel.bad
    ∷ []

abbrev half_way : DiagRun
half_way = record {
  state = RunState.running;
  step = none;
  steps = none;
  layers = three_layers;
  speed = none;
}

progress_lem_example :
    (progress half_way ≡ (
      length (filter (λ l. is_over l.level) (counted_layers half_way.layers)),
      length (counted_layers half_way.layers),
    ))
    × ((progress half_way).0 ≤ (progress half_way).1)
progress_lem_example = progress_lem half_way refl refl
