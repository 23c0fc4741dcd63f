-- ===== src/Rules/Round/Tests.antt =====
-- Rounds over concrete rules, tracks and trails, with integers for `double`.
use alarm_sys_linux.Common.{◌≡◌, refl, inr, false, some, List, [], ◌∷◌, arith}
use alarm_sys_linux.Common.Int.{ℤ, pos, negsuc, ◌+ℤ◌, ◌-ℤ◌}
use alarm_sys_linux.Common.Dict.{has_key, string_key, int_key, pair_key}
use alarm_sys_linux.Common.Integers.{integers}
use alarm_sys_linux.Suspicious.{Point}
use alarm_sys_linux.Suspicious.Areas.{AlarmArea}
use alarm_sys_linux.Rules.Tests.{ctx, slow_boats, ones, port, start}
use alarm_sys_linux.Rules.Context.{AlarmRule, RuleState}
use alarm_sys_linux.Rules.Watch.{TrailMap, Trails}
use alarm_sys_linux.Rules.Watch.Near.{Vectors}
use alarm_sys_linux.Rules.Round.{process_alarms}
use alarm_sys_linux.Rules.Round.Ends.{AreSteady}
use alarm_sys_linux.Rules.Round.Total.{round-returns}

-- Vectors of one number.
abbrev pub line : Vectors ℤ (Unit {0}) ℤ
line = record {
  of_metres = λ x y. x;
  of_metres_f = λ x y. x;
  add = ◌+ℤ◌;
  sub = ◌-ℤ◌;
  scale = λ a v. v;
  dot = λ a b. a;
  len = λ v. v;
  fuzzy_is_null = λ w. false;
  corners = λ r. [];
}

abbrev pub at_sea : Point ℤ
at_sea = (pos 30, pos 120)

abbrev ten : List (Point ℤ)
ten = at_sea ∷ at_sea ∷ at_sea ∷ at_sea ∷ at_sea ∷ at_sea ∷ at_sea ∷ at_sea ∷ at_sea ∷ at_sea ∷ []

abbrev two_trails : TrailMap ℤ
two_trails = (pos 7, ten) ∷ (pos 8, ten) ∷ (pos 9, ten) ∷ []

abbrev pub trails : Trails ℤ
trails = record {
  fuse_trail = two_trails;
  radar_trail = [];
  bird_radar_trail = two_trails;
  ais_trail = [];
  ais_track = [];
}

trails-AreSteady : AreSteady ctx trails
unfolding has_key
trails-AreSteady = record {
  fused = ((refl, (refl, tt)), omega arith);
  radar = omega arith;
  birds = ((refl, tt), omega arith);
  ais = omega arith;
}

abbrev pub blank : AlarmArea ℤ (Unit {0})
blank = record {
  group_id = pos 0;
  area_id = pos 0;
  area_name = "";
  alert_area_type = pos 0;
  start_p = (pos 0, pos 0);
  end_p = (pos 0, pos 0);
  alert_area_rect = tt;
  alert_area_polygon = [];
  road = [];
}

abbrev in_port : AlarmRule
in_port = record slow_boats { area_id = pos 0 }

-- Rules about boats that stay, that leave, that move away, and that are near the drones.
abbrev pub rules : List AlarmRule
rules =
    in_port
    ∷ record in_port { area_judge = pos 2 }
    ∷ record in_port { area_judge = pos 0; speed_condition = pos 0; direction = pos 1 }
    ∷ record in_port { group_id = negsuc 19; area_id = negsuc 19; distance_condition = pos 1 }
    ∷ []

round-returns_example :
    (after : RuleState ℤ) × (process_alarms line at_sea 3
        (λ ids. ids)
        ones
        blank
        ctx
        (port ∷ [])
        rules
        trails
        start
      ≡ some after)
round-returns_example =
    round-returns line at_sea 3 (λ ids. ids) ones blank ctx (port ∷ []) rules trails start
      trails-AreSteady (omega arith) (inr refl, (inr refl, (inr refl, (inr refl, tt))))

abbrev pub quiet : RuleState ℤ
quiet = record start {
  alarms = record start.alarms { alarm_filter_expire_ms = ((pos 0, pos 7), pos 100) ∷ [] };
}

pub quiet_round :
    (after : RuleState ℤ) × (process_alarms line at_sea 3
        (λ ids. ids)
        ones
        blank
        ctx
        (port ∷ [])
        rules
        trails
        quiet
      ≡ some after)
quiet_round =
    round-returns line at_sea 3 (λ ids. ids) ones blank ctx (port ∷ []) rules trails quiet
      trails-AreSteady (omega arith) (inr refl, (inr refl, (inr refl, (inr refl, tt))))
