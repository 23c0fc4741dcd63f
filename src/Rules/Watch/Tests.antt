-- ===== src/Rules/Watch/Tests.antt =====
-- The search for candidates on concrete trails, with integers for `double`.
use alarm_sys_linux.Common.{◌≡◌, refl, none, some, [], ◌∷◌}
use alarm_sys_linux.Common.Int.{ℤ, pos}
use alarm_sys_linux.Common.Dict.{lookup, has_key, int_key}
use alarm_sys_linux.Common.Integers.{integers}
use alarm_sys_linux.Suspicious.Areas.{AlarmArea}
use alarm_sys_linux.Rules.Tests.{ctx, slow_boats, boat_track}
use alarm_sys_linux.Rules.Context.{Context}
use alarm_sys_linux.Rules.Watch.{TrailMap, Trails}
use alarm_sys_linux.Rules.Watch.Stay.{stay_fuse, trails_after_stay}
use alarm_sys_linux.Rules.Watch.Enter.{enter_fuse}
use alarm_sys_linux.Rules.Watch.Linger.{keys_that, stays, stay_fuse_lem}
use alarm_sys_linux.Rules.Watch.Hang.{stay_then_enter-hangs}

abbrev harbour : AlarmArea ℤ (Unit {0})
harbour = record {
  group_id = pos 2;
  area_id = pos 1;
  area_name = "harbour";
  alert_area_type = pos 1;
  start_p = (pos 30, pos 120);
  end_p = (pos 31, pos 120);
  alert_area_rect = tt;
  alert_area_polygon = [];
  road = [];
}

abbrev circle : AlarmArea ℤ (Unit {0})
circle = record harbour { alert_area_type = pos 2 }

abbrev trails : TrailMap ℤ
trails = (pos 7, (pos 30, pos 120) ∷ (pos 31, pos 120) ∷ []) ∷ (pos 8, (pos 32, pos 120) ∷ []) ∷ []

abbrev all_trails : Trails ℤ
all_trails = record {
  fuse_trail = [];
  radar_trail = [];
  bird_radar_trail = [];
  ais_trail = [];
  ais_track = [];
}

abbrev with_radar : Context ℤ (Unit {0})
with_radar = record ctx { radar_track = (pos 7, boat_track) ∷ [] }

stay_fuse_lem_example :
    stay_fuse ctx slow_boats harbour trails
    ≡ some (keys_that (stays ctx slow_boats harbour trails) ctx.fuse_track)
stay_fuse_lem_example = stay_fuse_lem ctx slow_boats harbour trails

-- A drone that enters the harbour.
abbrev with_drone : Context ℤ (Unit {0})
with_drone = record ctx { bird_radar_track = (pos 7, record boat_track { reserved1 = pos 3 }) ∷ [] }

stay_then_enter-hangs_example :
    enter_fuse ctx slow_boats circle 100
      (trails_after_stay ctx slow_boats harbour all_trails).fuse_trail
      []
    ≡ none
unfolding lookup alarm_sys_linux.Rules.Zones.in_area has_key
stay_then_enter-hangs_example =
    stay_then_enter-hangs ctx slow_boats slow_boats harbour circle all_trails (pos 7) boat_track 100
      refl refl refl refl

abbrev with_trail : Trails ℤ
with_trail = record all_trails {
  fuse_trail = (pos 7, (pos 30, pos 120) ∷ (pos 30, pos 120) ∷ (pos 30, pos 120) ∷ []) ∷ [];
}
