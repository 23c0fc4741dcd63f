-- ===== src/TypeFusion/Tests.antt =====
-- The fusion on concrete judgements, over texts that need no normalisation.
use alarm_sys_linux.Common.{◌≡◌, ◌≢◌, ◌↔◌, ◌⊎◌, refl, String, Bool, true, [], ◌∷◌, map}
use alarm_sys_linux.Common.Int.{ℤ, pos}
use alarm_sys_linux.Common.Dict.{int_key}
use alarm_sys_linux.Common.Ascii.{ascii, ascii-IsText}
use alarm_sys_linux.TypeFusion.{
  TargetTypeFusionInput, CognitiveTypeJudgeRow, FusionState, process_rows,
  should_push_target_type_grpc, normalize_token, coarse_family,
}
use alarm_sys_linux.TypeFusion.Logic.{should_push_iff}
use alarm_sys_linux.TypeFusion.Cycle.{written, process_rows_twice}

abbrev two_judgements : TargetTypeFusionInput
two_judgements = record { cam_type = "bird"; track_type = "ship"; llm_type = "yacht" }

abbrev idle : FusionState
idle = record { cycle_count = 0; last_grpc_pushed_type = []; effects = [] }

abbrev yacht_row : CognitiveTypeJudgeRow
yacht_row = record {
  unique_id = pos 7;
  cam_target_type = "";
  track_target_type = "ship";
  llm_target_type = "yacht";
  final_target_type = "";
  final_type_source = "";
}

abbrev buoy_row : CognitiveTypeJudgeRow
buoy_row = record yacht_row { unique_id = pos 9; llm_target_type = "buoy" }

abbrev db_up : ℤ → String → String → Bool
db_up id type source = true

abbrev grpc_up : ℤ → String → Bool
grpc_up id type = true

should_push_iff_example : (should_push_target_type_grpc ascii "ship" "yacht" ≡ true) ↔ (
    (normalize_token ascii "yacht" ≢ "")
    × (normalize_token ascii "ship" ≢ normalize_token ascii "yacht")
    × ((coarse_family ascii "ship" ≢ coarse_family ascii "yacht")
        ⊎ (coarse_family ascii "yacht" ≡ "ship")))
should_push_iff_example = should_push_iff ascii ascii-IsText "ship" "yacht"

process_rows_twice_example :
    let rows = yacht_row ∷ buoy_row ∷ [] in
    let done = process_rows ascii db_up grpc_up idle rows in
    process_rows ascii db_up grpc_up done (map (written ascii ascii-IsText db_up grpc_up) rows)
    ≡ done
process_rows_twice_example =
    process_rows_twice ascii ascii-IsText db_up grpc_up idle (yacht_row ∷ buoy_row ∷ [])
      ((refl, tt), (tt, tt)) ((refl, refl), ((refl, refl), tt))
