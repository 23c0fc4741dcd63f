-- ===== src/TypeFusion.antt =====
-- src/dialog/analysis: TargetTypeFusionLogic.cpp decides the type of a target from the judgements of
-- the language model and of the track, and TargetTypeFusionThread.cpp writes the decision to the
-- database and pushes it to the track manager.
mod Logic
mod Cycle
mod Tests
use alarm_sys_linux.Common.{
  ℕ, suc, String, Bool, true, false, not, ◌&&◌, ◌||◌, Option, none, some, List, [], ◌∷◌, ◌++◌,
  str_eq, is_empty, if◌then◌else◌,
}
use alarm_sys_linux.Common.Int.{ℤ, pos, ltb_ℤ}
use alarm_sys_linux.Common.Dict.{Dict, int_key, lookup, insert, erase, has_key}
use alarm_sys_linux.Common.Text.{Text}

pub record TargetTypeFusionInput : Type 0 where
  pub cam_type : String
  pub track_type : String
  pub llm_type : String

pub record TargetTypeFusionResult : Type 0 where
  pub should_update : Bool
  pub final_type : String
  pub final_source : String

-- `DataAccessLayer::CognitiveTypeJudgeRow`.
pub record CognitiveTypeJudgeRow : Type 0 where
  pub unique_id : ℤ
  pub cam_target_type : String
  pub track_target_type : String
  pub llm_target_type : String
  pub final_target_type : String
  pub final_type_source : String

abbrev ship_subtypes : List String
ship_subtypes =
    "ship" ∷ "yacht" ∷ "cargo" ∷ "fishing" ∷ "speedboat" ∷ "cargoship" ∷ "fishingboat" ∷ "warship"
    ∷ "motorboat" ∷ []

-- `secondary.uniqueID` of each track of a map; the key of the map is not read.
abbrev pub UniqueIds : Type 0
UniqueIds = List ℕ

pub data Effect : Type 0 where
  -- `dbHelper.updateFinalTargetTypeJudgement(id, type, source)` was called.
  db_update : ℤ → String → String → Effect
  -- `pushTargetTypeGrpcUpdate(id, type)` was called.
  grpc_push : ℤ → String → Effect

-- `m_cycleCount` and `m_lastGrpcPushedType`, and what was asked of the outside, newest first.
pub record FusionState : Type 0 where
  pub cycle_count : ℕ
  pub last_grpc_pushed_type : Dict ℤ String
  pub effects : List Effect

-- The two loops of `collectActiveUniqueIds`.
unfoldable pub collect_active_unique_ids : UniqueIds → Dict ℤ (Unit {0}) → Dict ℤ (Unit {0})
collect_active_unique_ids [] ids = ids
collect_active_unique_ids (unique_id ∷ rest) ids =
    collect_active_unique_ids rest
      (if ltb_ℤ (pos 0) (pos unique_id) then insert (pos unique_id) tt ids else ids)

-- The removal of `staleGrpcKeys`.
unfoldable pub drop_stale : Dict ℤ (Unit {0}) → Dict ℤ String → Dict ℤ String
drop_stale active [] = []
drop_stale active ((id, type) ∷ rest) =
    if has_key id active then (id, type) ∷ drop_stale active rest else drop_stale active rest

unfoldable pub is_none : Dict ℤ (Unit {0}) → Bool
is_none [] = true
is_none (_ ∷ _) = false

module _ (t : Text) where
  open t use {trimmed, to_lower, contains, same_ignoring_case}

  unfoldable pub normalize_token : String → String
  normalize_token value = to_lower (trimmed value)

  -- The loop of `coarseFamily` over the ship types; each round also looks for the Chinese words.
  unfoldable pub is_any_ship : List String → String → Bool
  is_any_ship [] token = false
  is_any_ship (ship_type ∷ rest) token =
      if str_eq token ship_type
        || contains token "船"
        || contains token "货轮"
        || contains token "游艇"
        || contains token "渔船"
      then true
      else is_any_ship rest token

  unfoldable pub coarse_family_of : String → String
  coarse_family_of token =
      if is_empty token
      then ""
      else if str_eq token "buoy" || contains token "浮标"
      then "buoy"
      else if str_eq token "uav" || str_eq token "drone" || contains token "无人机"
      then "uav"
      else if str_eq token "bird" || contains token "鸟"
      then "bird"
      else if is_any_ship ship_subtypes token
      then "ship"
      else if str_eq token "other" || contains token "其他" || contains token "未知"
      then "other"
      else "other"

  unfoldable pub coarse_family : String → String
  coarse_family type = coarse_family_of (normalize_token type)

  unfoldable pub is_ship_subtype : String → Bool
  is_ship_subtype type =
      let token = normalize_token type in
      if is_empty token || str_eq token "ship" then false else str_eq (coarse_family token) "ship"

  unfoldable pub coarse_equals : String → String → Bool
  coarse_equals a b =
      let ca = coarse_family a in let cb = coarse_family b in not (is_empty ca) && str_eq ca cb

  make_result : String → String → TargetTypeFusionResult
  make_result final_type source = record {
    should_update = not (is_empty final_type);
    final_type = normalize_token final_type;
    final_source = source;
  }

  unfoldable pub fuse_target_types : TargetTypeFusionInput → TargetTypeFusionResult
  unfolding make_result
  fuse_target_types input =
      let track = normalize_token input.track_type in
      let llm = normalize_token input.llm_type in
      if not (is_empty llm)
      then make_result llm "llm"
      else if not (is_empty track)
      then make_result track "track"
      else record { should_update = false; final_type = ""; final_source = "" }

  unfoldable pub should_push_target_type_grpc : String → String → Bool
  should_push_target_type_grpc track_target_type judged_final_type =
      let judged = normalize_token judged_final_type in
      let track = normalize_token track_target_type in
      if is_empty judged
      then false
      else if is_empty track
      then true
      else if str_eq track judged
      then false
      else if coarse_equals track judged
      then if is_ship_subtype track || is_ship_subtype judged
        then not (str_eq track judged)
        else false
      else true

  unfoldable pub fused_of : CognitiveTypeJudgeRow → TargetTypeFusionResult
  fused_of row =
      fuse_target_types (record {
        cam_type = "";
        track_type = row.track_target_type;
        llm_type = row.llm_target_type;
      })

  unfoldable pub needs_db_update : CognitiveTypeJudgeRow → TargetTypeFusionResult → Bool
  needs_db_update row fused =
      is_empty (trimmed row.final_type_source)
      || not (same_ignoring_case row.final_target_type fused.final_type)
      || not (same_ignoring_case row.final_type_source fused.final_source)

  -- The outside answers whether a write, and a push, went through.
  module _ (db_ok : ℤ → String → String → Bool) (grpc_ok : ℤ → String → Bool) where
    unfoldable pub last_pushed : FusionState → ℤ → String
    last_pushed s id = elim (lookup id s.last_grpc_pushed_type) [ none ↦ "" | some type ↦ type ]

    push_step : FusionState → CognitiveTypeJudgeRow → String → FusionState
    unfolding last_pushed
    push_step s row final_type =
        if same_ignoring_case (last_pushed s row.unique_id) final_type
        then s
        else if grpc_ok row.unique_id final_type
        then record s {
          last_grpc_pushed_type = insert row.unique_id final_type s.last_grpc_pushed_type;
          effects = grpc_push row.unique_id final_type ∷ s.effects;
        }
        else record s { effects = grpc_push row.unique_id final_type ∷ s.effects }

    write_and_push : FusionState → CognitiveTypeJudgeRow → TargetTypeFusionResult → FusionState
    unfolding push_step
    write_and_push s row fused =
        let written = record s {
          effects = db_update row.unique_id fused.final_type fused.final_source ∷ s.effects;
        } in
        let needs_grpc_push = should_push_target_type_grpc row.track_target_type fused.final_type in
        if needs_db_update row fused
        then if not (db_ok row.unique_id fused.final_type fused.final_source)
          then written
          else if needs_grpc_push
          then push_step written row fused.final_type
          else written
        else if needs_grpc_push
        then push_step s row fused.final_type
        else s

    -- One round of the loop of `processOnce`, each `continue` a branch that returns.
    unfoldable pub process_row : FusionState → CognitiveTypeJudgeRow → FusionState
    unfolding write_and_push
    process_row s row =
        let fused = fused_of row in
        if is_empty (trimmed row.llm_target_type)
        then s
        else if not fused.should_update
        then s
        else write_and_push s row fused

    unfoldable pub process_rows : FusionState → List CognitiveTypeJudgeRow → FusionState
    process_rows s [] = s
    process_rows s (row ∷ rows) = process_rows (process_row s row) rows

    -- `fetch` stands for `dbHelper.fetchCognitiveTypeJudgeRows`.
    unfoldable pub process_once :
        Bool
        → UniqueIds
        → UniqueIds
        → (Dict ℤ (Unit {0}) → List CognitiveTypeJudgeRow)
        → FusionState
        → FusionState
    unfolding is_none
    process_once db_init_success sea air fetch s =
        let counted = record s { cycle_count = suc s.cycle_count } in
        let active = collect_active_unique_ids air (collect_active_unique_ids sea []) in
        let done = process_rows counted (fetch active) in
        if not db_init_success
        then counted
        else if is_none active
        then counted
        else record done { last_grpc_pushed_type = drop_stale active done.last_grpc_pushed_type }
