-- ===== src/TypeFusion/Cycle.antt =====
-- The cycles of the fusion thread: a decision that went through is neither written nor pushed again,
-- and only active targets are remembered.
use alarm_sys_linux.Common.{
  suc, ◌≡◌, refl, ◌⊎◌, inl, inr, String, Bool, true, false, not, ◌&&◌, ◌||◌, none, List, [], ◌∷◌,
  map, ap, ◌∙◌, arith, is_empty, if◌then◌else◌, All,
}
use alarm_sys_linux.Common.Int.{ℤ, eq_ℤ, eq_ℤ_iff}
use alarm_sys_linux.Common.Dict.{Dict, int_key, lookup, has_key}
use alarm_sys_linux.Common.Dict.Laws.{lookup-insert}
use alarm_sys_linux.Common.Text.{Text, IsText}
use alarm_sys_linux.TypeFusion.{
  CognitiveTypeJudgeRow, FusionState, UniqueIds, fused_of, needs_db_update,
  should_push_target_type_grpc, process_row, process_rows, process_once, last_pushed, drop_stale,
  is_none, collect_active_unique_ids, fuse_target_types,
}

lookup-drop_stale :
    (active : Dict ℤ (Unit {0})) (m : Dict ℤ String) (id : ℤ)
    → lookup id (drop_stale active m) ≡ (if has_key id active then lookup id m else none)
unfolding lookup drop_stale
lookup-drop_stale active [] id = ground arith
lookup-drop_stale active ((j, type) ∷ rest) id =
    ground (arith, eq_ℤ_iff j id, lookup-drop_stale active rest id)

-- The targets that are active in a cycle: the positive unique ids of both kinds of tracks.
abbrev pub active_ids : UniqueIds → UniqueIds → Dict ℤ (Unit {0})
active_ids sea air = collect_active_unique_ids air (collect_active_unique_ids sea [])

is_none-has_key : (m : Dict ℤ (Unit {0})) (id : ℤ) → has_key id m ≡ true → is_none m ≡ false
unfolding has_key is_none
is_none-has_key [] id h = cc
is_none-has_key (_ ∷ _) id h = refl

module _ (t : Text) (laws : IsText t) (db_ok : ℤ → String → String → Bool)
    (grpc_ok : ℤ → String → Bool) where
  -- The row as the database holds it after the write of its fused type.
  abbrev pub written : CognitiveTypeJudgeRow → CognitiveTypeJudgeRow
  written row =
      let fused = fused_of t row in
      record row { final_target_type = fused.final_type; final_type_source = fused.final_source }

  -- Nothing is left to do for the row.
  unfoldable pub is_settled : FusionState → CognitiveTypeJudgeRow → Bool
  is_settled s row =
      let fused = fused_of t row in
      is_empty (t.trimmed row.llm_target_type)
      || not fused.should_update
      || (not (needs_db_update t row fused)
          && (not (should_push_target_type_grpc t row.track_target_type fused.final_type)
              || t.same_ignoring_case (last_pushed t db_ok grpc_ok s row.unique_id)
                  fused.final_type))

  process_row-settled :
      (s : FusionState) (row : CognitiveTypeJudgeRow)
      → is_settled s row ≡ true
      → process_row t db_ok grpc_ok s row ≡ s
  unfolding is_settled process_row
  process_row-settled s row h = ground arith

  -- The outside accepts the write and the push of the row's fused type.
  abbrev pub Accepted : CognitiveTypeJudgeRow → Type 0
  Accepted row =
      let fused = fused_of t row in
      (db_ok row.unique_id fused.final_type fused.final_source ≡ true)
      × (grpc_ok row.unique_id fused.final_type ≡ true)

  last_pushed-process_row :
      (s : FusionState) (row : CognitiveTypeJudgeRow) (id : ℤ)
      → eq_ℤ row.unique_id id ≡ false
      → last_pushed t db_ok grpc_ok (process_row t db_ok grpc_ok s row) id
        ≡ last_pushed t db_ok grpc_ok s id
  unfolding process_row last_pushed
  last_pushed-process_row s row id h =
      ground
        (arith, lookup-insert id row.unique_id (fused_of t row).final_type s.last_grpc_pushed_type)

  source_cases :
      (row : CognitiveTypeJudgeRow)
      → (fused_of t row).should_update ≡ true
      → ((fused_of t row).final_source ≡ "llm") ⊎ ((fused_of t row).final_source ≡ "track")
  unfolding fused_of fuse_target_types
  source_cases row h = ground arith

  source_full :
      (row : CognitiveTypeJudgeRow)
      → (fused_of t row).should_update ≡ true
      → is_empty (t.trimmed (fused_of t row).final_source) ≡ false
  source_full row h = elim (source_cases row h) [
    | inl e ↦ rw (e, laws.trimmed_llm)
    | inr e ↦ rw (e, laws.trimmed_track)
  ]

  needs_db_update-written :
      (row : CognitiveTypeJudgeRow)
      → (fused_of t row).should_update ≡ true
      → needs_db_update t (written row) (fused_of t row) ≡ false
  unfolding needs_db_update
  needs_db_update-written row h =
      let fused = fused_of t row in
      ground (
        arith,
        source_full row h,
        laws.same_refl fused.final_type,
        laws.same_refl fused.final_source,
      )

  fused_of-written : (row : CognitiveTypeJudgeRow) → fused_of t (written row) ≡ fused_of t row
  unfolding fused_of
  fused_of-written row = refl

  process_row-settles :
      (s : FusionState) (row : CognitiveTypeJudgeRow)
      → Accepted row
      → is_settled (process_row t db_ok grpc_ok s row) (written row) ≡ true
  unfolding is_settled process_row last_pushed
  process_row-settles s row a =
      let fused = fused_of t row in
      ground (
        arith,
        fused_of-written row,
        needs_db_update-written row,
        laws.same_refl fused.final_type,
        lookup-insert row.unique_id row.unique_id fused.final_type s.last_grpc_pushed_type,
        eq_ℤ_iff row.unique_id row.unique_id,
      )

  process_row-keeps :
      (s : FusionState) (row other : CognitiveTypeJudgeRow)
      → eq_ℤ row.unique_id other.unique_id ≡ false
      → is_settled (process_row t db_ok grpc_ok s row) other ≡ is_settled s other
  unfolding is_settled
  process_row-keeps s row other h = rw (last_pushed-process_row s row other.unique_id h)

  -- No two rows are of one target.
  abbrev pub Apart : CognitiveTypeJudgeRow → List CognitiveTypeJudgeRow → Type 0
  Apart row = All (λ other. eq_ℤ other.unique_id row.unique_id ≡ false)

  abbrev pub OneRowEach : List CognitiveTypeJudgeRow → Type 0
  OneRowEach [] = Unit {0}
  OneRowEach (row ∷ rows) = Apart row rows × OneRowEach rows

  process_rows-keeps :
      (s : FusionState) (rows : List CognitiveTypeJudgeRow) (other : CognitiveTypeJudgeRow)
      → Apart other rows
      → is_settled (process_rows t db_ok grpc_ok s rows) other ≡ is_settled s other
  unfolding process_rows
  process_rows-keeps s [] other a = refl
  process_rows-keeps s (row ∷ rows) other a =
      process_rows-keeps (process_row t db_ok grpc_ok s row) rows other a.1
      ∙ process_row-keeps s row other a.0

  process_rows-settles :
      (s : FusionState) (rows : List CognitiveTypeJudgeRow)
      → OneRowEach rows
      → All Accepted rows
      → All (λ row. is_settled (process_rows t db_ok grpc_ok s rows) (written row) ≡ true) rows
  unfolding process_rows
  process_rows-settles s [] o a = tt
  process_rows-settles s (row ∷ rows) o a = (
    process_rows-keeps (process_row t db_ok grpc_ok s row) rows (written row) o.0
        ∙ process_row-settles s row a.0,
    process_rows-settles (process_row t db_ok grpc_ok s row) rows o.1 a.1,
  )

  process_rows-settled :
      (s : FusionState) (rows : List CognitiveTypeJudgeRow)
      → All (λ row. is_settled s (written row) ≡ true) rows
      → process_rows t db_ok grpc_ok s (map written rows) ≡ s
  unfolding process_rows
  process_rows-settled s [] h = refl
  process_rows-settled s (row ∷ rows) h =
      ap (λ u. process_rows t db_ok grpc_ok u (map written rows))
        (process_row-settled s (written row) h.0)
      ∙ process_rows-settled s rows h.1

  -- If the rows of a cycle are of different targets and the outside accepts every write and push,
  -- then a second pass over the rows as the database now holds them writes nothing, pushes nothing
  -- and remembers the same.
  pub process_rows_twice :
      (s : FusionState) (rows : List CognitiveTypeJudgeRow)
      → OneRowEach rows
      → All Accepted rows
      → let done = process_rows t db_ok grpc_ok s rows in
        process_rows t db_ok grpc_ok done (map written rows) ≡ done
  process_rows_twice s rows o a =
      process_rows-settled (process_rows t db_ok grpc_ok s rows) rows
        (process_rows-settles s rows o a)

  -- A cycle that runs to its end, that is one with the database up and some target active, forgets
  -- the pushed type of every target that is not active and keeps those of the active ones as its
  -- rows left them.
  pub process_once_forgets :
      (sea air : UniqueIds) (fetch : Dict ℤ (Unit {0}) → List CognitiveTypeJudgeRow)
      (s : FusionState) (id someone : ℤ)
      → has_key someone (active_ids sea air) ≡ true
      → let active = active_ids sea air in
        let counted = record s { cycle_count = suc s.cycle_count } in
        lookup id (process_once t db_ok grpc_ok true sea air fetch s).last_grpc_pushed_type ≡ (
          if has_key id active
          then lookup id (process_rows t db_ok grpc_ok counted (fetch active)).last_grpc_pushed_type
          else none)
  unfolding process_once
  process_once_forgets sea air fetch s id someone h =
      let active = active_ids sea air in
      let done =
        process_rows t db_ok grpc_ok (record s { cycle_count = suc s.cycle_count })
          (fetch active) in
      ground (
        arith,
        is_none-has_key active someone h,
        lookup-drop_stale active done.last_grpc_pushed_type id,
      )
