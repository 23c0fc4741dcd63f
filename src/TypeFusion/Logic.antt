-- ===== src/TypeFusion/Logic.antt =====
-- What the fusion decides, and when a decision is worth a push.
use alarm_sys_linux.Common.{
  ◌≡◌, refl, ◌≢◌, ◌↔◌, ◌⊎◌, inl, inr, String, Bool, true, false, not, ◌&&◌, ◌||◌, ap, ◌∙◌, arith,
  str_eq, str_eq_iff, is_empty, Bool-cases, if◌then◌else◌,
}
use alarm_sys_linux.Common.Text.{Text, IsText}
use alarm_sys_linux.TypeFusion.{
  TargetTypeFusionInput, normalize_token, coarse_family, coarse_family_of, is_any_ship,
  ship_subtypes, is_ship_subtype, coarse_equals, fuse_target_types, should_push_target_type_grpc,
}

names_full :
    (b c d e f : Bool)
    → is_empty (
        if b
        then "buoy"
        else if c
        then "uav"
        else if d
        then "bird"
        else if e
        then "ship"
        else if f
        then "other"
        else "other")
      ≡ false
names_full true c d e f = refl
names_full false true d e f = refl
names_full false false true e f = refl
names_full false false false true f = refl
names_full false false false false true = refl
names_full false false false false false = refl

module _ (t : Text) (laws : IsText t) where
  open laws use {trimmed_idem, to_lower_idem, trimmed-to_lower}

  pub normalize_idem : (s : String) → normalize_token t (normalize_token t s) ≡ normalize_token t s
  unfolding normalize_token
  normalize_idem s =
      ap t.to_lower (trimmed-to_lower (t.trimmed s))
      ∙ to_lower_idem (t.trimmed (t.trimmed s))
      ∙ ap t.to_lower (trimmed_idem s)

  family_of_normal : (s : String) → coarse_family t (normalize_token t s) ≡ coarse_family t s
  unfolding coarse_family
  family_of_normal s = ap (coarse_family_of t) (normalize_idem s)

  family_of_empty : (token : String) → is_empty (coarse_family_of t token) ≡ is_empty token
  unfolding coarse_family_of
  family_of_empty token = elim (Bool-cases (is_empty token)) [
    | inl empty ↦ rw empty
    | inr full ↦ rw full (
        names_full (str_eq token "buoy" || t.contains token "浮标")
          (str_eq token "uav" || str_eq token "drone" || t.contains token "无人机")
          (str_eq token "bird" || t.contains token "鸟") (is_any_ship t ship_subtypes token)
          (str_eq token "other" || t.contains token "其他" || t.contains token "未知"))
  ]

  family_empty : (s : String) → is_empty (coarse_family t s) ≡ is_empty (normalize_token t s)
  unfolding coarse_family
  family_empty s = family_of_empty (normalize_token t s)

  ship_subtype_of_normal :
      (s : String)
      → is_ship_subtype t (normalize_token t s) ≡ (
          not (is_empty (normalize_token t s) || str_eq (normalize_token t s) "ship")
          && str_eq (coarse_family t s) "ship")
  unfolding is_ship_subtype
  ship_subtype_of_normal s = ground (arith, normalize_idem s, family_of_normal s)

  -- A judged type is pushed exactly when its normal form is not empty and is not that of the track's
  -- type, and the two are of different families or the family is that of ships.
  pub should_push_iff :
      (track judged : String)
      → (should_push_target_type_grpc t track judged ≡ true) ↔ (
          (normalize_token t judged ≢ "")
          × (normalize_token t track ≢ normalize_token t judged)
          × ((coarse_family t track ≢ coarse_family t judged) ⊎ (coarse_family t judged ≡ "ship")))
  unfolding should_push_target_type_grpc coarse_equals
  should_push_iff track judged =
      let T = normalize_token t track in
      let J = normalize_token t judged in
      let ca = coarse_family t track in
      let cb = coarse_family t judged in
      ground (
        arith,
        family_of_normal track,
        family_of_normal judged,
        family_empty track,
        family_empty judged,
        ship_subtype_of_normal track,
        ship_subtype_of_normal judged,
        str_eq_iff T J,
        str_eq_iff T "",
        str_eq_iff J "",
        str_eq_iff T "ship",
        str_eq_iff J "ship",
        str_eq_iff ca cb,
        str_eq_iff ca "ship",
        str_eq_iff cb "ship",
      )

  -- The model's judgement decides if its normal form is not empty, and else the track's; the result
  -- is the normal form of the one that decides, with its source; it asks for an update exactly when
  -- one of the two is not empty. The camera's judgement plays no part.
  pub fuse_target_types_lem :
      (input : TargetTypeFusionInput)
      → let llm = normalize_token t input.llm_type in
        let track = normalize_token t input.track_type in
        let fused = fuse_target_types t input in
        (fused.final_type ≡ (if is_empty llm then track else llm))
        × (fused.final_source
            ≡ (if is_empty llm then (if is_empty track then "" else "track") else "llm"))
        × ((fused.should_update ≡ true) ↔ ((llm ≢ "") ⊎ (track ≢ "")))
  unfolding fuse_target_types
  fuse_target_types_lem input =
      let llm = normalize_token t input.llm_type in
      let track = normalize_token t input.track_type in
      ground (
        arith,
        normalize_idem input.llm_type,
        normalize_idem input.track_type,
        str_eq_iff llm "",
        str_eq_iff track "",
      )
