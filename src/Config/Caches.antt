-- ===== src/Config/Caches.antt =====
-- What is kept of the database, and which radar track is found (src/customconfig.cpp).
use alarm_sys_linux.Common.{
  ◌≡◌, ap, first_some, ◌⊎◌, inl, inr, String, true, ◌&&◌, ◌||◌, Option, none, some, List, [], ◌∷◌,
  ◌++◌, arith, Bool-cases, Option-cases,
}
use alarm_sys_linux.Common.Int.{ℤ, pos, ◌<ℤ◌, eq_ℤ, eq_ℤ_iff}
use alarm_sys_linux.Common.Dict.{Dict, lookup, int_key}
use alarm_sys_linux.Common.Text.{Text}
use alarm_sys_linux.Alarms.Tracks.{Track}
use alarm_sys_linux.Rules.Context.{AreaParams}
use alarm_sys_linux.Config.{
  Tables, reload_alarm_config_from_db, is_of, find_of, keep_params, get_threat_assessment_params,
  match_source, at_key, scan_radar, try_get_radar_track,
}

module _ {X : Type 0} (qt : Text) where
  -- Reading the tables again for `all`, or for no scope, gives the tables of the database, where it is
  -- reachable.
  pub reload_all :
      (scope : String) (db m : Tables X)
      → (qt.trimmed scope ≡ "all") ⊎ (qt.trimmed scope ≡ "")
      → reload_alarm_config_from_db qt true true scope db m ≡ db
  unfolding reload_alarm_config_from_db
  reload_all scope db m (inl e) = rw e
  reload_all scope db m (inr e) = rw e

module _ {W : Type 0} where
  find_of-append :
      (group_id area_id : ℤ) (ps : List (AreaParams W)) (p : AreaParams W)
      → find_of group_id area_id ps ≡ none
      → is_of group_id area_id p ≡ true
      → find_of group_id area_id (ps ++ p ∷ []) ≡ some p
  unfolding find_of
  find_of-append group_id area_id [] p e h = ground (arith, h)
  find_of-append group_id area_id (x ∷ ps) p e h =
      ground (arith, e, h, find_of-append group_id area_id ps p)

  found-twice :
      (db : ℤ → ℤ → AreaParams W) (group_id area_id : ℤ) (cached : List (AreaParams W))
      (p : AreaParams W)
      → find_of group_id area_id cached ≡ some p
      → get_threat_assessment_params db group_id area_id cached ≡ (cached, p)
  unfolding get_threat_assessment_params keep_params
  found-twice db group_id area_id cached p e = rw e

  missing-asked :
      (db : ℤ → ℤ → AreaParams W) (group_id area_id : ℤ) (cached : List (AreaParams W))
      → find_of group_id area_id cached ≡ none
      → is_of group_id area_id (db group_id area_id) ≡ true
      → get_threat_assessment_params db group_id area_id cached
        ≡ (cached ++ db group_id area_id ∷ [], db group_id area_id)
  unfolding get_threat_assessment_params keep_params
  missing-asked db group_id area_id cached e h = rw e (ground (arith, h))

  -- Weights that the database has for an area are asked for once: a second call gives the same weights
  -- and changes nothing, whatever the database answers by then.
  pub get_params_twice :
      (db later : ℤ → ℤ → AreaParams W) (group_id area_id : ℤ) (cached : List (AreaParams W))
      → is_of group_id area_id (db group_id area_id) ≡ true
      → let (kept, answer) = get_threat_assessment_params db group_id area_id cached in
        get_threat_assessment_params later group_id area_id kept ≡ (kept, answer)
  get_params_twice db later group_id area_id cached h =
      elim (Option-cases (find_of group_id area_id cached)) [
        | inl e ↦
            let asked = db group_id area_id in
            rw (missing-asked db group_id area_id cached e h) (
              found-twice later group_id area_id (cached ++ asked ∷ []) asked
                (find_of-append group_id area_id cached asked e h))
        | inr (p, e) ↦
            rw (found-twice db group_id area_id cached p e)
              (found-twice later group_id area_id cached p e)
      ]

  -- A track goes by the id: it stands under it, or bears it.
  abbrev pub IsHit : ℤ → ℤ → Dict ℤ (Track W) → Track W → Type 0
  IsHit id source_code table track =
      (match_source source_code track ≡ true)
      × ((lookup id table ≡ some track) ⊎ (track.unique_id ≡ id) ⊎ (track.norm_id ≡ id))

  scan_radar-IsHit :
      (id source_code : ℤ) (table : Dict ℤ (Track W)) (track : Track W)
      → scan_radar id source_code table ≡ some track
      → (match_source source_code track ≡ true) × ((track.unique_id ≡ id) ⊎ (track.norm_id ≡ id))
  unfolding scan_radar
  scan_radar-IsHit id source_code [] track e = cc
  scan_radar-IsHit id source_code ((key, t) ∷ rest) track e =
      elim (Bool-cases (match_source source_code t && (eq_ℤ t.unique_id id || eq_ℤ t.norm_id id))) [
        | inl hit ↦
            let same : t ≡ track = ground (arith, e, hit) in
            rw (← same) (
              ground (arith, hit),
              ground (arith, hit, eq_ℤ_iff t.unique_id id, eq_ℤ_iff t.norm_id id),
            )
        | inr miss ↦ scan_radar-IsHit id source_code rest track (ground (arith, e, miss))
      ]

  at_key-IsHit :
      (source_code : ℤ) (o other : Option (Track W)) (track : Track W)
      → first_some (at_key source_code o) other ≡ some track
      → ((match_source source_code track ≡ true) × (o ≡ some track)) ⊎ (other ≡ some track)
  unfolding at_key
  at_key-IsHit source_code none other track e = inr e
  at_key-IsHit source_code (some t) other track e = elim (Bool-cases (match_source source_code t)) [
    | inl m ↦ let same : t ≡ track = ground (arith, e, m) in inl (rw (← same) m, ap some same)
    | inr m ↦ inr (ground (arith, e, m))
  ]

  -- A radar track that is found for an id comes from the radar that is asked for, and stands under the
  -- id or bears it; and there is none for an id that is not positive.
  pub try_get_radar_track-IsHit :
      (id source_code : ℤ) (table : Dict ℤ (Track W)) (track : Track W)
      → try_get_radar_track id source_code table ≡ some track
      → (pos 0 <ℤ id) × IsHit id source_code table track
  unfolding try_get_radar_track
  try_get_radar_track-IsHit id source_code table track e =
      let found = scan_radar id source_code table in
      let positive : pos 0 <ℤ id = ground (arith, e) in
      let hit : first_some (at_key source_code (lookup id table)) found ≡ some track =
        ground (arith, e) in
      elim (at_key-IsHit source_code (lookup id table) found track hit) [
        | inl (m, k) ↦ (positive, (m, inl k))
        | inr k ↦
            let (m, bears) = scan_radar-IsHit id source_code table track k in
            (positive, (m, inr bears))
      ]
