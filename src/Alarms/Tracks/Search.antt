-- ===== src/Alarms/Tracks/Search.antt =====
-- What `findTrackByUniqueId` (src/customconfig.cpp) finds, and when it finds something.
use alarm_sys_linux.Common.{
  ◌≡◌, refl, ◌⊎◌, inl, inr, Bool, true, false, Option, Bool-cases, is_some, ◌||◌, ◌&&◌, none, some,
  [], ◌∷◌, arith,
}
use alarm_sys_linux.Common.Int.{ℤ, pos, eq_ℤ, eq_ℤ_iff, leb_ℤ, ◌<ℤ◌}
use alarm_sys_linux.Common.Dict.{Dict, lookup, int_key}
use alarm_sys_linux.Alarms.Tracks.{
  Track, Tracks, TrackHit, int_max, or_else, hit_of, try_map, scan_by_secondary_unique_id, for_int,
  find_track_by_unique_id, search_tables,
}

module _ {W : Type 0} where
  -- The track is an entry of the map, under the id or with the id in it.
  abbrev pub Stands : ℤ → Track W → Dict ℤ (Track W) → Type 0
  Stands id track [] = ⊥
  Stands id track ((k, t) ∷ rest) =
      ((t ≡ track) × ((k ≡ id) ⊎ (t.unique_id ≡ id))) ⊎ Stands id track rest

  -- The same as a test for any track.
  abbrev pub knows : ℤ → Dict ℤ (Track W) → Bool
  knows id [] = false
  knows id ((k, t) ∷ rest) = eq_ℤ k id || eq_ℤ t.unique_id id || knows id rest

  -- The hit is a track of one of the four tables, and says whether that is a table of air tracks.
  abbrev pub InTables : Tracks W → ℤ → Option (TrackHit W) → Type 0
  InTables cfg id none = Unit {0}
  InTables cfg id (some hit) =
      (hit.is_air_track ≡ true)
        × (Stands id hit.track cfg.bird_fuse_track ⊎ Stands id hit.track cfg.bird_radar_track)
      ⊎ (hit.is_air_track ≡ false)
        × (Stands id hit.track cfg.fuse_track ⊎ Stands id hit.track cfg.radar_track)

  abbrev From : ℤ → Bool → Dict ℤ (Track W) → Option (TrackHit W) → Type 0
  From id is_air m none = Unit {0}
  From id is_air m (some hit) = Stands id hit.track m × (hit.is_air_track ≡ is_air)

  lookup-Stands :
      (id : ℤ) (m : Dict ℤ (Track W)) (track : Track W)
      → lookup id m ≡ some track
      → Stands id track m
  unfolding lookup
  lookup-Stands id [] track e = cc
  lookup-Stands id ((k, t) ∷ rest) track e =
      ground (arith, lookup-Stands id rest track, eq_ℤ_iff k id)

  hit_of-From :
      (id : ℤ) (air : Bool) (m : Dict ℤ (Track W)) (found : Option (Track W))
      → lookup id m ≡ found
      → From id air m (hit_of air found)
  unfolding hit_of
  hit_of-From id air m none e = tt
  hit_of-From id air m (some track) e = (lookup-Stands id m track e, refl)

  try_map-From : (id : ℤ) (air : Bool) (m : Dict ℤ (Track W)) → From id air m (try_map id air m)
  unfolding try_map
  try_map-From id air m = hit_of-From id air m (lookup id m) refl

  scan-From :
      (id : ℤ) (air : Bool) (m : Dict ℤ (Track W))
      → From id air m (scan_by_secondary_unique_id id air m)
  unfolding scan_by_secondary_unique_id
  scan-From id air [] = tt
  scan-From id air ((k, t) ∷ rest) = elim (Bool-cases (eq_ℤ t.unique_id id)) [
    | inl e ↦ rw e (inl (refl, inr ((eq_ℤ_iff t.unique_id id).0 e)), refl)
    | inr e ↦ rw e (later (scan_by_secondary_unique_id id air rest) (scan-From id air rest))
  ]
    where
      later : (hit : Option (TrackHit W)) → From id air rest hit → From id air ((k, t) ∷ rest) hit
      later none h = tt
      later (some hit) h = (inr h.0, h.1)

  or_else-InTables :
      (cfg : Tracks W) (id : ℤ) (a b : Option (TrackHit W))
      → InTables cfg id a
      → InTables cfg id b
      → InTables cfg id (or_else a b)
  unfolding or_else
  or_else-InTables cfg id none b p q = q
  or_else-InTables cfg id (some hit) b p q = p

  for_int-InTables :
      (cfg : Tracks W) (id : ℤ) (a : Option (TrackHit W))
      → InTables cfg id a
      → InTables cfg id (for_int id a)
  unfolding for_int
  for_int-InTables cfg id a p = ground arith

  bird_fuse-InTables :
      (cfg : Tracks W) (id : ℤ) (a : Option (TrackHit W))
      → From id true cfg.bird_fuse_track a
      → InTables cfg id a
  bird_fuse-InTables cfg id none p = tt
  bird_fuse-InTables cfg id (some hit) p = inl (p.1, inl p.0)

  bird_radar-InTables :
      (cfg : Tracks W) (id : ℤ) (a : Option (TrackHit W))
      → From id true cfg.bird_radar_track a
      → InTables cfg id (for_int id a)
  bird_radar-InTables cfg id none p = for_int-InTables cfg id none tt
  bird_radar-InTables cfg id (some hit) p = for_int-InTables cfg id (some hit) (inl (p.1, inr p.0))

  fuse-InTables :
      (cfg : Tracks W) (id : ℤ) (a : Option (TrackHit W))
      → From id false cfg.fuse_track a
      → InTables cfg id a
  fuse-InTables cfg id none p = tt
  fuse-InTables cfg id (some hit) p = inr (p.1, inl p.0)

  radar-InTables :
      (cfg : Tracks W) (id : ℤ) (a : Option (TrackHit W))
      → From id false cfg.radar_track a
      → InTables cfg id (for_int id a)
  radar-InTables cfg id none p = for_int-InTables cfg id none tt
  radar-InTables cfg id (some hit) p = for_int-InTables cfg id (some hit) (inr (p.1, inr p.0))

  search-InTables : (cfg : Tracks W) (id : ℤ) → InTables cfg id (search_tables cfg id)
  unfolding search_tables
  search-InTables cfg id =
      or_else-InTables cfg id _ _
        (bird_fuse-InTables cfg id _ (try_map-From id true cfg.bird_fuse_track))
        (or_else-InTables cfg id _ _
          (bird_radar-InTables cfg id _ (try_map-From id true cfg.bird_radar_track))
          (or_else-InTables cfg id _ _
            (fuse-InTables cfg id _ (try_map-From id false cfg.fuse_track))
            (or_else-InTables cfg id _ _
              (radar-InTables cfg id _ (try_map-From id false cfg.radar_track))
              (or_else-InTables cfg id _ _
                (bird_fuse-InTables cfg id _ (scan-From id true cfg.bird_fuse_track))
                (or_else-InTables cfg id _ _
                  (bird_radar-InTables cfg id _ (scan-From id true cfg.bird_radar_track))
                  (or_else-InTables cfg id _ _
                    (fuse-InTables cfg id _ (scan-From id false cfg.fuse_track))
                    (radar-InTables cfg id _ (scan-From id false cfg.radar_track))))))))

  -- A track that the search of the tables finds stands in one of them, under the id or with the id
  -- in it, and the answer says whether it is a table of air tracks.
  pub find_track-InTables :
      (cfg : Tracks W) (id : ℤ) → InTables cfg id (find_track_by_unique_id cfg id)
  unfolding find_track_by_unique_id
  find_track-InTables cfg id = ground (arith, search-InTables cfg id)

  is_some-or_else : (a b : Option (TrackHit W)) → is_some (or_else a b) ≡ (is_some a || is_some b)
  unfolding or_else
  is_some-or_else none b = refl
  is_some-or_else (some hit) b = refl

  is_some-for_int :
      (id : ℤ) (a : Option (TrackHit W)) → is_some (for_int id a) ≡ (leb_ℤ id int_max && is_some a)
  unfolding for_int
  is_some-for_int id a = ground arith

  is_some-hit_of :
      (air : Bool) (id : ℤ) (m : Dict ℤ (Track W))
      → (is_some (hit_of air (lookup id m)) || is_some (scan_by_secondary_unique_id id air m))
        ≡ knows id m
  unfolding hit_of lookup scan_by_secondary_unique_id
  is_some-hit_of air id [] = refl
  is_some-hit_of air id ((k, t) ∷ rest) = ground (arith, is_some-hit_of air id rest)

  is_some-search :
      (air : Bool) (id : ℤ) (m : Dict ℤ (Track W))
      → (is_some (try_map id air m) || is_some (scan_by_secondary_unique_id id air m)) ≡ knows id m
  unfolding try_map
  is_some-search air id m = is_some-hit_of air id m

  -- For a positive id the search of the tables finds a track exactly when a table of fused tracks has
  -- an entry under the id or with the id in it, or the id fits an `int` and a table of radar tracks
  -- has one.
  pub is_some-find_track :
      (cfg : Tracks W) (id : ℤ)
      → pos 0 <ℤ id
      → is_some (find_track_by_unique_id cfg id) ≡ (
          knows id cfg.bird_fuse_track
          || knows id cfg.fuse_track
          || (leb_ℤ id int_max && (knows id cfg.bird_radar_track || knows id cfg.radar_track)))
  unfolding find_track_by_unique_id search_tables
  is_some-find_track cfg id p =
      let bf = is_some-search true id cfg.bird_fuse_track in
      let br = is_some-search true id cfg.bird_radar_track in
      let f = is_some-search false id cfg.fuse_track in
      let r = is_some-search false id cfg.radar_track in
      let positive : leb_ℤ id (pos 0) ≡ false = ground arith in
      rw positive (simp (is_some-or_else, is_some-for_int) (ground (arith, bf, br, f, r)))
