-- ===== src/Config/Ids.antt =====
-- The sets of ids that the settings hold, and their texts (src/customconfig.cpp,
-- src/dialog/alarm/TrackAlarmThread.cpp).
use alarm_sys_linux.Common.{
  ◌≡◌, refl, ◌∙◌, Bool, true, false, not, ◌||◌, Option, none, some, List, [], ◌∷◌, any, map, arith,
}
use alarm_sys_linux.Common.Int.{ℤ, eq_ℤ, eq_ℤ_iff}
use alarm_sys_linux.Config.{
  Csv, contains, add_number, add_parts, parse_csv_int_set, bird_skip_ids_to_string,
}

-- What Qt promises: a number is read back as it was written, and its text is plain; plain texts that
-- are joined are split again as they were; and sorting keeps what the list holds.
pub record IsCsv {S : Type 0} (csv : Csv S) : Type 0 where
  pub reads_back : (z : ℤ) → csv.to_int (csv.number z) ≡ some z
  pub number_plain : (z : ℤ) → csv.is_plain (csv.number z) ≡ true
  pub split_join :
      (parts : List S)
      → any (λ p. not (csv.is_plain p)) parts ≡ false
      → csv.split_commas (csv.join_commas parts) ≡ parts
  pub any_sort : (p : S → Bool) (xs : List S) → any p (csv.sort xs) ≡ any p xs

module _ {S : Type 0} (csv : Csv S) where
  -- Whether a text reads as a number.
  abbrev reads_as : ℤ → Option ℤ → Bool
  reads_as v none = false
  reads_as v (some n) = eq_ℤ n v

  contains-add_number :
      (o : Option ℤ) (out : List ℤ) (v : ℤ)
      → contains (add_number csv o out) v ≡ (contains out v || reads_as v o)
  unfolding add_number
  contains-add_number none out v = ground arith
  contains-add_number (some n) out v = ground (arith, eq_ℤ_iff n v)

  contains-add_parts :
      (parts : List S) (out : List ℤ) (v : ℤ)
      → contains (add_parts csv parts out) v
        ≡ (contains out v || any (λ p. reads_as v (csv.to_int p)) parts)
  unfolding add_parts
  contains-add_parts [] out v = ground arith
  contains-add_parts (p ∷ rest) out v = ground (
    arith,
    contains-add_parts rest (add_number csv (csv.to_int p) out) v,
    contains-add_number (csv.to_int p) out v,
  )

  plain_numbers :
      (ids : List ℤ) → IsCsv csv → any (λ p. not (csv.is_plain p)) (map csv.number ids) ≡ false
  plain_numbers [] h = refl
  plain_numbers (id ∷ rest) h = ground (arith, h.number_plain id, plain_numbers rest h)

  any-number :
      (ids : List ℤ) (v : ℤ)
      → IsCsv csv
      → any (λ p. reads_as v (csv.to_int p)) (map csv.number ids) ≡ contains ids v
  any-number [] v h = refl
  any-number (id ∷ rest) v h = ground (arith, h.reads_back id, any-number rest v h)

  -- The text of a set of ids is read back as the same set; where a number is read back as it was
  -- written and its text is plain, plain texts that are joined are split again as they were, and sorting
  -- keeps what a list holds.
  pub parse_csv-bird_skip_ids :
      (ids : List ℤ) (v : ℤ)
      → IsCsv csv
      → contains (parse_csv_int_set csv (bird_skip_ids_to_string csv ids)) v ≡ contains ids v
  unfolding parse_csv_int_set bird_skip_ids_to_string
  parse_csv-bird_skip_ids ids v h =
      let parts = csv.sort (map csv.number ids) in
      let plain =
        h.any_sort (λ p. not (csv.is_plain p)) (map csv.number ids) ∙ plain_numbers ids h in
      rw (h.split_join parts plain) (
        contains-add_parts parts [] v
        ∙ h.any_sort (λ p. reads_as v (csv.to_int p)) (map csv.number ids)
        ∙ any-number ids v h)
