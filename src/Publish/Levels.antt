-- ===== src/Publish/Levels.antt =====
-- What the levels of the event say of the scores (`SendAllAlarmEventMsg`, src/customconfig.cpp).
use alarm_sys_linux.Common.{
  ◌≡◌, refl, ◌∙◌, ◌⊎◌, inl, inr, ℕ, zero, suc, ◌≤◌, ◌<◌, String, Bool, true, false, ◌&&◌, ◌||◌,
  none, List, [], ◌∷◌, arith, any, All, str_eq, str_eq_iff, Bool-cases,
}
use alarm_sys_linux.Common.Int.{ℤ, eq_ℤ, eq_ℤ_iff, ◌≤ℤ◌, ◌<ℤ◌}
use alarm_sys_linux.Common.Dict.{Dict, lookup, insert, has_key, Distinct, string_key}
use alarm_sys_linux.Common.Dict.Laws.{lookup-insert}
use alarm_sys_linux.Publish.Rank.{
  Ranked, before, put, sort, assign, level_map, or_zero, alarm_level_of,
}

-- Whether an alarm stands in a list with its score.
abbrev pub is_ranked : String → ℤ → List Ranked → Bool
is_ranked id score xs = any (λ (y : Ranked). str_eq y.0 id && eq_ℤ y.1 score) xs

-- No score is above one that stands before it.
abbrev IsDescending : List Ranked → Type 0
IsDescending [] = Unit
IsDescending (x ∷ xs) = All (λ (y : Ranked). y.1 ≤ℤ x.1) xs × IsDescending xs

any-put : (f : Ranked → Bool) (x : Ranked) (xs : List Ranked) → any f (put x xs) ≡ (f x || any f xs)
unfolding put
any-put f x [] = refl
any-put f x (y ∷ ys) = ground (arith, any-put f x ys)

any-sort : (f : Ranked → Bool) (xs : List Ranked) → any f (sort xs) ≡ any f xs
unfolding sort
any-sort f [] = refl
any-sort f (x ∷ xs) = ground (arith, any-put f x (sort xs), any-sort f xs)

has_key-put :
    (id : String) (x : Ranked) (xs : List Ranked)
    → has_key id (put x xs) ≡ (str_eq x.0 id || has_key id xs)
unfolding put has_key
has_key-put id x [] = refl
has_key-put id x (y ∷ ys) = ground (arith, has_key-put id x ys)

has_key-sort : (id : String) (xs : List Ranked) → has_key id (sort xs) ≡ has_key id xs
unfolding sort has_key
has_key-sort id [] = refl
has_key-sort id (x ∷ xs) = ground (arith, has_key-put id x (sort xs), has_key-sort id xs)

put-Distinct :
    (x : Ranked) (xs : List Ranked) → has_key x.0 xs ≡ false → Distinct xs → Distinct (put x xs)
unfolding put has_key
put-Distinct x [] h k = (refl, tt)
put-Distinct x (y ∷ ys) h k =
    ground (
      arith,
      h,
      k.0,
      put-Distinct x ys,
      has_key-put y.0 x ys,
      str_eq_iff y.0 x.0,
      str_eq_iff x.0 y.0,
    )

sort-Distinct : (xs : List Ranked) → Distinct xs → Distinct (sort xs)
unfolding sort
sort-Distinct [] k = tt
sort-Distinct (x ∷ xs) k =
    put-Distinct x (sort xs) (has_key-sort x.0 xs ∙ k.0) (sort-Distinct xs k.1)

All-put : (P : Ranked → Type 0) (x : Ranked) (xs : List Ranked) → P x → All P xs → All P (put x xs)
unfolding put
All-put P x [] p h = (p, tt)
All-put P x (y ∷ ys) p h = ground (arith, p, h.0, h.1, All-put P x ys p h.1)

All-below :
    (low high : ℤ) (xs : List Ranked)
    → low ≤ℤ high
    → All (λ (y : Ranked). y.1 ≤ℤ low) xs
    → All (λ (y : Ranked). y.1 ≤ℤ high) xs
All-below low high [] h a = tt
All-below low high (x ∷ xs) h a = (omega (arith, h, a.0), All-below low high xs h a.1)

before-cases :
    (x y : Ranked) → ((before y x ≡ true) × (x.1 ≤ℤ y.1)) ⊎ ((before y x ≡ false) × (y.1 ≤ℤ x.1))
unfolding before
before-cases (a, score) (b, other) = ground (arith, eq_ℤ_iff other score)

put-IsDescending : (x : Ranked) (xs : List Ranked) → IsDescending xs → IsDescending (put x xs)
unfolding put
put-IsDescending x [] d = (tt, tt)
put-IsDescending x (y ∷ ys) d = elim (before-cases x y) [
  | inl (b, le) ↦ rw b (All-put (λ (z : Ranked). z.1 ≤ℤ y.1) x ys le d.0, put-IsDescending x ys d.1)
  | inr (b, le) ↦ rw b ((le, All-below y.1 x.1 ys le d.0), d)
]

sort-IsDescending : (xs : List Ranked) → IsDescending (sort xs)
unfolding sort
sort-IsDescending [] = tt
sort-IsDescending (x ∷ xs) = put-IsDescending x (sort xs) (sort-IsDescending xs)

assign-other :
    (n : ℕ) (xs : List Ranked) (levels : Dict String ℕ) (id : String)
    → has_key id xs ≡ false
    → lookup id (assign n xs levels) ≡ lookup id levels
unfolding assign has_key
assign-other zero xs levels id h = refl
assign-other (suc n) [] levels id h = refl
assign-other (suc n) ((c, u) ∷ rest) levels id h =
    let next : Dict String ℕ = insert c (suc n) levels in
    ground (arith, h, assign-other n rest next id, lookup-insert id c (suc n) levels)

-- An id that has no level yet gets one of at most `n`.
assign-le :
    (n : ℕ) (xs : List Ranked) (levels : Dict String ℕ) (id : String)
    → Distinct xs
    → lookup id levels ≡ none
    → or_zero (lookup id (assign n xs levels)) ≤ n
unfolding assign has_key
assign-le zero xs levels id d k = ground (arith, k)
assign-le (suc n) [] levels id d k = ground (arith, k)
assign-le (suc n) ((c, u) ∷ rest) levels id d k =
    let next : Dict String ℕ = insert c (suc n) levels in
    ground (
      arith,
      d.0,
      k,
      lookup-insert id c (suc n) levels,
      str_eq_iff c id,
      assign-other n rest next id,
      assign-le n rest next id d.1,
    )

ranked-has_key :
    (id : String) (score : ℤ) (xs : List Ranked)
    → is_ranked id score xs ≡ true
    → has_key id xs ≡ true
unfolding has_key
ranked-has_key id score [] h = cc
ranked-has_key id score ((c, u) ∷ rest) h = ground (arith, h, ranked-has_key id score rest)

ranked-All :
    (P : ℤ → Type 0) (id : String) (score : ℤ) (xs : List Ranked)
    → is_ranked id score xs ≡ true
    → All (λ (y : Ranked). P y.1) xs
    → P score
ranked-All P id score [] h a = cc
ranked-All P id score ((c, u) ∷ rest) h a =
    ground (arith, h, a.0, ranked-All P id score rest, a.1, eq_ℤ_iff u score)

-- The level of the one is above that of the other, or the other has none.
abbrev pub IsAbove : String → String → Dict String ℕ → Type 0
IsAbove a b levels =
    (alarm_level_of levels b ≡ 0) ⊎ (alarm_level_of levels b < alarm_level_of levels a)

assign-IsAbove :
    (n : ℕ) (xs : List Ranked) (levels : Dict String ℕ) (a b : String) (s t : ℤ)
    → Distinct xs
    → IsDescending xs
    → is_ranked a s xs ≡ true
    → is_ranked b t xs ≡ true
    → t <ℤ s
    → lookup a levels ≡ none
    → lookup b levels ≡ none
    → IsAbove a b (assign n xs levels)
unfolding assign has_key alarm_level_of
assign-IsAbove zero xs levels a b s t k d ha hb lt la lb = inl (ground (arith, lb))
assign-IsAbove (suc n) [] levels a b s t k d ha hb lt la lb = cc
assign-IsAbove (suc n) ((c, u) ∷ rest) levels a b s t k d ha hb lt la lb =
    let next : Dict String ℕ = insert c (suc n) levels in
    elim (Bool-cases (str_eq c a)) [
      | inl ea ↦ elim (Bool-cases (str_eq c b)) [
        | inl eb ↦ ground (
          arith,
          k.0,
          ranked-has_key b t rest,
          str_eq_iff c b,
          eq_ℤ_iff u t,
          hb,
          eb,
          lt,
          ha,
          ea,
          ranked-has_key a s rest,
          str_eq_iff c a,
          eq_ℤ_iff u s,
        )
        | inr eb ↦
            let lower =
              assign-le n rest next b k.1
                (ground (arith, eb, lb, lookup-insert b c (suc n) levels)) in
            inr (
              ground (
                arith,
                lower,
                ea,
                k.0,
                str_eq_iff c a,
                assign-other n rest next a,
                lookup-insert a c (suc n) levels,
              ))
      ]
      | inr ea ↦ elim (Bool-cases (str_eq c b)) [
        | inl eb ↦
            let in_rest : is_ranked a s rest ≡ true = ground (arith, ha, ea) in
            ground (
              arith,
              k.0,
              ranked-has_key b t rest,
              str_eq_iff c b,
              eq_ℤ_iff u t,
              hb,
              eb,
              lt,
              ranked-All (λ (z : ℤ). z ≤ℤ u) a s rest in_rest d.0,
            )
        | inr eb ↦
            assign-IsAbove n rest next a b s t k.1 d.1 (ground (arith, ha, ea))
              (ground (arith, hb, eb)) lt (ground (arith, ea, la, lookup-insert a c (suc n) levels))
              (ground (arith, eb, lb, lookup-insert b c (suc n) levels))
      ]
    ]

-- Of two alarms that are ranked, with no id twice, the one with the higher score gets the higher
-- level, or the other one gets none.
pub level_map-IsAbove :
    (valid_alarms : List Ranked) (a b : String) (s t : ℤ)
    → Distinct valid_alarms
    → is_ranked a s valid_alarms ≡ true
    → is_ranked b t valid_alarms ≡ true
    → t <ℤ s
    → IsAbove a b (level_map valid_alarms)
unfolding level_map lookup
level_map-IsAbove valid_alarms a b s t k ha hb lt =
    let sorted = sort valid_alarms in
    assign-IsAbove 5 sorted [] a b s t (sort-Distinct valid_alarms k)
      (sort-IsDescending valid_alarms)
      (any-sort (λ (y : Ranked). str_eq y.0 a && eq_ℤ y.1 s) valid_alarms ∙ ha)
      (any-sort (λ (y : Ranked). str_eq y.0 b && eq_ℤ y.1 t) valid_alarms ∙ hb) lt refl refl
