-- ===== src/Common/Dict/Laws.antt =====
-- What a lookup finds after a write, and the facts about all entries of a map.
use alarm_sys_linux.Common.{
  ◌≡◌, refl, ◌+◌, ◌≤◌, length, Bool, true, false, any, not, ◌&&◌, ◌||◌, none, some, [], ◌∷◌, arith,
  if◌then◌else◌, is_some, All,
}
use alarm_sys_linux.Common.Dict.{
  Key, Dict, lookup, insert, place, erase, has_key, Distinct, beq_refl,
}

module _ {ℓ κ} {K : Type ℓ} {V : Type κ} ⦃e : Key K⦄ where
  pub lookup-erase :
      (j k : K) (m : Dict K V) → lookup j (erase k m) ≡ (if e.beq k j then none else lookup j m)
  unfolding lookup erase
  lookup-erase j k [] = ground arith
  lookup-erase j k ((i, w) ∷ m) =
      ground (arith, e.beq_iff k j, e.beq_iff i k, e.beq_iff i j, lookup-erase j k m)

  has_key-erase :
      (j k : K) (m : Dict K V) → has_key j (erase k m) ≡ (not (e.beq k j) && has_key j m)
  unfolding has_key erase
  has_key-erase j k [] = ground arith
  has_key-erase j k ((i, w) ∷ m) =
      ground (arith, e.beq_iff k j, e.beq_iff i k, e.beq_iff i j, has_key-erase j k m)

  lookup-place :
      (j k : K) (v : V) (m : Dict K V)
      → has_key k m ≡ false
      → lookup j (place k v m) ≡ (if e.beq k j then some v else lookup j m)
  unfolding lookup place has_key
  lookup-place j k v [] h = refl
  lookup-place j k v ((i, w) ∷ m) h =
      ground (arith, e.beq_iff k j, e.beq_iff i k, e.beq_iff i j, lookup-place j k v m)

  has_key-place :
      (j k : K) (v : V) (m : Dict K V) → has_key j (place k v m) ≡ (e.beq k j || has_key j m)
  unfolding has_key place
  has_key-place j k v [] = refl
  has_key-place j k v ((i, w) ∷ m) = ground (arith, has_key-place j k v m)

  has_key-erase_self : (k : K) (m : Dict K V) → has_key k (erase k m) ≡ false
  has_key-erase_self k m = ground (arith, has_key-erase k k m, e.beq_iff k k)

  pub lookup-insert :
      (j k : K) (v : V) (m : Dict K V)
      → lookup j (insert k v m) ≡ (if e.beq k j then some v else lookup j m)
  unfolding insert
  lookup-insert j k v m =
      ground (arith, lookup-place j k v (erase k m), has_key-erase_self k m, lookup-erase j k m)

  pub has_key-insert :
      (j k : K) (v : V) (m : Dict K V) → has_key j (insert k v m) ≡ (e.beq k j || has_key j m)
  unfolding insert
  has_key-insert j k v m =
      ground (arith, has_key-place j k v (erase k m), has_key-erase j k m, e.beq_iff k j)

  pub lookup-has_key : (k : K) (m : Dict K V) → has_key k m ≡ false → lookup k m ≡ none
  unfolding lookup has_key
  lookup-has_key k [] h = refl
  lookup-has_key k ((i, w) ∷ m) h = ground (arith, lookup-has_key k m)

  pub has_key_iff : (k : K) (m : Dict K V) → has_key k m ≡ is_some (lookup k m)
  unfolding lookup has_key
  has_key_iff k [] = refl
  has_key_iff k ((i, w) ∷ m) = ground (arith, has_key_iff k m)

  pub erase-Distinct : (k : K) (m : Dict K V) → Distinct m → Distinct (erase k m)
  unfolding erase
  erase-Distinct k [] d = tt
  erase-Distinct k ((i, w) ∷ m) d = ground (arith, erase-Distinct k m d.1, has_key-erase i k m)

  place-Distinct :
      (k : K) (v : V) (m : Dict K V) → has_key k m ≡ false → Distinct m → Distinct (place k v m)
  unfolding place has_key
  place-Distinct k v [] h d = (refl, tt)
  place-Distinct k v ((i, w) ∷ m) h d =
      ground (arith, place-Distinct k v m, has_key-place i k v m, e.beq_iff i k, e.beq_iff k i)

  pub insert-Distinct : (k : K) (v : V) (m : Dict K V) → Distinct m → Distinct (insert k v m)
  unfolding insert
  insert-Distinct k v m d =
      place-Distinct k v (erase k m) (has_key-erase_self k m) (erase-Distinct k m d)

  pub erase-All : (P : K × V → Type 0) (k : K) (m : Dict K V) → All P m → All P (erase k m)
  unfolding erase
  erase-All P k [] h = tt
  erase-All P k ((i, w) ∷ m) h = ground (arith, erase-All P k m h.1)

  place-All :
      (P : K × V → Type 0) (k : K) (v : V) (m : Dict K V) → P (k, v) → All P m → All P (place k v m)
  unfolding place
  place-All P k v [] p h = (p, tt)
  place-All P k v ((i, w) ∷ m) p h = ground (arith, place-All P k v m p h.1)

  pub insert-All :
      (P : K × V → Type 0) (k : K) (v : V) (m : Dict K V)
      → P (k, v)
      → All P m
      → All P (insert k v m)
  unfolding insert
  insert-All P k v m p h = place-All P k v (erase k m) p (erase-All P k m h)

  pub lookup-All :
      (P : K × V → Type 0) (k : K) (v : V) (m : Dict K V) → All P m → lookup k m ≡ some v → P (k, v)
  unfolding lookup
  lookup-All P k v [] h q = ground arith
  lookup-All P k v ((i, w) ∷ m) h q = ground (arith, lookup-All P k v m h.1, e.beq_iff i k)

  any-place :
      (test : K × V → Bool) (k : K) (v : V) (m : Dict K V)
      → test (k, v) ≡ true
      → any test (place k v m) ≡ true
  unfolding place
  any-place test k v [] h = ground (arith, h)
  any-place test k v ((i, w) ∷ m) h = ground (arith, h, any-place test k v m h)

  pub any-insert :
      (test : K × V → Bool) (k : K) (v : V) (m : Dict K V)
      → test (k, v) ≡ true
      → any test (insert k v m) ≡ true
  unfolding insert
  any-insert test k v m h = any-place test k v (erase k m) h

module _ {ℓ κ} {K : Type ℓ} {V : Type κ} ⦃e : Key K⦄ where
  length-erase-le : (k : K) (m : Dict K V) → length (erase k m) ≤ length m
  unfolding erase
  length-erase-le k [] = omega arith
  length-erase-le k ((i, w) ∷ m) = ground (arith, length-erase-le k m)

  length-place : (k : K) (v : V) (m : Dict K V) → length (place k v m) ≡ length m + 1
  unfolding place
  length-place k v [] = omega arith
  length-place k v ((i, w) ∷ m) = ground (arith, length-place k v m)

  pub length-insert-le : (k : K) (v : V) (m : Dict K V) → length (insert k v m) ≤ length m + 1
  unfolding insert
  length-insert-le k v m = omega (arith, length-place k v (erase k m), length-erase-le k m)

  has_key-All :
      (x : K × V) (rest part : Dict K V)
      → All (λ (p : K × V). has_key p.0 rest ≡ true) part
      → All (λ (p : K × V). has_key p.0 (x ∷ rest) ≡ true) part
  unfolding has_key
  has_key-All x rest [] h = tt
  has_key-All x rest (p ∷ part) h = (ground (arith, h.0), has_key-All x rest part h.1)

  -- A map has the key of each of its entries.
  pub has_own_keys : (m : Dict K V) → All (λ (p : K × V). has_key p.0 m ≡ true) m
  unfolding has_key
  has_own_keys [] = tt
  has_own_keys ((k, v) ∷ m) = (ground (arith, beq_refl k), has_key-All (k, v) m m (has_own_keys m))

pub ruleset dict_laws = (lookup-insert, lookup-erase)
