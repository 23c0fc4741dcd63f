-- ===== src/Common/Dict.antt =====
-- The ordered maps and sets of the program (`QMap`, `QSet`, `std::map`) as association lists in the
-- order of their keys, which is the order in which an iterator walks a `QMap` or a `std::map`.
pub mod Laws
use Prim.Native.Nat.{Ordering}
use Prim.Native.String.{String}
use Prim.Native.String
use mathlib.Core.Path.{◌≡◌, refl}
use mathlib.Core.Logic.{◌↔◌}
use mathlib.Core.Bool.{Bool, true, false, ◌||◌, ◌&&◌}
use mathlib.Core.Option.{Option, none, some}
use mathlib.Core.List.{List, [], ◌∷◌}
use native.Mathlib.Omega.{arith}
use alarm_sys_linux.Common.Tests.{if◌then◌else◌, str_eq, str_eq_iff}
use alarm_sys_linux.Common.Int.{ℤ, eq_ℤ, ltb_ℤ, eq_ℤ_iff}

-- A key type: its equality, and the order by which a map is walked.
pub record Key {ℓ} (K : Type ℓ) : Type ℓ where
  pub beq : K → K → Bool
  pub lt : K → K → Bool
  pub beq_iff : (a b : K) → (beq a b ≡ true) ↔ (a ≡ b)

instance abbrev pub int_key : Key ℤ
int_key = record { beq = eq_ℤ; lt = ltb_ℤ; beq_iff = eq_ℤ_iff }

-- `QPair<int, qint64>`.
abbrev pair_beq : ℤ × ℤ → ℤ × ℤ → Bool
pair_beq (a, b) (c, d) = eq_ℤ a c && eq_ℤ b d

abbrev pair_lt : ℤ × ℤ → ℤ × ℤ → Bool
pair_lt (a, b) (c, d) = ltb_ℤ a c || (eq_ℤ a c && ltb_ℤ b d)

pub pair_beq_iff : (p q : ℤ × ℤ) → (pair_beq p q ≡ true) ↔ (p ≡ q)
pair_beq_iff (a, b) (c, d) = ground (arith, eq_ℤ_iff a c, eq_ℤ_iff b d)

instance abbrev pub pair_key : Key (ℤ × ℤ)
pair_key = record { beq = pair_beq; lt = pair_lt; beq_iff = pair_beq_iff }

abbrev pub str_lt : String → String → Bool
str_lt s t = elim (String.compare s t) [ Ordering.lt ↦ true | _ ↦ false ]

instance abbrev pub string_key : Key String
string_key = record { beq = str_eq; lt = str_lt; beq_iff = str_eq_iff }

abbrev pub Dict {ℓ κ} : Type ℓ → Type κ → Type (ℓ ⊔ κ)
Dict K V = List (K × V)

module _ {ℓ κ} {K : Type ℓ} {V : Type κ} ⦃e : Key K⦄ where
  -- `constFind`, `value`, `find`.
  unfoldable pub lookup : K → Dict K V → Option V
  lookup k [] = none
  lookup k ((j, v) ∷ m) = if e.beq j k then some v else lookup k m

  -- `remove` and `erase`: every entry of the key goes.
  unfoldable pub erase : K → Dict K V → Dict K V
  erase k [] = []
  erase k ((j, v) ∷ m) = if e.beq j k then erase k m else (j, v) ∷ erase k m

  -- A new entry goes to the place of its key.
  place : K → V → Dict K V → Dict K V
  place k v [] = (k, v) ∷ []
  place k v ((j, w) ∷ m) =
      let rest = place k v m in if e.lt k j then (k, v) ∷ (j, w) ∷ m else (j, w) ∷ rest

  -- `insert` and `map[k] = v`: an old entry of the key goes.
  unfoldable pub insert : K → V → Dict K V → Dict K V
  unfolding place erase
  insert k v m = place k v (erase k m)

  -- `contains`.
  unfoldable pub has_key : K → Dict K V → Bool
  has_key k [] = false
  has_key k ((j, v) ∷ m) = e.beq j k || has_key k m

  -- No key stands twice.
  abbrev pub Distinct : Dict K V → Type 0
  Distinct [] = Unit {0}
  Distinct ((k, v) ∷ m) = (has_key k m ≡ false) × Distinct m

pub beq_refl {ℓ} : {K : Type ℓ} ⦃e : Key K⦄ (k : K) → e.beq k k ≡ true
beq_refl ⦃e⦄ k = (e.beq_iff k k).1 refl
