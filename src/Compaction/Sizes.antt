-- ===== src/Compaction/Sizes.antt =====
-- The sizes that picker.go compares: saturating sums and targets, the largest table.
use mathlib.Core.Option.{some-injective}
use mathlib.Core.List.{Memᴰ}
use native.Mathlib.Nat.{pow-succ', mul_assoc, le-mul_of_pos_right, zero-add}
use hypha_db.Base.{
  ℕ, zero, suc, ◌+◌, ◌-◌, ◌*◌, ◌/◌, ◌^◌, ◌≤◌, ◌<◌, ◌≡◌, refl, sym, subst, false, Option, some, List,
  [], ◌∷◌, ltb, leb, ◌==◌, if◌then◌else◌, arith, All, inl, inr, Bool-cases,
}
use hypha_db.Base.Text.{Text}
use hypha_db.Manifest.{SstableMetadata}
use hypha_db.Compaction.Picker.{
  l0, max_uint64, base_level_target_bytes, grow_target, level_target_bytes, table_bytes, add_sizes,
  total_table_bytes, larger, largest_table,
}

-- The uint64 that is nearest to a number.
abbrev pub saturate : ℕ → ℕ
saturate n = if leb n max_uint64 then n else max_uint64

saturate_over : (n : ℕ) → max_uint64 < n → saturate n ≡ max_uint64
saturate_over n h = ground arith

power_positive : (n : ℕ) → 0 < 10 ^ n
power_positive zero = omega arith
power_positive (suc n) = omega (arith, pow-succ' 10 n, power_positive n)

grow_target-saturate :
    (left target : ℕ)
    → 0 < target
    → target ≤ max_uint64
    → grow_target left target ≡ saturate (target * 10 ^ left)
unfolding grow_target
grow_target-saturate zero target pos small = ground arith
grow_target-saturate (suc left) target pos small =
    let step : target * 10 ^ suc left ≡ target * 10 * 10 ^ left =
      rw (pow-succ' 10 left) (sym (mul_assoc target 10 (10 ^ left))) in
    elim (Bool-cases (ltb (max_uint64 / 10) target)) [
      | inl over ↦
          let past : max_uint64 < target * 10 = ground arith in
          let grown : target * 10 ≤ target * 10 * 10 ^ left =
            le-mul_of_pos_right (target * 10) (power_positive left) in
          rw over (sym (saturate_over (target * 10 ^ suc left) (omega (arith, step, past, grown))))
      | inr under ↦
          let fits : target * 10 ≤ max_uint64 = ground arith in
          rw (under, step) (grow_target-saturate left (target * 10) (omega arith) fits)
    ]

-- The byte target of a level above L0 is 64 MiB times ten to the level less one, cut off at the
-- largest uint64.
pub level_target_bytes-saturate :
    (level : ℕ) → level_target_bytes (suc level) ≡ saturate (base_level_target_bytes * 10 ^ level)
unfolding level_target_bytes
level_target_bytes-saturate level =
    let above : (suc level == l0) ≡ false = ground arith in
    let rounds : suc level - 1 ≡ level = omega arith in
    rw (above, rounds)
      (grow_target-saturate level base_level_target_bytes (omega arith) (omega arith))

under_second :
    {t u v : SstableMetadata} {us : List SstableMetadata} → Memᴰ v (t ∷ us) → Memᴰ v (t ∷ u ∷ us)
under_second (Memᴰ.head e) = Memᴰ.head e
under_second (Memᴰ.tail m) = Memᴰ.tail (Memᴰ.tail m)

pub level_target_bytes_positive : (level : ℕ) → 0 < level_target_bytes (suc level)
level_target_bytes_positive level =
    let grown = power_positive level in
    let target = level_target_bytes-saturate level in ground (arith, target)

module _ (stat : Text → Option ℕ) where
  unfoldable pub sum_of_bytes : List SstableMetadata → ℕ
  sum_of_bytes [] = 0
  sum_of_bytes (t ∷ ts) = table_bytes stat t + sum_of_bytes ts

  add_sizes-saturate :
      (total : ℕ) (tables : List SstableMetadata)
      → total ≤ max_uint64
      → add_sizes stat total tables ≡ saturate (total + sum_of_bytes tables)
  unfolding add_sizes sum_of_bytes
  add_sizes-saturate total [] h = ground arith
  add_sizes-saturate total (t ∷ ts) h =
      elim (Bool-cases (ltb (max_uint64 - total) (table_bytes stat t))) [
        | inl over ↦
            let past : max_uint64 < total + (table_bytes stat t + sum_of_bytes ts) = ground arith in
            rw over (sym (saturate_over _ past))
        | inr under ↦
            let fits : total + table_bytes stat t ≤ max_uint64 = ground arith in
            let same : total + table_bytes stat t + sum_of_bytes ts
                ≡ total + (table_bytes stat t + sum_of_bytes ts) =
              omega arith in
            rw (under, ← same) (add_sizes-saturate (total + table_bytes stat t) ts fits)
      ]

  -- The total of a level is the sum of its tables' sizes, cut off at the largest uint64.
  pub total_table_bytes-saturate :
      (tables : List SstableMetadata)
      → total_table_bytes stat tables ≡ saturate (sum_of_bytes tables)
  unfolding total_table_bytes
  total_table_bytes-saturate tables =
      rw (← zero-add (sum_of_bytes tables)) (add_sizes-saturate 0 tables (omega arith))

  -- A table of the list that no other is larger than.
  pub record IsLargest (tables : List SstableMetadata) (t : SstableMetadata) : Type 0 where
    pub member : Memᴰ t tables
    pub largest : All (λ u. table_bytes stat u ≤ table_bytes stat t) tables

  larger-IsLargest :
      (t : SstableMetadata) (tables : List SstableMetadata)
      → IsLargest (t ∷ tables) (larger stat t (table_bytes stat t) tables)
  unfolding larger
  larger-IsLargest t [] = record { member = Memᴰ.head refl; largest = (omega arith, tt) }
  larger-IsLargest t (u ∷ us) = elim (Bool-cases (ltb (table_bytes stat t) (table_bytes stat u))) [
    | inl less ↦
        let rest = larger-IsLargest u us in
        let best = rest.largest.0 in
        let bound : table_bytes stat t ≤ table_bytes stat (larger stat u (table_bytes stat u) us) =
          ground arith in
        rw less (record { member = Memᴰ.tail rest.member; largest = (bound, rest.largest) })
    | inr not_less ↦
        let rest = larger-IsLargest t us in
        let best = rest.largest.0 in
        let bound : table_bytes stat u ≤ table_bytes stat (larger stat t (table_bytes stat t) us) =
          ground arith in
        rw not_less
          (record { member = under_second rest.member; largest = (best, (bound, rest.largest.1)) })
  ]

  -- `largestTable` on tables that are there returns one of them that no other is larger than.
  pub largest_table-IsLargest :
      (tables : List SstableMetadata) (t : SstableMetadata)
      → largest_table stat tables ≡ some t
      → IsLargest tables t
  unfolding largest_table
  largest_table-IsLargest [] t h = absurd (cc h)
  largest_table-IsLargest (u ∷ us) t h =
      subst (IsLargest (u ∷ us)) (some-injective _ _ h) (larger-IsLargest u us)
