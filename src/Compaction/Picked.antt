-- ===== src/Compaction/Picked.antt =====
-- What picker.go picks: the tables that are left out of a compaction cannot overlap it.
use mathlib.Core.Option.{some-injective}
use mathlib.Core.List.{Memᴰ}
use hypha_db.Base.{
  ℕ, zero, suc, ◌+◌, ◌%◌, ◌^◌, ◌<◌, ◌≡◌, ◌≢◌, ◌⊎◌, inl, inr, refl, sym, subst, Bool, true, false,
  ◌||◌, Option, none, some, Option-cases, Bool-cases, List, [], ◌∷◌, ◌++◌, leb, ◌==◌, arith, All,
  All-keep_if, Memᴰ-keep_if, ==_iff, suc-eq-zero,
}
use hypha_db.Base.Text.{Text}
use hypha_db.Manifest.{SstableMetadata}
use hypha_db.Compaction.Picker.{
  CompactionPlan, l0, has_key_range, combined_range, source_tables, select, all_ranges_known,
  is_target, targets, below_threshold, pick_compaction, largest_table, total_table_bytes, add_sizes,
  larger, table_bytes,
}
use hypha_db.Compaction.Sizes.{IsLargest, largest_table-IsLargest, level_target_bytes_positive}
use hypha_db.Compaction.Ranges.{IsApart, not_target_lem}

module _ (stat : Text → Option ℕ) where
  -- A plan for the tables of a manifest.
  pub record IsSafePlan (tables : List SstableMetadata) (source_level : ℕ) (plan : CompactionPlan)
      : Type 0 where
    pub selected : List SstableMetadata
    pub targeted : List SstableMetadata
    pub inputs : plan.inputs ≡ selected ++ targeted
    pub levels :
        (plan.source_level ≡ source_level) × (plan.target_level ≡ (source_level + 1) % 2 ^ 32)
    pub all_of_l0 : source_level ≡ l0 → selected ≡ source_tables source_level tables
    pub largest_above_l0 :
        source_level ≢ l0
        → (t : SstableMetadata) × (selected ≡ t ∷ [])
          × IsLargest stat (source_tables source_level tables) t
    pub from_target : All (λ t. Memᴰ t tables × (t.level ≡ plan.target_level)) targeted
    pub complete :
        (t : SstableMetadata)
        → Memᴰ t tables
        → t.level ≡ plan.target_level
        → Memᴰ t targeted ⊎ ((has_key_range t ≡ true) × All (λ s. IsApart s t) selected)

  select-cases :
      (level : ℕ) (source selected : List SstableMetadata)
      → select stat level source ≡ some selected
      → (level ≡ l0 → selected ≡ source)
        × (level ≢ l0 → (t : SstableMetadata) × (selected ≡ t ∷ []) × IsLargest stat source t)
  unfolding select
  select-cases level source selected h = elim (Bool-cases (level == l0)) [
    | inl base ↦
        let same : source ≡ selected = some-injective _ _ (rw base at h) in
        (λ e. sym same, λ above. absurd (above ((==_iff level l0).0 base)))
    | inr higher ↦ elim (Option-cases (largest_table stat source)) [
      | inl nothing ↦ absurd (cc (rw (higher, nothing) at h))
      | inr (t, found) ↦
          let same : t ∷ [] ≡ selected = some-injective _ _ (rw (higher, found) at h) in
          (
            λ e. absurd (cc (higher, (==_iff level l0).1 e)),
            λ above. (t, sym same, largest_table-IsLargest stat source t found),
          )
    ]
  ]

  targets_complete :
      (selected tables : List SstableMetadata) (level : ℕ) (t : SstableMetadata)
      → Memᴰ t tables
      → t.level ≡ level
      → Memᴰ t (targets selected level tables)
        ⊎ ((has_key_range t ≡ true) × All (λ s. IsApart s t) selected)
  unfolding targets
  targets_complete selected tables level t m same =
      let test = is_target (combined_range selected) (all_ranges_known level tables) level in
      elim (Bool-cases (test t)) [
        | inl kept ↦ inl (Memᴰ-keep_if test t tables m kept)
        | inr left_out ↦ inr (not_target_lem selected tables level t m same left_out)
      ]

  is_target-level :
      (range : Option (Text × Text)) (known : Bool) (level : ℕ) (t : SstableMetadata)
      → is_target range known level t ≡ true
      → t.level ≡ level
  unfolding is_target
  is_target-level none known level t h = (==_iff t.level level).0 h
  is_target-level (some (low, high)) known level t h = elim (Bool-cases (t.level == level)) [
    | inl same ↦ (==_iff t.level level).0 same
    | inr differs ↦ absurd (cc (rw differs at h))
  ]

  targets-from_level :
      (selected tables : List SstableMetadata) (level : ℕ)
      → All (λ t. Memᴰ t tables × (t.level ≡ level)) (targets selected level tables)
  unfolding targets
  targets-from_level selected tables level =
      All-keep_if _ _ tables (λ t m kept. (m, is_target-level _ _ level t kept))

  -- A plan takes all tables of L0, or of a higher level one table that no other is larger than;
  -- its other inputs are tables of the next level. A table of that level which is left out has
  -- known bounds, and they do not meet the bounds of any table taken from the source level.
  pub pick_compaction-IsSafePlan :
      (tables : List SstableMetadata) (source_level threshold : ℕ) (plan : CompactionPlan)
      → pick_compaction stat tables source_level threshold ≡ some (some plan)
      → IsSafePlan tables source_level plan
  unfolding pick_compaction
  pick_compaction-IsSafePlan tables source_level threshold plan h =
      let source = source_tables source_level tables in
      let target_level = (source_level + 1) % 2 ^ 32 in
      let idle = leb threshold 0 || below_threshold stat source_level threshold source in
      elim (Bool-cases idle) [
        | inl nothing_to_do ↦ absurd (cc (rw nothing_to_do at h))
        | inr busy ↦ elim (Option-cases (select stat source_level source)) [
          | inl panic ↦ absurd (cc (rw (busy, panic) at h))
          | inr (selected, chosen) ↦
              let split = select-cases source_level source selected chosen in
              subst (IsSafePlan tables source_level)
                (some-injective _ _ (some-injective _ _ (rw (busy, chosen) at h)))
                (record {
                  selected = selected;
                  targeted = targets selected target_level tables;
                  inputs = refl;
                  levels = (refl, refl);
                  all_of_l0 = split.0;
                  largest_above_l0 = split.1;
                  from_target = targets-from_level selected tables target_level;
                  complete = targets_complete selected tables target_level;
                })
        ]
      ]

  nothing_below_threshold :
      (level threshold : ℕ) → 0 < threshold → below_threshold stat (suc level) threshold [] ≡ true
  unfolding below_threshold total_table_bytes add_sizes
  nothing_below_threshold level threshold pos =
      let target = level_target_bytes_positive level in ground (arith, target)

  select_total :
      (source : List SstableMetadata) (level threshold : ℕ)
      → 0 < threshold
      → below_threshold stat level threshold source ≡ false
      → (selected : List SstableMetadata) × (select stat level source ≡ some selected)
  unfolding select largest_table
  select_total source zero threshold pos h = (source, refl)
  select_total [] (suc level) threshold pos h =
      absurd (cc (nothing_below_threshold level threshold pos, h))
  select_total (t ∷ ts) (suc level) threshold pos h =
      (larger stat t (table_bytes stat t) ts ∷ [], rw (suc-eq-zero level) refl)

  -- The choice never indexes an empty slice: it returns a plan, or that there is none.
  pub pick_compaction_total :
      (tables : List SstableMetadata) (source_level threshold : ℕ)
      → (outcome : Option CompactionPlan) × (pick_compaction stat tables source_level threshold
          ≡ some outcome)
  unfolding pick_compaction
  pick_compaction_total tables source_level threshold =
      let source = source_tables source_level tables in
      elim (Bool-cases (leb threshold 0 || below_threshold stat source_level threshold source)) [
        | inl idle ↦ (none, rw idle refl)
        | inr busy ↦
            let pos : 0 < threshold = ground arith in
            let enough : below_threshold stat source_level threshold source ≡ false =
              ground arith in
            let (selected, chosen) = select_total source source_level threshold pos enough in
            (
              some (record {
                source_level = source_level;
                target_level = (source_level + 1) % 2 ^ 32;
                inputs = selected ++ targets selected ((source_level + 1) % 2 ^ 32) tables;
              }),
              rw (busy, chosen) refl,
            )
      ]
