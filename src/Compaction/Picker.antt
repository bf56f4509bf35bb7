-- ===== src/Compaction/Picker.antt =====
-- internal/compaction/picker.go: the choice of the tables of a compaction.
use hypha_db.Base.{
  ℕ, zero, suc, ◌+◌, ◌-◌, ◌*◌, ◌/◌, ◌%◌, ◌^◌, Bool, true, false, not, ◌&&◌, ◌||◌, Option, none,
  some, List, [], ◌∷◌, ◌++◌, length, ltb, leb, ◌==◌, if◌then◌else◌, keep_if,
}
use hypha_db.Base.Text.{Text, text_lt, text_le}
use hypha_db.Manifest.{SstableMetadata}

abbrev pub l0 : ℕ
l0 = 0

abbrev pub base_level_target_bytes : ℕ
base_level_target_bytes = 64 * 1024 * 1024

-- `^uint64(0)`
abbrev pub max_uint64 : ℕ
max_uint64 = 2 ^ 64 - 1

pub record CompactionPlan : Type 0 where
  pub source_level : ℕ
  pub target_level : ℕ
  pub inputs : List SstableMetadata

-- A Go string is empty when its length is 0.
abbrev pub is_empty : Text → Bool
is_empty key = length key == 0

unfoldable pub has_key_range : SstableMetadata → Bool
has_key_range t = not (is_empty t.smallest_key) && not (is_empty t.largest_key)

unfoldable pub ranges_overlap : Text → Text → Text → Text → Bool
ranges_overlap left_min left_max right_min right_max =
    text_le left_min right_max && text_le right_min left_max

-- The loop of `combinedRange` over the tables after the first.
unfoldable pub combine : Text → Text → List SstableMetadata → Option (Text × Text)
combine min_key max_key [] = some (min_key, max_key)
combine min_key max_key (t ∷ ts) =
    let rest =
      combine (if text_lt t.smallest_key min_key then t.smallest_key else min_key)
        (if text_lt max_key t.largest_key then t.largest_key else max_key) ts in
    if has_key_range t then rest else none

-- `none` is the result `"", "", false`.
unfoldable pub combined_range : List SstableMetadata → Option (Text × Text)
combined_range [] = none
combined_range (t ∷ ts) =
    let rest = combine t.smallest_key t.largest_key ts in if has_key_range t then rest else none

-- The rounds of the loop from `current = 1` that are left.
unfoldable pub grow_target : ℕ → ℕ → ℕ
grow_target zero target = target
grow_target (suc left) target =
    let rest = grow_target left (target * 10) in
    if ltb (max_uint64 / 10) target then max_uint64 else rest

unfoldable pub level_target_bytes : ℕ → ℕ
level_target_bytes level =
    let grown = grow_target (level - 1) base_level_target_bytes in if level == l0 then 0 else grown

abbrev pub source_tables : ℕ → List SstableMetadata → List SstableMetadata
source_tables source_level tables = keep_if (λ t. t.level == source_level) tables

-- The two loops over the tables of the target level.
unfoldable pub all_ranges_known : ℕ → List SstableMetadata → Bool
all_ranges_known target_level [] = true
all_ranges_known target_level (t ∷ ts) =
    let rest = all_ranges_known target_level ts in
    if (t.level == target_level) && not (has_key_range t) then false else rest

unfoldable pub is_target : Option (Text × Text) → Bool → ℕ → SstableMetadata → Bool
is_target none known target_level t = t.level == target_level
is_target (some (min_key, max_key)) known target_level t =
    (t.level == target_level)
    && (not known || ranges_overlap min_key max_key t.smallest_key t.largest_key)

unfoldable pub targets : List SstableMetadata → ℕ → List SstableMetadata → List SstableMetadata
targets selected target_level tables =
    keep_if
      (is_target (combined_range selected) (all_ranges_known target_level tables) target_level)
      tables

-- `os.Stat`: the size of the file at a path, or `none` where it fails.
module _ (stat : Text → Option ℕ) where
  unfoldable pub table_bytes : SstableMetadata → ℕ
  table_bytes t =
      if not (t.size_bytes == 0)
      then t.size_bytes
      else elim (stat t.path) [ none ↦ 0 | some size ↦ if ltb 0 size then size else 0 ]

  -- The loop of `totalTableBytes`.
  unfoldable pub add_sizes : ℕ → List SstableMetadata → ℕ
  add_sizes total [] = total
  add_sizes total (t ∷ ts) =
      let size = table_bytes t in
      let rest = add_sizes (total + size) ts in
      if ltb (max_uint64 - total) size then max_uint64 else rest

  unfoldable pub total_table_bytes : List SstableMetadata → ℕ
  total_table_bytes tables = add_sizes 0 tables

  -- The loop of `largestTable`.
  unfoldable pub larger : SstableMetadata → ℕ → List SstableMetadata → SstableMetadata
  larger largest largest_size [] = largest
  larger largest largest_size (t ∷ ts) =
      let size = table_bytes t in
      let replaced = larger t size ts in
      let kept = larger largest largest_size ts in if ltb largest_size size then replaced else kept

  -- `none` is the panic of `tables[0]` on an empty slice.
  unfoldable pub largest_table : List SstableMetadata → Option SstableMetadata
  largest_table [] = none
  largest_table (t ∷ ts) = some (larger t (table_bytes t) ts)

  -- `selected`
  unfoldable pub select : ℕ → List SstableMetadata → Option (List SstableMetadata)
  select source_level source =
      if source_level == l0
      then some source
      else elim (largest_table source) [ none ↦ none | some t ↦ some (t ∷ []) ]

  unfoldable pub below_threshold : ℕ → ℕ → List SstableMetadata → Bool
  below_threshold source_level threshold source =
      ltb (length source) threshold
      && ((source_level == l0) || ltb (total_table_bytes source) (level_target_bytes source_level))

  -- The outer `none` is a panic; the inner one the result `CompactionPlan{}, false`. A negative
  -- threshold is one of 0. Levels are uint32.
  unfoldable pub pick_compaction : List SstableMetadata → ℕ → ℕ → Option (Option CompactionPlan)
  pick_compaction tables source_level threshold =
      let source = source_tables source_level tables in
      let target_level = (source_level + 1) % 2 ^ 32 in
      if leb threshold 0 || below_threshold source_level threshold source
      then some none
      else elim (select source_level source) [
        | none ↦ none
        | some selected ↦ some (
            some (record {
              source_level = source_level;
              target_level = target_level;
              inputs = selected ++ targets selected target_level tables;
            }))
      ]

  unfoldable pub pick_l0_compaction : List SstableMetadata → ℕ → Option (Option CompactionPlan)
  pick_l0_compaction tables threshold = pick_compaction tables l0 threshold
