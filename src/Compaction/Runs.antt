-- ===== src/Compaction/Runs.antt =====
-- Two tables of L0 over two of L1, and the theorems there.
use hypha_db.Base.{ℕ, ◌≡◌, ◌^◌, ◌*◌, refl, Option, none, some, List, [], ◌∷◌, keep_if}
use hypha_db.Base.Text.{Text, text_lt}
use hypha_db.Manifest.{SstableMetadata}
use hypha_db.Compaction.Picker.{
  CompactionPlan, has_key_range, ranges_overlap, combine, combined_range, select, all_ranges_known,
  is_target, targets, below_threshold, pick_compaction, total_table_bytes, level_target_bytes,
  base_level_target_bytes, largest_table, larger, table_bytes,
}
use hypha_db.Compaction.Sizes.{
  saturate, sum_of_bytes, total_table_bytes-saturate, level_target_bytes-saturate, IsLargest,
  largest_table-IsLargest,
}
use hypha_db.Compaction.Picked.{IsSafePlan, pick_compaction-IsSafePlan, pick_compaction_total}

abbrev no_files : Text → Option ℕ
no_files path = none

abbrev table : ℕ → ℕ → ℕ → ℕ → ℕ → SstableMetadata
table id level size low high = record {
  id = id;
  path = [];
  level = level;
  size_bytes = size;
  smallest_key = low ∷ [];
  largest_key = high ∷ [];
}

abbrev tables : List SstableMetadata
tables = table 1 0 10 97 99 ∷ table 2 0 20 98 102 ∷ table 3 1 30 101 105 ∷ table 4 1 40 110 112 ∷ []

-- Table 4 is left out.
abbrev plan : CompactionPlan
plan = record {
  source_level = 0;
  target_level = 1;
  inputs = table 1 0 10 97 99 ∷ table 2 0 20 98 102 ∷ table 3 1 30 101 105 ∷ [];
}

tables_picked : pick_compaction no_files tables 0 2 ≡ some (some plan)
unfolding pick_compaction below_threshold select targets is_target all_ranges_known combined_range
    combine has_key_range ranges_overlap keep_if text_lt
tables_picked = refl

pick_compaction-IsSafePlan_example : IsSafePlan no_files tables 0 plan
pick_compaction-IsSafePlan_example =
    pick_compaction-IsSafePlan no_files tables 0 2 plan tables_picked

pick_compaction_total_example :
    (outcome : Option CompactionPlan) × (pick_compaction no_files tables 1 2 ≡ some outcome)
pick_compaction_total_example = pick_compaction_total no_files tables 1 2

total_table_bytes-saturate_example :
    total_table_bytes no_files tables ≡ saturate (sum_of_bytes no_files tables)
total_table_bytes-saturate_example = total_table_bytes-saturate no_files tables

level_target_bytes-saturate_example :
    level_target_bytes 2 ≡ saturate (base_level_target_bytes * 10 ^ 1)
level_target_bytes-saturate_example = level_target_bytes-saturate 1

largest_found : largest_table no_files tables ≡ some (table 4 1 40 110 112)
unfolding largest_table larger table_bytes
largest_found = refl

largest_table-IsLargest_example : IsLargest no_files tables (table 4 1 40 110 112)
largest_table-IsLargest_example =
    largest_table-IsLargest no_files tables (table 4 1 40 110 112) largest_found
