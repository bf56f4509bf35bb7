-- ===== src/Compaction/Merge/Runs.antt =====
-- Two tables with three versions of one key, and the theorems there.
use hypha_db.Base.{
  ℕ, ◌≤◌, ◌≡◌, refl, Bool, true, false, Option, none, some, List, [], ◌∷◌, arith, ok,
}
use hypha_db.Base.Text.{Text, text_lt}
use hypha_db.Record.{Record, batch_none}
use hypha_db.Compaction.Merge.{Source, merge_sstables}
use hypha_db.Compaction.Merge.Retention.{find_visible}
use hypha_db.Compaction.Merge.Latest.{find_live, live}
use hypha_db.Compaction.Merge.Order.{Precedes, InOrder}
use hypha_db.Compaction.Merge.Newest.{IsNewest}
use hypha_db.Compaction.Merge.Visible.{AreReadable, merge_sstables-IsNewest, merge_sstables-live}

abbrev version : ℕ → ℕ → Bool → Record
version key seq deleted = record {
  key = key ∷ [];
  seq = seq;
  value = seq ∷ [];
  deleted = deleted;
  batch_id = 0;
  batch_kind = batch_none;
}

-- The key 97 is deleted at 6, over versions at 5 and 2.
abbrev tables : List Source
tables =
    record {
      records = version 97 5 false ∷ version 97 2 false ∷ [];
      fails = false;
      cannot_open = false;
    }
    ∷ record {
      records = version 97 6 true ∷ version 98 1 false ∷ [];
      fails = false;
      cannot_open = false;
    }
    ∷ []

same_key : Precedes (version 97 5 false) (version 97 2 false)
unfolding text_lt
same_key = record { keys = refl; versions = λ same. omega arith }

next_key : Precedes (version 97 6 true) (version 98 1 false)
unfolding text_lt
next_key = record { keys = refl; versions = λ same. omega arith }

tables-AreReadable : AreReadable tables
tables-AreReadable = record {
  opens = (refl, (refl, tt));
  sound = record {
    no_failure = (refl, (refl, tt));
    in_order = (((same_key, tt), (tt, tt)), (((next_key, tt), (tt, tt)), tt));
  };
}

merge_sstables-IsNewest_example :
    (output : List Record) × (merge_sstables
        (record { oldest_reader = some 5; drop_tombstones = true })
        tables
      ≡ ok output)
    × InOrder output
    × ((key : Text) (seq : ℕ) → 5 ≤ seq → IsNewest key seq tables (find_visible key seq output))
merge_sstables-IsNewest_example = merge_sstables-IsNewest 5 true tables tables-AreReadable

merge_sstables-live_example :
    (output : List Record) × (merge_sstables
        (record { oldest_reader = none; drop_tombstones = true })
        tables
      ≡ ok output)
    × InOrder output
    × ((key : Text)
        → (newest : Option Record) × IsNewest key 6 tables newest
          × (find_live key 6 output ≡ live newest))
merge_sstables-live_example =
    merge_sstables-live true 6 tables tables-AreReadable
      ((omega arith, (omega arith, tt)), ((omega arith, (omega arith, tt)), tt))
