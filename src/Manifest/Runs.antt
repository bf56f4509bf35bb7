-- ===== src/Manifest/Runs.antt =====
-- A manifest of one table, and the theorems there.
use hypha_db.Base.{ℕ, ◌≤◌, ◌<◌, ◌≡◌, refl, true, none, some, List, [], ◌∷◌, ok, arith, All}
use hypha_db.Base.Checksums.{sum_bytes, sum_bytes-IsU32}
use hypha_db.Manifest.{
  SstableMetadata, Manifest, payload_size_from, metadata_strings_size, seal, encode_payload, encode,
  decode,
}
use hypha_db.Manifest.RoundTrip.{decode-encode}
use hypha_db.Manifest.Files.{
  ensure_safe_next_sstable_id, max_table_id, bump_past, ensure_safe-IsFresh, read, contents,
  read-encode, write, write-IsAtomic, IsAtomic, write_fails, Dir,
}

abbrev table : SstableMetadata
table = record {
  id = 7;
  path = 120 ∷ [];
  level = 1;
  size_bytes = 300;
  smallest_key = 97 ∷ [];
  largest_key = 98 ∷ 99 ∷ [];
}

-- Its next identifier lags behind that of its table.
abbrev lagging : Manifest
lagging = record { next_sstable_id = 2; next_wal_segment_id = 4; sstables = table ∷ [] }

abbrev bytes : List ℕ
bytes = seal sum_bytes (encode_payload lagging)

lagging_encodes : encode sum_bytes (some lagging) ≡ ok bytes
unfolding encode payload_size_from metadata_strings_size
lagging_encodes = refl

decode-encode_example : decode sum_bytes bytes ≡ ok lagging
decode-encode_example =
    decode-encode sum_bytes sum_bytes-IsU32 lagging bytes (omega arith) lagging_encodes

read-encode_example : read sum_bytes (contents bytes) ≡ ensure_safe_next_sstable_id lagging
read-encode_example =
    read-encode sum_bytes sum_bytes-IsU32 lagging bytes (omega arith) lagging_encodes

lagging_made_safe :
    ensure_safe_next_sstable_id lagging ≡ ok (record lagging { next_sstable_id = 8 })
unfolding ensure_safe_next_sstable_id max_table_id bump_past
lagging_made_safe = refl

ensure_safe-IsFresh_example :
    (record lagging { next_sstable_id = 8 }).sstables ≡ lagging.sstables
    × ((record lagging { next_sstable_id = 8 }).next_wal_segment_id ≡ lagging.next_wal_segment_id)
    × (2 ≤ 8)
    × All (λ t. t.id < 8) lagging.sstables
ensure_safe-IsFresh_example =
    ensure_safe-IsFresh lagging (record lagging { next_sstable_id = 8 }) lagging_made_safe

abbrev old_dir : Dir
old_dir = record { main = some (1 ∷ []); tmp = none }

write-IsAtomic_example :
    IsAtomic
      (write sum_bytes (write_fails 3) true (some lagging) old_dir)
      (encode sum_bytes (some lagging))
      old_dir
write-IsAtomic_example = write-IsAtomic sum_bytes (write_fails 3) true (some lagging) old_dir
