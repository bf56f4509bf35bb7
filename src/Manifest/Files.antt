-- ===== src/Manifest/Files.antt =====
-- `Read`, `ensureSafeNextSSTableID` and `Write`: the manifest in its directory.
use hypha_db.Base.{
  ℕ, ◌+◌, ◌-◌, ◌^◌, ◌≤◌, ◌<◌, ◌≡◌, ◌⊎◌, inl, inr, refl, sym, ap, Bool, true, false, Option, none,
  some, List, [], ◌∷◌, length, take, take-all, All-map, ok-injective, subst, ltb, leb, ◌==◌,
  if◌then◌else◌, Result, ok, err, fail_if, ◌>>=◌, ◌>>◌, arith, All, ge→ltb,
}
use hypha_db.Base.Bytes.{IsU32}
use hypha_db.Manifest.{
  SstableMetadata, Manifest, ManifestError, corrupt, ids_exhausted, file_over, read_failed, encode,
  decode, manifest_header_size, max_manifest_payload_size,
}
use hypha_db.Manifest.RoundTrip.{IsStorable, decode-encode, length-encode}

abbrev pub empty_manifest : Manifest
empty_manifest = record { next_sstable_id = 0; next_wal_segment_id = 0; sstables = [] }

-- The pair `hasTables, maxID` of the loop; `none` where no table has been seen.
unfoldable pub max_table_id : Option ℕ → List SstableMetadata → Option ℕ
max_table_id seen [] = seen
max_table_id none (t ∷ ts) = max_table_id (some t.id) ts
max_table_id (some m) (t ∷ ts) = max_table_id (some (if ltb m t.id then t.id else m)) ts

max_table_id_bound :
    (seen : ℕ) (ts : List SstableMetadata)
    → (max : ℕ) × (max_table_id (some seen) ts ≡ some max) × (seen ≤ max) × All (λ t. t.id ≤ max) ts
unfolding max_table_id
max_table_id_bound seen [] = (seen, refl, omega arith, tt)
max_table_id_bound seen (t ∷ ts) =
    let (max, found, above, all) = max_table_id_bound (if ltb seen t.id then t.id else seen) ts in
    (max, found, ground arith, (ground arith, all))

-- The last step of `ensureSafeNextSSTableID`, once the largest identifier is known.
unfoldable pub bump_past : ℕ → Manifest → Result ManifestError Manifest
bump_past max_id m =
    if leb m.next_sstable_id max_id
    then (if max_id == 2 ^ 64 - 1
        then err (corrupt ids_exhausted)
        else ok (record m { next_sstable_id = max_id + 1 }))
    else ok m

unfoldable pub ensure_safe_next_sstable_id : Manifest → Result ManifestError Manifest
ensure_safe_next_sstable_id m = elim (max_table_id none m.sstables) [
  | none ↦ ok m
  | some max_id ↦ bump_past max_id m
]

bump_past_lem :
    (max_id : ℕ) (m safe : Manifest)
    → bump_past max_id m ≡ ok safe
    → (safe.sstables ≡ m.sstables)
      × (safe.next_wal_segment_id ≡ m.next_wal_segment_id)
      × (m.next_sstable_id ≤ safe.next_sstable_id)
      × (max_id < safe.next_sstable_id)
unfolding bump_past
bump_past_lem max_id m safe e = ground arith

first_table :
    (ts : List SstableMetadata)
    → ((max_table_id none ts ≡ none) × (ts ≡ []))
      ⊎ ((max : ℕ) × (max_table_id none ts ≡ some max) × All (λ t. t.id ≤ max) ts)
unfolding max_table_id
first_table [] = inl (refl, refl)
first_table (t ∷ ts) =
    let (max, found, above, all) = max_table_id_bound t.id ts in inr (max, found, (above, all))

-- A manifest that `ensureSafeNextSSTableID` accepts keeps its tables and its WAL identifier, its
-- next table identifier has not fallen, and no table of it has that identifier or a later one.
pub ensure_safe-IsFresh :
    (m safe : Manifest)
    → ensure_safe_next_sstable_id m ≡ ok safe
    → (safe.sstables ≡ m.sstables)
      × (safe.next_wal_segment_id ≡ m.next_wal_segment_id)
      × (m.next_sstable_id ≤ safe.next_sstable_id)
      × All (λ t. t.id < safe.next_sstable_id) m.sstables
unfolding ensure_safe_next_sstable_id
ensure_safe-IsFresh m safe e = elim (first_table m.sstables) [
  | inl none_seen ↦
      let same : m ≡ safe = ok-injective (rw (none_seen.0, ensure_safe_next_sstable_id) at e) in
      (
        ap (λ x. x.sstables) (sym same),
        ap (λ x. x.next_wal_segment_id) (sym same),
        omega (arith, ap (λ (x : Manifest). x.next_sstable_id) same),
        subst (All (λ t. t.id < safe.next_sstable_id)) (sym none_seen.1) tt,
      )
  | inr (max_id, found, all) ↦
      let (tables, wal, grown, past) =
        bump_past_lem max_id m safe (rw (found, ensure_safe_next_sstable_id) at e) in
      (tables, wal, grown, All-map _ _ (λ t le. omega arith) m.sstables all)
]

-- What opening and reading the file gives.
pub data FileRead : Type 0 where
  not_exist cannot_open cannot_read : FileRead
  contents : List ℕ → FileRead

-- The files at `path` and at `path + ".tmp"`.
pub record Dir : Type 0 where
  pub main : Option (List ℕ)
  pub tmp : Option (List ℕ)

-- The first call of `Write` that fails; a failing write leaves some first bytes of the data.
pub data Fault : Type 0 where
  none_fails create_fails sync_fails close_fails rename_fails sync_parent_fails : Fault
  write_fails : ℕ → Fault

pub data WriteError : Type 0 where
  not_encoded : ManifestError → WriteError
  io_error : Fault → WriteError
  publish_error : WriteError

-- `IsPublished`
unfoldable pub is_published : WriteError → Bool
is_published publish_error = true
is_published (not_encoded e) = false
is_published (io_error f) = false

-- The new manifest is in place: no error, or `IsPublished`.
abbrev pub took_effect : Result WriteError Unit → Bool
took_effect (ok u) = true
took_effect (err e) = is_published e

-- `os.Remove(tmpPath)`, whose error is ignored.
abbrev remove_tmp : Bool → Dir → Dir
remove_tmp removable d = if removable then record d { tmp = none } else d

-- The calls of `Write` on the encoded bytes.
unfoldable pub publish : Fault → Bool → List ℕ → Dir → Result WriteError Unit × Dir
publish none_fails removable file d = (ok tt, record { main = some file; tmp = none })
publish create_fails removable file d = (err (io_error create_fails), d)
publish (write_fails n) removable file d =
    (err (io_error (write_fails n)), remove_tmp removable (record d { tmp = some (take n file) }))
publish sync_fails removable file d =
    (err (io_error sync_fails), remove_tmp removable (record d { tmp = some file }))
publish close_fails removable file d =
    (err (io_error close_fails), remove_tmp removable (record d { tmp = some file }))
publish rename_fails removable file d =
    (err (io_error rename_fails), remove_tmp removable (record d { tmp = some file }))
publish sync_parent_fails removable file d =
    (err publish_error, record { main = some file; tmp = none })

-- `Write` once `encode` has returned.
unfoldable pub write_encoded :
    Fault → Bool → Result ManifestError (List ℕ) → Dir → Result WriteError Unit × Dir
write_encoded fault removable (err e) d = (err (not_encoded e), d)
write_encoded fault removable (ok file) d = publish fault removable file d

-- The new manifest is the whole file, or the old one is there still.
abbrev pub IsAtomic : Result WriteError Unit × Dir → Result ManifestError (List ℕ) → Dir → Type 0
IsAtomic (result, d') encoded d =
    if took_effect result
    then ((file : List ℕ) × (encoded ≡ ok file) × (d'.main ≡ some file))
    else (d'.main ≡ d.main)

write_encoded-IsAtomic :
    (fault : Fault) (removable : Bool) (encoded : Result ManifestError (List ℕ)) (d : Dir)
    → IsAtomic (write_encoded fault removable encoded d) encoded d
unfolding write_encoded publish is_published
write_encoded-IsAtomic fault removable (err e) d = refl
write_encoded-IsAtomic none_fails r (ok file) d = (file, refl, refl)
write_encoded-IsAtomic create_fails r (ok file) d = refl
write_encoded-IsAtomic (write_fails n) r (ok file) d = ground arith
write_encoded-IsAtomic sync_fails r (ok file) d = ground arith
write_encoded-IsAtomic close_fails r (ok file) d = ground arith
write_encoded-IsAtomic rename_fails r (ok file) d = ground arith
write_encoded-IsAtomic sync_parent_fails r (ok file) d = (file, refl, refl)

module _ (crc32c : List ℕ → ℕ) where
  -- The `LimitReader` passes on one byte more than the largest manifest has.
  unfoldable pub read : FileRead → Result ManifestError Manifest
  read not_exist = ok empty_manifest
  read cannot_open = err read_failed
  read cannot_read = err read_failed
  read (contents stored) = do
    let file = take (manifest_header_size + max_manifest_payload_size + 1) stored
    fail_if (ltb (manifest_header_size + max_manifest_payload_size) (length file))
        (corrupt file_over)
    m ← decode crc32c file
    ensure_safe_next_sstable_id m

  unfoldable pub write : Fault → Bool → Option Manifest → Dir → Result WriteError Unit × Dir
  write fault removable m d = write_encoded fault removable (encode crc32c m) d

  -- `Write` replaces the manifest by the whole encoding if it succeeds or its error is a publish
  -- error, and leaves the manifest as it was on every other error.
  pub write-IsAtomic :
      (fault : Fault) (removable : Bool) (m : Option Manifest) (d : Dir)
      → IsAtomic (write fault removable m d) (encode crc32c m) d
  unfolding write
  write-IsAtomic fault removable m d = write_encoded-IsAtomic fault removable (encode crc32c m) d

module _ (crc32c : List ℕ → ℕ) (crc32c_fits : (bs : List ℕ) → IsU32 (crc32c bs)) where
  -- Reading a manifest that was encoded gives it back, its next table identifier made safe.
  pub read-encode :
      (m : Manifest) (file : List ℕ)
      → IsStorable m
      → encode crc32c (some m) ≡ ok file
      → read crc32c (contents file) ≡ ensure_safe_next_sstable_id m
  unfolding read
  read-encode m file st e =
      let short = length-encode crc32c m file e in
      rw
        (
          take-all (20 + max_manifest_payload_size + 1) file (omega (arith, short)),
          ge→ltb (20 + max_manifest_payload_size) (length file) short,
          decode-encode crc32c crc32c_fits m file st e,
        )
        refl
