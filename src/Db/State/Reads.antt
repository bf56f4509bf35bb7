-- ===== src/Db/State/Reads.antt =====
-- What reads of earlier sequences find in internal/db/db.go after a put and after a rotation.
use hypha_db.Base.{
  ℕ, ◌+◌, ◌%◌, ◌^◌, ◌≤◌, ◌<◌, ◌≡◌, inl, inr, refl, ap, ◌∙◌, Bool-cases, none, List, [], ◌∷◌, ◌++◌,
  ◌==◌, arith, ==_iff, All, All-map, ok,
}
use hypha_db.Base.Text.{Text}
use hypha_db.Record.{Record}
use hypha_db.Skiplist.{new_list}
use hypha_db.Skiplist.History.{newer_of_unseen}
use hypha_db.Memtable
use hypha_db.Memtable.{MemTable}
use hypha_db.Db.State.{
  Database, Outside, Immutable, store_at, lookup_in, immutable_lookups, last_to_first, read_at,
  signal_flush, start_memtable, seal_memtable, rotate_memtable, put_one, memtable_put,
}
use hypha_db.Db.State.Steps.{rotate_memtable-cases}
use hypha_db.Db.State.Sources.{
  FindsSame, read_at-same, last_to_first-append, All-last_to_first, consider_all-nothing,
  consider_all-twice, consider_all-immutables, consider_all-memtables,
}
use hypha_db.Db.State.Valid.{
  IsDatabase, IsMemtable, store_at_self, store_at_below, fresh_finds_none, found_after_put,
  raise_sequence-IsDatabase,
}

-- A put of a later version changes nothing for a read before it.
put_unseen :
    (m : MemTable) (new_level : ℕ) (rec : Record) (key : Text) (seq : ℕ)
    → IsMemtable m
    → 0 < new_level
    → new_level ≤ 16
    → seq < rec.seq
    → Memtable.get_at (Memtable.put new_level rec m) key seq ≡ Memtable.get_at m key seq
put_unseen m new_level rec key seq inv some_level fits later =
    found_after_put m new_level rec key seq inv some_level fits
    ∙ newer_of_unseen key seq rec (Memtable.get_at m key seq) (ground arith)

store_at-FindsSame :
    (key : Text) (seq a : ℕ) (m : MemTable) (mems : ℕ → MemTable)
    → Memtable.get_at m key seq ≡ Memtable.get_at (mems a) key seq
    → (i : ℕ) → FindsSame key seq mems (store_at a m mems) i
unfolding store_at
store_at-FindsSame key seq a m mems same i = elim (Bool-cases (i == a)) [
  | inl hit ↦ rw (hit, (==_iff i a).0 hit) same
  | inr miss ↦ rw miss refl
]

All-everywhere {ℓ} : {A : Type ℓ} (P : A → Type 0) (xs : List A) → ((x : A) → P x) → All P xs
All-everywhere P [] h = tt
All-everywhere P (x ∷ xs) h = (h x, All-everywhere P xs h)

module _ {E : Type 0} where
  -- Reads of a key at a sequence that end alike in two states.
  abbrev pub ReadsSame : Text → ℕ → Database E → Database E → Type 0
  ReadsSame key seq db db' = read_at key seq db' ≡ read_at key seq db

  pub put_one-ReadsSame :
      (key : Text) (seq new_level : ℕ) (rec : Record) (db : Database E)
      → IsDatabase db
      → 0 < new_level
      → new_level ≤ 16
      → seq < rec.seq
      → ReadsSame key seq db (put_one new_level rec db)
  unfolding put_one
  put_one-ReadsSame key seq new_level rec db h some_level fits later =
      let same = store_at-FindsSame key seq db.memtable _ db.memtables (
        put_unseen (db.memtables db.memtable) new_level rec key seq (h.lists db.memtable) some_level
          fits later) in
      read_at-same key seq db (put_one new_level rec db) (
        consider_all-memtables key seq db.memtables _ db.memtable (last_to_first db.immutables)
          (last_to_first db.tables) (same db.memtable)
          (All-everywhere _ (last_to_first db.immutables) (λ imm. same imm.mem)))

  pub memtable_put-ReadsSame :
      (key : Text) (seq new_level : ℕ) (rec : Record) (db : Database E)
      → IsDatabase db
      → 0 < new_level
      → new_level ≤ 16
      → seq < rec.seq
      → db.next_seq + 1 < 2 ^ 64
      → ReadsSame key seq db (memtable_put new_level rec db)
  unfolding memtable_put read_at
  memtable_put-ReadsSame key seq new_level rec db h some_level fits later room =
      put_one-ReadsSame key seq new_level rec _
        (raise_sequence-IsDatabase ((db.next_seq + 1) % 2 ^ 64) db h (omega arith)) some_level fits
        later

  pub seal_memtable-ReadsSame :
      (key : Text) (seq : ℕ) (db : Database E) → ReadsSame key seq db (seal_memtable db)
  unfolding seal_memtable immutable_lookups
  seal_memtable-ReadsSame key seq db = read_at-same key seq db (seal_memtable db) (
      rw (last_to_first-append db.immutables (record { mem = db.memtable; wal_id = db.wal_id })) (
        consider_all-twice key seq db.memtables db.memtable (
          immutable_lookups db.memtables (last_to_first db.immutables) ++ last_to_first db.tables)))

  -- A new memtable is empty, and at an address that no other memtable has.
  pub start_memtable-ReadsSame :
      (key : Text) (seq : ℕ) (db : Database E)
      → IsDatabase db
      → ReadsSame key seq db (start_memtable (new_list 15) (seal_memtable db))
  unfolding start_memtable seal_memtable immutable_lookups lookup_in
  start_memtable-ReadsSame key seq db h =
      let mems = store_at db.allocated (new_list 15) db.memtables in
      let active : Immutable = record { mem = db.memtable; wal_id = db.wal_id } in
      let kept =
        All-map (λ imm. imm.mem < db.allocated) (λ imm. FindsSame key seq db.memtables mems imm.mem)
          (λ imm below.
            ap (λ m. Memtable.get_at m key seq)
              (store_at_below db.allocated imm.mem (new_list 15) db.memtables below))
          (active ∷ last_to_first db.immutables)
          (h.active, All-last_to_first _ db.immutables h.sealed) in
      read_at-same key seq db (start_memtable (new_list 15) (seal_memtable db)) (
        rw (last_to_first-append db.immutables active) (
          consider_all-nothing key seq none (lookup_in mems db.allocated) _ (
            ap ok (
              ap (λ m. Memtable.get_at m key seq)
                (store_at_self db.allocated (new_list 15) db.memtables)
              ∙ fresh_finds_none key seq))
          ∙ consider_all-immutables key seq db.memtables mems (active ∷ last_to_first db.immutables)
              (last_to_first db.tables) none kept))

  pub rotate_memtable-ReadsSame :
      (out : Outside E) (key : Text) (seq : ℕ) (db : Database E)
      → IsDatabase db
      → ReadsSame key seq db (rotate_memtable out db).1
  unfolding signal_flush read_at
  rotate_memtable-ReadsSame out key seq db h =
      let started = start_memtable-ReadsSame key seq db h in
      rotate_memtable-cases out db (ReadsSame key seq db) (seal_memtable-ReadsSame key seq db)
        started started
