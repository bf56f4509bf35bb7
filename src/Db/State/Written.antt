-- ===== src/Db/State/Written.antt =====
-- What a read finds in internal/db/db.go after `Put` and `Delete`.
use hypha_db.Base.{
  ℕ, ◌+◌, ◌^◌, ◌≤◌, ◌<◌, ◌≡◌, refl, sym, ap, ◌∙◌, subst, true, false, Option, none, some, List, [],
  ◌∷◌, length, leb, arith, All, All-append, ok, err, ◌>>=◌,
}
use hypha_db.Base.Text.{Text, text_eq, text_eq_refl}
use hypha_db.Record.{Record}
use hypha_db.Skiplist.History.{newer_of}
use hypha_db.Memtable
use hypha_db.Memtable.{MemTable}
use hypha_db.Db.Batches.{validate_key, validate_value}
use hypha_db.Db.Reads.{Lookup, not_found, consider, consider_all, value_of}
use hypha_db.Db.State.{
  Database, Outside, Immutable, lookup_in, immutable_lookups, last_to_first, read_at, put_one,
  memtable_put, log_record, new_record, put, delete,
}
use hypha_db.Db.State.Steps.{log_record-logged, put-accepted, delete-accepted}
use hypha_db.Db.State.Sources.{sources, read_at-sources, All-last_to_first}
use hypha_db.Db.State.Valid.{
  IsDatabase, FindsBelow, AnswersBelow, store_at_self, found_after_put, memtable_put-IsDatabase,
}
use hypha_db.Db.State.Reads.{rotate_memtable-ReadsSame}

-- The memtable finds a record that is newer than all that it had.
newer_of_newest :
    (key : Text) (seq : ℕ) (rec : Record) (found : Option Record)
    → rec.key ≡ key
    → rec.seq ≤ seq
    → ((r : Record) → found ≡ some r → r.seq < rec.seq)
    → newer_of key seq rec found ≡ some rec
unfolding newer_of
newer_of_newest key seq rec none name visible newest =
    let same : text_eq rec.key key ≡ true = rw (sym name) (text_eq_refl rec.key) in
    let in_range : leb rec.seq seq ≡ true = ground arith in rw (same, in_range) refl
newer_of_newest key seq rec (some r) name visible newest =
    let same : text_eq rec.key key ≡ true = rw (sym name) (text_eq_refl rec.key) in
    let in_range : leb rec.seq seq ≡ true = ground arith in
    let below = newest r refl in
    let older : leb r.seq rec.seq ≡ true = ground arith in rw (same, in_range, older) refl

consider_not_newer :
    (rec : Record) (found : Option Record)
    → ((r : Record) → found ≡ some r → r.seq ≤ rec.seq)
    → consider (some rec) found ≡ some rec
unfolding consider
consider_not_newer rec none h = refl
consider_not_newer rec (some r) h = let b = h r refl in ground arith

-- A lookup that does not fail, and finds no version after a sequence.
abbrev FindsUpTo : {E : Type 0} → Text → ℕ → ℕ → Lookup E → Type 0
FindsUpTo key seq bound s =
    (found : Option Record) × (s key seq ≡ ok found)
    × ((r : Record) → found ≡ some r → r.seq ≤ bound)

immutable_lookups-FindsUpTo :
    (E : Type 0) (key : Text) (seq bound : ℕ) (mems : ℕ → MemTable) (imms : List Immutable)
    → ((i : ℕ) → FindsBelow (bound + 1) (mems i))
    → All (FindsUpTo {E = E} key seq bound) (immutable_lookups mems imms)
unfolding immutable_lookups lookup_in
immutable_lookups-FindsUpTo E key seq bound mems [] h = tt
immutable_lookups-FindsUpTo E key seq bound mems (imm ∷ imms) h = (
  (
    Memtable.get_at (mems imm.mem) key seq,
    refl,
    λ r e. let b = h imm.mem key seq r e in omega (arith, b),
  ),
  immutable_lookups-FindsUpTo E key seq bound mems imms h,
)

module _ {E : Type 0} where
  consider_all-keeps :
      (key : Text) (seq : ℕ) (rec : Record) (ss : List (Lookup E))
      → All (FindsUpTo key seq rec.seq) ss
      → consider_all key seq (some rec) ss ≡ ok (some rec)
  unfolding consider_all
  consider_all-keeps key seq rec [] h = refl
  consider_all-keeps key seq rec (s ∷ ss) ((found, answer, bound), h) =
      rw (answer, consider_not_newer rec found bound) (consider_all-keeps key seq rec ss h)

  abbrev pub Readable : Text → ℕ → Database E → Type 0
  Readable key seq db = All (λ t. (found : Option Record) × (t key seq ≡ ok found)) db.tables

  tables-FindsUpTo :
      (key : Text) (seq bound : ℕ) (tables : List (Lookup E))
      → All (λ t. (found : Option Record) × (t key seq ≡ ok found)) tables
      → All (AnswersBelow (bound + 1)) tables
      → All (FindsUpTo key seq bound) tables
  tables-FindsUpTo key seq bound [] h k = tt
  tables-FindsUpTo key seq bound (t ∷ ts) ((found, answer), h) (below, k) = (
    (found, answer, λ r e. let b = below key seq r (answer ∙ ap ok e) in omega (arith, b)),
    tables-FindsUpTo key seq bound ts h k,
  )

  memtable_put-read_at :
      (new_level : ℕ) (rec : Record) (seq : ℕ) (db : Database E)
      → IsDatabase db
      → 0 < new_level
      → new_level ≤ 16
      → rec.seq ≡ db.next_seq
      → db.next_seq + 1 < 2 ^ 64
      → db.next_seq ≤ seq
      → Readable rec.key seq db
      → read_at rec.key seq (memtable_put new_level rec db) ≡ value_of (some rec)
  unfolding memtable_put put_one consider_all lookup_in consider
  memtable_put-read_at new_level rec seq db h some_level fits number room visible readable =
      let next = memtable_put new_level rec db in
      let inv = memtable_put-IsDatabase new_level rec db h some_level fits number room in
      let m = db.memtables db.memtable in
      let raised : next.next_seq ≡ rec.seq + 1 = omega (arith, number) in
      let found : Memtable.get_at (next.memtables next.memtable) rec.key seq ≡ some rec =
        ap (λ x. Memtable.get_at x rec.key seq) (store_at_self db.memtable _ db.memtables)
        ∙ found_after_put m new_level rec rec.key seq (h.lists db.memtable) some_level fits
        ∙ newer_of_newest rec.key seq rec (Memtable.get_at m rec.key seq) refl
            (omega (arith, number))
            (λ r e. let b = h.older db.memtable rec.key seq r e in omega (arith, number, b)) in
      let others =
        All-append (FindsUpTo rec.key seq rec.seq) _ _
          (immutable_lookups-FindsUpTo E rec.key seq rec.seq next.memtables
            (last_to_first db.immutables)
            (λ i. subst (λ n. FindsBelow n (next.memtables i)) raised (inv.older i)))
          (All-last_to_first (FindsUpTo rec.key seq rec.seq) db.tables (
            tables-FindsUpTo rec.key seq rec.seq db.tables readable
              (subst (λ n. All (AnswersBelow n) db.tables) raised inv.older_tables))) in
      let run : consider_all rec.key seq none (sources next) ≡ ok (some rec) =
        rw found (consider_all-keeps rec.key seq rec _ others) in
      read_at-sources rec.key seq next ∙ ap (λ r. r >>= value_of) run

  log_record-read_at :
      (out : Outside E) (rec : Record) (seq : ℕ) (db : Database E)
      → IsDatabase db
      → 0 < out.new_level
      → out.new_level ≤ 16
      → rec.seq ≡ db.next_seq
      → db.next_seq + 1 < 2 ^ 64
      → out.write ≡ ok tt
      → db.next_seq ≤ seq
      → Readable rec.key seq db
      → read_at rec.key seq (log_record out rec db).1 ≡ value_of (some rec)
  log_record-read_at out rec seq db h some_level fits number room logged visible readable =
      let next = memtable_put out.new_level rec db in
      let inv = memtable_put-IsDatabase out.new_level rec db h some_level fits number room in
      let applied =
        memtable_put-read_at out.new_level rec seq db h some_level fits number room visible
          readable in
      log_record-logged out rec db (λ db'. read_at rec.key seq db' ≡ value_of (some rec)) logged
        applied (rotate_memtable-ReadsSame out rec.key seq next inv ∙ applied)

  -- Once `Put` accepts a key and a value and the log takes the record, a read at its sequence or a
  -- later one finds the value, whether or not the memtable is rotated and the rotation succeeds;
  -- the tables have to be readable.
  pub put-read_at :
      (out : Outside E) (key : Text) (value : List ℕ) (seq : ℕ) (db : Database E)
      → IsDatabase db
      → 0 < out.new_level
      → out.new_level ≤ 16
      → db.next_seq + 1 < 2 ^ 64
      → db.closed ≡ false
      → length key ≤ db.limits.max_key_bytes
      → length value ≤ db.limits.max_value_bytes
      → out.write ≡ ok tt
      → db.next_seq ≤ seq
      → Readable key seq db
      → read_at key seq (put out key value db).1 ≡ ok value
  unfolding validate_key validate_value value_of new_record
  put-read_at out key value seq db h some_level fits room usable short small logged visible
        readable =
      put-accepted out key value db (λ db'. read_at key seq db' ≡ ok value) usable (ground arith)
        (log_record-read_at out (new_record key value false db) seq db h some_level fits refl room
          logged visible readable)

  -- Once `Delete` accepts a key and the log takes the tombstone, a read at its sequence or a later
  -- one ends in `ErrNotFound`; the tables have to be readable.
  pub delete-read_at :
      (out : Outside E) (key : Text) (seq : ℕ) (db : Database E)
      → IsDatabase db
      → 0 < out.new_level
      → out.new_level ≤ 16
      → db.next_seq + 1 < 2 ^ 64
      → db.closed ≡ false
      → length key ≤ db.limits.max_key_bytes
      → out.write ≡ ok tt
      → db.next_seq ≤ seq
      → Readable key seq db
      → read_at key seq (delete out key db).1 ≡ err not_found
  unfolding validate_key value_of new_record
  delete-read_at out key seq db h some_level fits room usable short logged visible readable =
      delete-accepted out key db (λ db'. read_at key seq db' ≡ err not_found) usable (ground arith)
        (log_record-read_at out (new_record key [] true db) seq db h some_level fits refl room
          logged visible readable)
