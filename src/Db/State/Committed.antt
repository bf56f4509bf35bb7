-- ===== src/Db/State/Committed.antt =====
-- What applyBatch of internal/db/batch.go keeps of the database's state.
use hypha_db.Base.{
  ℕ, ◌+◌, ◌^◌, ◌≤◌, ◌<◌, ◌≡◌, refl, sym, ap, ◌∙◌, subst, List, [], ◌∷◌, length, arith, All, All-map,
}
use hypha_db.Base.Text.{Text}
use hypha_db.Record.{Record}
use hypha_db.Db.Batches.{BatchOperation}
use hypha_db.Db.Sequences.{number_records, seq_after, number_records-IsFresh, CountsFrom-bounds}
use hypha_db.Db.State.{Database, put_one, read_at}
use hypha_db.Db.State.Batch.{put_records, commit_records}
use hypha_db.Db.State.Valid.{IsDatabase, raise_sequence-IsDatabase, put_one-IsDatabase}
use hypha_db.Db.State.Reads.{ReadsSame, put_one-ReadsSame}

module _ {E : Type 0} where
  -- The loop does not look at the next sequence.
  put_records-raised :
      (levels : ℕ → ℕ) (next : ℕ) (recs : List Record) (db : Database E)
      → put_records levels recs (record db { next_seq = next })
        ≡ record (put_records levels recs db) { next_seq = next }
  unfolding put_records put_one
  put_records-raised levels next [] db = refl
  put_records-raised levels next (rec ∷ recs) db =
      put_records-raised levels next recs (put_one (levels (length recs)) rec db)

  put_records-IsDatabase :
      (levels : ℕ → ℕ) (recs : List Record) (db : Database E)
      → ((i : ℕ) → (0 < levels i) × (levels i ≤ 16))
      → IsDatabase db
      → All (λ r. r.seq < db.next_seq) recs
      → IsDatabase (put_records levels recs db)
  unfolding put_records put_one
  put_records-IsDatabase levels [] db fit h below = h
  put_records-IsDatabase levels (rec ∷ recs) db fit h (here, below) =
      let (some_level, fits) = fit (length recs) in
      put_records-IsDatabase levels recs (put_one (levels (length recs)) rec db) fit
        (put_one-IsDatabase (levels (length recs)) rec db h some_level fits here) below

  put_records-ReadsSame :
      (key : Text) (seq : ℕ) (levels : ℕ → ℕ) (recs : List Record) (db : Database E)
      → ((i : ℕ) → (0 < levels i) × (levels i ≤ 16))
      → IsDatabase db
      → All (λ r. r.seq < db.next_seq) recs
      → All (λ r. seq < r.seq) recs
      → ReadsSame key seq db (put_records levels recs db)
  unfolding put_records put_one
  put_records-ReadsSame key seq levels [] db fit h below later = refl
  put_records-ReadsSame key seq levels (rec ∷ recs) db fit h (here, below) (after, later) =
      let (some_level, fits) = fit (length recs) in
      let level = levels (length recs) in
      put_records-ReadsSame key seq levels recs (put_one level rec db) fit
        (put_one-IsDatabase level rec db h some_level fits here) below later
      ∙ put_one-ReadsSame key seq level rec db h some_level fits after

  module _ (levels : ℕ → ℕ) (operations : List BatchOperation) (db : Database E)
      (fit : (i : ℕ) → (0 < levels i) × (levels i ≤ 16)) (h : IsDatabase db)
      (room : db.next_seq + length operations + 1 < 2 ^ 64) where
    abbrev records : List Record
    records = number_records db.next_seq 0 operations

    abbrev next : ℕ
    next = seq_after db.next_seq records

    pub commit_records-NotBefore : db.next_seq < next
    commit_records-NotBefore = (number_records-IsFresh db.next_seq operations room).1

    raised-IsDatabase : IsDatabase (record db { next_seq = next })
    raised-IsDatabase =
        let order = commit_records-NotBefore in
        raise_sequence-IsDatabase next db h (omega (arith, order))

    pub commit_records-IsDatabase : IsDatabase (commit_records levels records db)
    unfolding commit_records
    commit_records-IsDatabase = subst IsDatabase (put_records-raised levels next records db) (
        put_records-IsDatabase levels records (record db { next_seq = next }) fit raised-IsDatabase
          (number_records-IsFresh db.next_seq operations room).2)

    pub commit_records-ReadsSame :
        (key : Text) (seq : ℕ)
        → seq < db.next_seq
        → ReadsSame key seq db (commit_records levels records db)
    unfolding commit_records read_at
    commit_records-ReadsSame key seq later =
        let fresh = number_records-IsFresh db.next_seq operations room in
        let above =
          All-map _ (λ r. seq < r.seq) (λ r b. let low = b.0 in omega (arith, low, later)) records
            (CountsFrom-bounds db.next_seq records fresh.0) in
        ap (read_at key seq) (sym (put_records-raised levels next records db))
        ∙ put_records-ReadsSame key seq levels records (record db { next_seq = next }) fit
            raised-IsDatabase fresh.2 above
