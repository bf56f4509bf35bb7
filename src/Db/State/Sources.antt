-- ===== src/Db/State/Sources.antt =====
-- What `getAt` reads on the database's state: the lookups it goes over, and which of them matter.
use hypha_db.Base.{
  ℕ, ◌≡◌, refl, sym, ap, ◌∙◌, Option, none, some, List, [], ◌∷◌, ◌++◌, arith, All, All-append, ok,
  ◌>>=◌,
}
use hypha_db.Base.Text.{Text}
use hypha_db.Record.{Record}
use hypha_db.Memtable
use hypha_db.Memtable.{MemTable}
use hypha_db.Db.Reads.{Lookup, get_at, consider, consider_all, value_of}
use hypha_db.Db.State.{Database, Immutable, lookup_in, immutable_lookups, last_to_first, read_at}

pub last_to_first-append {ℓ} :
    {A : Type ℓ} (xs : List A) (x : A) → last_to_first (xs ++ (x ∷ [])) ≡ x ∷ last_to_first xs
unfolding last_to_first
last_to_first-append [] x = refl
last_to_first-append (y ∷ ys) x = rw (last_to_first-append ys x) refl

pub All-last_to_first {ℓ} :
    {A : Type ℓ} (P : A → Type 0) (xs : List A) → All P xs → All P (last_to_first xs)
unfolding last_to_first
All-last_to_first P [] h = tt
All-last_to_first P (x ∷ xs) (p, h) =
    All-append P (last_to_first xs) (x ∷ []) (All-last_to_first P xs h) (p, tt)

consider-none : (best : Option Record) → consider best none ≡ best
unfolding consider
consider-none none = refl
consider-none (some r) = refl

consider-same : (found : Option Record) → consider (consider none found) found ≡ consider none found
unfolding consider
consider-same none = refl
consider-same (some r) = ground arith

abbrev pub FindsSame : Text → ℕ → (ℕ → MemTable) → (ℕ → MemTable) → ℕ → Type 0
FindsSame key seq mems mems' i =
    Memtable.get_at (mems' i) key seq ≡ Memtable.get_at (mems i) key seq

module _ {E : Type 0} where
  abbrev pub sources : Database E → List (Lookup E)
  sources db =
      lookup_in db.memtables db.memtable
      ∷ (immutable_lookups db.memtables (last_to_first db.immutables) ++ last_to_first db.tables)

  pub read_at-sources :
      (key : Text) (seq : ℕ) (db : Database E)
      → read_at key seq db ≡ (consider_all key seq none (sources db) >>= value_of)
  unfolding read_at get_at
  read_at-sources key seq db = refl

  -- Two states whose lookups find the same are read alike.
  pub read_at-same :
      (key : Text) (seq : ℕ) (db db' : Database E)
      → consider_all key seq none (sources db') ≡ consider_all key seq none (sources db)
      → read_at key seq db' ≡ read_at key seq db
  read_at-same key seq db db' same =
      read_at-sources key seq db'
      ∙ ap (λ found. found >>= value_of) same
      ∙ sym (read_at-sources key seq db)

  -- A lookup that finds nothing changes nothing.
  pub consider_all-nothing :
      (key : Text) (seq : ℕ) (best : Option Record) (s : Lookup E) (ss : List (Lookup E))
      → s key seq ≡ ok none
      → consider_all key seq best (s ∷ ss) ≡ consider_all key seq best ss
  unfolding consider_all
  consider_all-nothing key seq best s ss nothing =
      rw nothing (ap (λ b. consider_all key seq b ss) (consider-none best))

  -- A memtable that is both active and immutable is read twice.
  pub consider_all-twice :
      (key : Text) (seq : ℕ) (mems : ℕ → MemTable) (i : ℕ) (ss : List (Lookup E))
      → consider_all key seq none (lookup_in mems i ∷ (lookup_in mems i ∷ ss))
        ≡ consider_all key seq none (lookup_in mems i ∷ ss)
  unfolding consider_all lookup_in
  consider_all-twice key seq mems i ss =
      ap (λ b. consider_all key seq b ss) (consider-same (Memtable.get_at (mems i) key seq))

  pub consider_all-immutables :
      (key : Text) (seq : ℕ) (mems mems' : ℕ → MemTable) (imms : List Immutable)
      (ts : List (Lookup E)) (best : Option Record)
      → All (λ imm. FindsSame key seq mems mems' imm.mem) imms
      → consider_all key seq best (immutable_lookups mems' imms ++ ts)
        ≡ consider_all key seq best (immutable_lookups mems imms ++ ts)
  unfolding consider_all immutable_lookups lookup_in
  consider_all-immutables key seq mems mems' [] ts best h = refl
  consider_all-immutables key seq mems mems' (imm ∷ imms) ts best (same, h) = rw same (
      consider_all-immutables key seq mems mems' imms ts
        (consider best (Memtable.get_at (mems imm.mem) key seq)) h)

  -- The active memtable and the immutable ones find the same, and so does the database.
  pub consider_all-memtables :
      (key : Text) (seq : ℕ) (mems mems' : ℕ → MemTable) (i : ℕ) (imms : List Immutable)
      (ts : List (Lookup E))
      → FindsSame key seq mems mems' i
      → All (λ imm. FindsSame key seq mems mems' imm.mem) imms
      → consider_all key seq none (lookup_in mems' i ∷ (immutable_lookups mems' imms ++ ts))
        ≡ consider_all key seq none (lookup_in mems i ∷ (immutable_lookups mems imms ++ ts))
  unfolding consider_all lookup_in
  consider_all-memtables key seq mems mems' i imms ts same h = rw same (
      consider_all-immutables key seq mems mems' imms ts
        (consider none (Memtable.get_at (mems i) key seq)) h)

  -- A table that answers as the oldest immutable memtable takes its place.
  pub consider_all-table :
      (key : Text) (seq : ℕ) (mems : ℕ → MemTable) (imm : Immutable) (imms : List Immutable)
      (table : Lookup E) (ts : List (Lookup E)) (best : Option Record)
      → table key seq ≡ ok (Memtable.get_at (mems imm.mem) key seq)
      → consider_all key seq best (immutable_lookups mems imms ++ (table ∷ ts))
        ≡ consider_all key seq best (immutable_lookups mems (imms ++ (imm ∷ [])) ++ ts)
  unfolding consider_all immutable_lookups lookup_in
  consider_all-table key seq mems imm [] table ts best same = rw same refl
  consider_all-table key seq mems imm (x ∷ imms) table ts best same =
      consider_all-table key seq mems imm imms table ts
        (consider best (Memtable.get_at (mems x.mem) key seq)) same
