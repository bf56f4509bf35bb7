-- ===== src/Db/Reads.antt =====
-- internal/db/db.go: a read looks in the memtables and in every table, and takes the newest version.
use hypha_db.Base.{
  ℕ, ◌≤◌, ◌≡◌, inl, inr, refl, sym, subst, Bool-cases, Option, none, some, List, [], ◌∷◌, ◌++◌, ltb,
  if◌then◌else◌, arith, All, All-map, All-append, Result, ok, err, ok-injective, ◌>>=◌,
  Memᴰ-append_right, Memᴰ-append_left, map_err, map_err-eq-ok, >>=-elim, append-nil, append_assoc,
}
use hypha_db.Base.Text.{Text}
use hypha_db.Record.{Record}
use hypha_db.Compaction.Merge.Order.{InOrder}
use hypha_db.Compaction.Merge.Retention.{find_visible}
use hypha_db.Compaction.Merge.Newest.{IsSeen, IsNewestIn, find_visible-IsNewestIn}

-- `GetAt` of a memtable and `GetRecordAt` of a table, which can fail.
abbrev pub Lookup : Type 0 → Type 0
Lookup E = Text → ℕ → Result E (Option Record)

-- A lookup with the records of its memtable or table, of which it finds the newest that is visible.
pub record Versions (E : Type 0) : Type 0 where
  pub get_record_at : Lookup E
  pub records : List Record
  pub finds_newest :
      (key : Text) (seq : ℕ) (found : Option Record)
      → get_record_at key seq ≡ ok found
      → IsNewestIn key seq records found

-- Records in the order of a table, searched for the first visible version.
abbrev pub ordered_versions : {E : Type 0} (rs : List Record) → InOrder rs → Versions E
ordered_versions rs ordered = record {
  get_record_at = λ key seq. ok (find_visible key seq rs);
  records = rs;
  finds_newest = λ key seq found e.
      subst (IsNewestIn key seq rs) (ok-injective e) (find_visible-IsNewestIn key seq rs ordered);
}

pub data GetError (E : Type 0) : Type 0 where
  not_found : GetError E
  read_failed : E → GetError E

-- The closure `consider`, with `best` and `found` as one option.
unfoldable pub consider : Option Record → Option Record → Option Record
consider best none = best
consider none (some rec) = some rec
consider (some best) (some rec) = if ltb best.seq rec.seq then some rec else some best

-- Where nothing is seen, nothing that is seen is newer.
unseen-All :
    (key : Text) (seq bound : ℕ) (rs : List Record)
    → All (λ r. ¬ IsSeen key seq r) rs
    → All (λ r. IsSeen key seq r → r.seq ≤ bound) rs
unseen-All key seq bound rs h = All-map _ _ (λ r unseen seen. absurd (unseen seen)) rs h

raise_bound :
    (key : Text) (seq low high : ℕ) (rs : List Record)
    → low ≤ high
    → All (λ r. IsSeen key seq r → r.seq ≤ low) rs
    → All (λ r. IsSeen key seq r → r.seq ≤ high) rs
raise_bound key seq low high rs order h =
    All-map _ _ (λ r bound seen. let below = bound seen in omega (arith, order, below)) rs h

-- The better of two is the newest of both lists.
consider-IsNewestIn :
    (key : Text) (seq : ℕ) (xs ys : List Record) (best rec : Option Record)
    → IsNewestIn key seq xs best
    → IsNewestIn key seq ys rec
    → IsNewestIn key seq (xs ++ ys) (consider best rec)
unfolding consider
consider-IsNewestIn key seq xs ys none none h k = All-append _ xs ys h k
consider-IsNewestIn key seq xs ys none (some r) h (seen, member, newest) = (
  seen,
  Memᴰ-append_right r xs ys member,
  All-append _ xs ys (unseen-All key seq r.seq xs h) newest,
)
consider-IsNewestIn key seq xs ys (some b) none (seen, member, newest) k = (
  seen,
  Memᴰ-append_left b xs ys member,
  All-append _ xs ys newest (unseen-All key seq b.seq ys k),
)
consider-IsNewestIn key seq xs ys (some b) (some r) (seen, member, newest)
      (seen', member', newest') =
    elim (Bool-cases (ltb b.seq r.seq)) [
      | inl newer ↦ rw newer (
        seen',
        Memᴰ-append_right r xs ys member',
        All-append _ xs ys (raise_bound key seq b.seq r.seq xs (ground arith) newest) newest',
      )
      | inr not_newer ↦ rw not_newer (
        seen,
        Memᴰ-append_left b xs ys member,
        All-append _ xs ys newest (raise_bound key seq r.seq b.seq ys (ground arith) newest'),
      )
    ]

module _ {E : Type 0} where
  -- The loops over the memtables and the tables, in the order in which they are read.
  unfoldable pub consider_all :
      Text → ℕ → Option Record → List (Lookup E) → Result (GetError E) (Option Record)
  consider_all key max_seq best [] = ok best
  consider_all key max_seq best (s ∷ ss) = do
    rec ← map_err read_failed (s key max_seq)
    consider_all key max_seq (consider best rec) ss

  -- The end of `getAt`.
  unfoldable pub value_of : Option Record → Result (GetError E) (List ℕ)
  value_of none = err not_found
  value_of (some best) = if best.deleted then err not_found else ok best.value

  -- The immutable memtables and the tables are given from the last to the first.
  unfoldable pub get_at :
      Text → ℕ → Lookup E → List (Lookup E) → List (Lookup E) → Result (GetError E) (List ℕ)
  get_at key max_seq memtable immutables tables = do
    best ← consider_all key max_seq none (memtable ∷ (immutables ++ tables))
    value_of best

  unfoldable pub all_versions : List (Versions E) → List Record
  all_versions [] = []
  all_versions (s ∷ ss) = s.records ++ all_versions ss

  unfoldable pub lookups : List (Versions E) → List (Lookup E)
  lookups [] = []
  lookups (s ∷ ss) = s.get_record_at ∷ lookups ss

  lookups-append : (ss ts : List (Versions E)) → lookups (ss ++ ts) ≡ lookups ss ++ lookups ts
  unfolding lookups
  lookups-append [] ts = refl
  lookups-append (s ∷ ss) ts = rw (lookups-append ss ts) refl

  consider_all_total :
      (key : Text) (seq : ℕ) (ss : List (Versions E)) (best : Option Record)
      → All (λ s. (found : Option Record) × (s.get_record_at key seq ≡ ok found)) ss
      → (result : Option Record) × (consider_all key seq best (lookups ss) ≡ ok result)
  unfolding consider_all lookups
  consider_all_total key seq [] best h = (best, refl)
  consider_all_total key seq (s ∷ ss) best ((found, read), rest) =
      let (result, run) = consider_all_total key seq ss (consider best found) rest in
      (result, rw read run)

  consider_all-IsNewestIn :
      (key : Text) (seq : ℕ) (ss : List (Versions E)) (xs : List Record)
      (best result : Option Record)
      → IsNewestIn key seq xs best
      → consider_all key seq best (lookups ss) ≡ ok result
      → IsNewestIn key seq (xs ++ all_versions ss) result
  unfolding consider_all all_versions lookups
  consider_all-IsNewestIn key seq [] xs best result h e =
      subst (IsNewestIn key seq (xs ++ [])) (ok-injective e)
        (subst (λ l. IsNewestIn key seq l best) (sym (append-nil xs)) h)
  consider_all-IsNewestIn key seq (s ∷ ss) xs best result h e =
      >>=-elim (map_err read_failed (s.get_record_at key seq)) _ e λ rec read e1.
        let found = s.finds_newest key seq rec (map_err-eq-ok read_failed _ read) in
        let both = consider-IsNewestIn key seq xs s.records best rec h found in
        let rest =
          consider_all-IsNewestIn key seq ss (xs ++ s.records) (consider best rec) result both e1 in
        subst (λ l. IsNewestIn key seq l result) (append_assoc xs s.records (all_versions ss)) rest

  -- A read that no lookup fails ends in the value of the newest visible version in the memtable, the
  -- immutable memtables and the tables together, and in `ErrNotFound` where there is none or it is
  -- a tombstone.
  pub get_at-newest :
      (key : Text) (max_seq : ℕ) (memtable : Versions E) (immutables tables : List (Versions E))
      → All
          (λ s. (found : Option Record) × (s.get_record_at key max_seq ≡ ok found))
          (memtable ∷ (immutables ++ tables))
      → (newest : Option Record) × IsNewestIn key max_seq
          (all_versions (memtable ∷ (immutables ++ tables)))
          newest
        × (get_at key max_seq memtable.get_record_at (lookups immutables) (lookups tables)
            ≡ value_of newest)
  unfolding get_at lookups
  get_at-newest key max_seq memtable immutables tables readable =
      let (newest, run) =
        consider_all_total key max_seq (memtable ∷ (immutables ++ tables)) none readable in
      (
        newest,
        consider_all-IsNewestIn key max_seq (memtable ∷ (immutables ++ tables)) [] none newest tt
            run,
        rw (← lookups-append immutables tables, run) refl,
      )
