-- ===== src/Memtable/Snapshot.antt =====
-- internal/memtable/iterator.go and snapshot_iterator.go: the two iterators give the same records.
use hypha_db.Base.{
  ℕ, zero, suc, ◌+◌, ◌≤◌, ◌<◌, ◌≡◌, inl, inr, refl, sym, ap, ◌∙◌, subst, Bool, true, false,
  Option-cases, none, some, List, [], ◌∷◌, length, get_elem?, drop, drop-nil, if◌then◌else◌, arith,
  keep_if, get_elem?-lt, All-get_elem?,
}
use hypha_db.Base.Text.{Text, text_lt, text_le, text_le_trans}
use hypha_db.Record.{Record}
use hypha_db.Compaction.Merge.Order.{Precedes, InOrder}
use hypha_db.Skiplist.{Node, next_of, items_from}
use hypha_db.Skiplist.Layout.{Cell, cell_records}
use hypha_db.Skiplist.Order.{IsAscending-InOrder}
use hypha_db.Skiplist.Insert.{IsSkipList}
use hypha_db.Skiplist.Reads.{all_records-cell_records, records_from-keep_if}
use hypha_db.Sstable.Search.{sort_search, sort_search-IsLeast}
use hypha_db.Memtable.{
  MemTable, Iterator, iterator, seek, next, collect, records, SnapshotIterator, snapshot_iterator,
  snapshot_seek, snapshot_next, is_at_or_after, drain,
}

next_some :
    (m : MemTable) (it : Iterator) (x : ℕ) (n : Node)
    → it.node ≡ some x
    → get_elem? m.nodes x ≡ some n
    → next m it ≡ (true, record { node = next_of m.nodes x 0; current = some n.item })
unfolding next
next_some m it x n e there = rw (e, there, next) refl

next_none : (m : MemTable) (it : Iterator) → it.node ≡ none → (next m it).0 ≡ false
unfolding next
next_none m it e = rw (e, next) refl

next_missing :
    (m : MemTable) (it : Iterator) (x : ℕ)
    → it.node ≡ some x
    → get_elem? m.nodes x ≡ none
    → (next m it).0 ≡ false
unfolding next
next_missing m it x e missing = rw (e, missing, next) refl

-- A round of the loop, by what `Next` says.
abbrev collect_round : MemTable → ℕ → Bool × Iterator → List Record
collect_round m fuel p =
    if p.0
    then (elim p.1.current [ none ↦ collect m fuel p.1 | some r ↦ r ∷ collect m fuel p.1 ])
    else []

collect-round :
    (m : MemTable) (fuel : ℕ) (it : Iterator)
    → collect m (suc fuel) it ≡ collect_round m fuel (next m it)
unfolding collect
collect-round m fuel it = refl

-- The loop over the iterator gives the records of the nodes.
collect-items_from :
    (m : MemTable) (fuel : ℕ) (it : Iterator) → collect m fuel it ≡ items_from m.nodes fuel it.node
unfolding collect items_from
collect-items_from m zero it = refl
collect-items_from m (suc fuel) it = elim (Option-cases it.node) [
  | inl end ↦ rw (next_none m it end) (rw (end, items_from) refl)
  | inr (x, e) ↦ elim (Option-cases (get_elem? m.nodes x)) [
    | inl missing ↦ rw (next_missing m it x e missing) (rw (e, missing, items_from) refl)
    | inr (n, there) ↦
        let ih =
          collect-items_from m fuel
            (record { node = next_of m.nodes x 0; current = some n.item }) in
        let nodes : items_from m.nodes (suc fuel) it.node
            ≡ n.item ∷ items_from m.nodes fuel (next_of m.nodes x 0) =
          rw (e, there, items_from) refl in
        collect-round m fuel it
        ∙ (ap (collect_round m fuel) (next_some m it x n e there)
            ∙ (ap (λ t. n.item ∷ t) ih ∙ sym nodes))
  ]
]

pub records-cell_records :
    (m : MemTable) (cells : List Cell) → IsSkipList m cells → records m ≡ cell_records cells
unfolding records iterator
records-cell_records m cells inv =
    collect-items_from m (length m.nodes) (iterator m) ∙ all_records-cell_records m cells inv

drop-get_elem? {ℓ} :
    {A : Type ℓ} (xs : List A) (i : ℕ) (a : A)
    → get_elem? xs i ≡ some a
    → drop i xs ≡ a ∷ drop (suc i) xs
drop-get_elem? [] i a h = absurd (cc h)
drop-get_elem? (x ∷ xs) zero a h = let same : x ≡ a = cc h in ap (λ y. y ∷ xs) same
drop-get_elem? (x ∷ xs) (suc i) a h = drop-get_elem? xs i a h

drop_missing {ℓ} : {A : Type ℓ} (xs : List A) (i : ℕ) → get_elem? xs i ≡ none → drop i xs ≡ []
drop_missing [] i h = drop-nil i
drop_missing (x ∷ xs) zero h = absurd (cc h)
drop_missing (x ∷ xs) (suc i) h = drop_missing xs i h

drop_all {ℓ} : {A : Type ℓ} (xs : List A) (i : ℕ) → length xs ≤ i → drop i xs ≡ []
drop_all [] i h = drop-nil i
drop_all (x ∷ xs) zero h = absurd (omega arith)
drop_all (x ∷ xs) (suc i) h = drop_all xs i (omega arith)

snapshot_next-some :
    (it : SnapshotIterator) (r : Record)
    → get_elem? it.held it.position ≡ some r
    → snapshot_next it ≡ (true, record it { position = it.position + 1; current = some r })
unfolding snapshot_next
snapshot_next-some it r there = rw (there, snapshot_next) refl

snapshot_next-none :
    (it : SnapshotIterator) → get_elem? it.held it.position ≡ none → (snapshot_next it).0 ≡ false
unfolding snapshot_next
snapshot_next-none it missing = rw (missing, snapshot_next) refl

abbrev drain_round : ℕ → Bool × SnapshotIterator → List Record
drain_round fuel p =
    if p.0 then (elim p.1.current [ none ↦ drain fuel p.1 | some r ↦ r ∷ drain fuel p.1 ]) else []

drain-round :
    (fuel : ℕ) (it : SnapshotIterator) → drain (suc fuel) it ≡ drain_round fuel (snapshot_next it)
unfolding drain
drain-round fuel it = refl

drain-drop :
    (fuel : ℕ) (it : SnapshotIterator)
    → length it.held < it.position + fuel
    → drain fuel it ≡ drop it.position it.held
unfolding drain
drain-drop zero it enough = sym (drop_all it.held it.position (omega arith))
drain-drop (suc fuel) it enough = elim (Option-cases (get_elem? it.held it.position)) [
  | inl end ↦ rw (snapshot_next-none it end) (sym (drop_missing it.held it.position end))
  | inr (r, there) ↦
      let ih =
        drain-drop fuel (record it { position = it.position + 1; current = some r })
          (omega arith) in
      let step : it.position + 1 ≡ suc it.position = omega arith in
      drain-round fuel it
      ∙ (ap (drain_round fuel) (snapshot_next-some it r there)
          ∙ (ap (λ t. r ∷ t) ih
              ∙ (ap (λ n. r ∷ drop n it.held) step
                  ∙ sym (drop-get_elem? it.held it.position r there))))
]

keep_all :
    (key : Text) (rs : List Record)
    → ((k : ℕ) → k < length rs → is_at_or_after rs key k ≡ true)
    → keep_if (λ r. text_le key r.key) rs ≡ rs
unfolding keep_if is_at_or_after
keep_all key [] h = refl
keep_all key (r ∷ rs) h =
    rw (h 0 (omega arith)) (ap (λ t. r ∷ t) (keep_all key rs (λ k l. h (suc k) (omega arith))))

-- The records behind the least index are those that pass the test.
drop-keep_if :
    (key : Text) (rs : List Record) (n : ℕ)
    → n ≤ length rs
    → ((k : ℕ) → k < n → is_at_or_after rs key k ≡ false)
    → ((k : ℕ) → n ≤ k → k < length rs → is_at_or_after rs key k ≡ true)
    → drop n rs ≡ keep_if (λ r. text_le key r.key) rs
unfolding keep_if is_at_or_after
drop-keep_if key rs zero inside before after =
    sym (keep_all key rs (λ k l. after k (omega arith) l))
drop-keep_if key [] (suc n) inside before after = absurd (omega arith)
drop-keep_if key (r ∷ rs) (suc n) inside before after = rw (before 0 (omega arith)) (
    drop-keep_if key rs n (omega arith) (λ k l. before (suc k) (omega arith))
      (λ k low l. after (suc k) (omega arith) (omega arith)))

-- Behind a record that passes, all pass.
at_or_after_mono :
    (key : Text) (rs : List Record) (a b : ℕ)
    → InOrder rs
    → a ≤ b
    → b < length rs
    → is_at_or_after rs key a ≡ true
    → is_at_or_after rs key b ≡ true
unfolding is_at_or_after
at_or_after_mono key [] a b ordered le inside h = absurd (omega arith)
at_or_after_mono key (r ∷ rs) zero zero ordered le inside h = h
at_or_after_mono key (r ∷ rs) (suc a) zero ordered le inside h = absurd (omega arith)
at_or_after_mono key (r ∷ rs) (suc a) (suc b) ordered le inside h =
    at_or_after_mono key rs a b ordered.1 (omega arith) (omega arith) h
at_or_after_mono key (r ∷ rs) zero (suc b) ordered le inside h =
    let (x, there) = get_elem?-lt rs b (omega arith) in
    let later = All-get_elem? (Precedes r) rs b x ordered.0 there in
    let low : text_lt r.key key ≡ false = ground arith in
    rw (there, is_at_or_after)
      (let high = text_le_trans key r.key x.key low later.keys in ground arith)

-- A snapshot iterator that is sought and read to its end gives what the iterator over the nodes
-- gives: the records from the key on, in order.
pub drain-collect :
    (m : MemTable) (cells : List Cell) (key : Text)
    → IsSkipList m cells
    → (drain (length (records m) + 1) (snapshot_seek key (snapshot_iterator m))
        ≡ collect m (length m.nodes) (seek m key (iterator m)))
      × (collect m (length m.nodes) (seek m key (iterator m))
          ≡ keep_if (λ r. text_le key r.key) (cell_records cells))
unfolding snapshot_seek snapshot_iterator seek
drain-collect m cells key inv =
    let rs = records m in
    let ordered : InOrder rs =
      subst InOrder (sym (records-cell_records m cells inv))
        (IsAscending-InOrder cells inv.ascending) in
    let least =
      sort_search-IsLeast (is_at_or_after rs key) (length rs)
        (λ a b le inside h. at_or_after_mono key rs a b ordered le inside h) in
    let live =
      collect-items_from m (length m.nodes) (seek m key (iterator m))
      ∙ records_from-keep_if m cells key inv in
    let copied =
      drain-drop (length rs + 1) (snapshot_seek key (snapshot_iterator m)) (omega arith)
      ∙ (drop-keep_if key rs (sort_search (is_at_or_after rs key) (length rs)) least.inside
            least.before least.after
          ∙ ap (keep_if (λ r. text_le key r.key)) (records-cell_records m cells inv)) in
    (copied ∙ sym live, live)
