-- ===== src/Db/State/Valid.antt =====
-- The invariant of the database's state in internal/db/db.go.
use hypha_db.Base.{
  ℕ, ◌+◌, ◌%◌, ◌^◌, ◌≤◌, ◌<◌, ◌≡◌, ◌⊎◌, inl, inr, refl, sym, ◌∙◌, subst, ◌&&◌, Bool-cases, Option,
  none, some, List, [], ◌==◌, leb, arith, All, All-map, All-append, ok,
}
use hypha_db.Base.Text.{Text, text_eq}
use hypha_db.Record.{Record}
use hypha_db.Skiplist.{new_list}
use hypha_db.Skiplist.Layout.{Cell}
use hypha_db.Skiplist.Insert.{IsSkipList}
use hypha_db.Skiplist.Placed.{put-IsPlaced}
use hypha_db.Skiplist.Fill.{new_list-IsSkipList}
use hypha_db.Skiplist.History.{newer_of, get_at-put}
use hypha_db.Skiplist.Reads.{get_at-find_visible}
use hypha_db.Compaction.Merge.Retention.{find_visible}
use hypha_db.Memtable
use hypha_db.Memtable.{MemTable, new}
use hypha_db.Db.Reads.{Lookup}
use hypha_db.Db.State.{put_one, Database, store_at, start_memtable, seal_memtable, memtable_put}

abbrev pub IsMemtable : MemTable → Type 0
IsMemtable m = (cells : List Cell) × IsSkipList m cells × (m.max_level ≡ 16)

abbrev pub FindsBelow : ℕ → MemTable → Type 0
FindsBelow bound m =
    (key : Text) (seq : ℕ) (r : Record) → Memtable.get_at m key seq ≡ some r → r.seq < bound

abbrev pub AnswersBelow : {E : Type 0} → ℕ → Lookup E → Type 0
AnswersBelow bound table =
    (key : Text) (seq : ℕ) (r : Record) → table key seq ≡ ok (some r) → r.seq < bound

-- The addresses in use were allocated, and all versions are older than the next sequence.
pub record IsDatabase {E : Type 0} (db : Database E) : Type 0 where
  pub lists : (i : ℕ) → IsMemtable (db.memtables i)
  pub active : db.memtable < db.allocated
  pub sealed : All (λ imm. imm.mem < db.allocated) db.immutables
  pub older : (i : ℕ) → FindsBelow db.next_seq (db.memtables i)
  pub older_tables : All (AnswersBelow db.next_seq) db.tables

pub store_at-All :
    (P : MemTable → Type 0) (a : ℕ) (m : MemTable) (mems : ℕ → MemTable)
    → P m
    → ((i : ℕ) → P (mems i))
    → (i : ℕ) → P (store_at a m mems i)
unfolding store_at
store_at-All P a m mems p h i = elim (Bool-cases (i == a)) [
  | inl hit ↦ rw hit p
  | inr miss ↦ rw miss (h i)
]

pub store_at_self : (a : ℕ) (m : MemTable) (mems : ℕ → MemTable) → store_at a m mems a ≡ m
unfolding store_at
store_at_self a m mems = ground arith

pub store_at_below :
    (a i : ℕ) (m : MemTable) (mems : ℕ → MemTable) → i < a → store_at a m mems i ≡ mems i
unfolding store_at
store_at_below a i m mems h = ground arith

pub fresh-IsMemtable : IsMemtable (new_list 15)
unfolding new_list
fresh-IsMemtable = ([], new_list-IsSkipList 15, refl)

pub fresh_finds_none : (key : Text) (seq : ℕ) → Memtable.get_at (new_list 15) key seq ≡ none
unfolding Memtable.get_at find_visible
fresh_finds_none key seq = get_at-find_visible (new_list 15) [] key seq (new_list-IsSkipList 15)

newer_of-some :
    (key : Text) (seq : ℕ) (rec r : Record) (found : Option Record)
    → newer_of key seq rec found ≡ some r
    → (rec ≡ r) ⊎ (found ≡ some r)
unfolding newer_of
newer_of-some key seq rec r none e = elim (Bool-cases (text_eq rec.key key && leb rec.seq seq)) [
  | inl new ↦ let e' = rw new at e in inl (cc e')
  | inr old ↦ let e' = rw old at e in inr e'
]
newer_of-some key seq rec r (some x) e =
    elim (Bool-cases ((text_eq rec.key key && leb rec.seq seq) && leb x.seq rec.seq)) [
      | inl new ↦ let e' = rw new at e in inl (cc e')
      | inr old ↦ let e' = rw old at e in inr e'
    ]

put-IsMemtable :
    (m : MemTable) (new_level : ℕ) (rec : Record)
    → IsMemtable m
    → 0 < new_level
    → new_level ≤ 16
    → IsMemtable (Memtable.put new_level rec m)
unfolding Memtable.put
put-IsMemtable m new_level rec (cells, inv, levels) some_level fits =
    let (cells', inv', records, same) =
      put-IsPlaced m cells new_level rec inv some_level (omega (arith, levels)) in
    (cells', inv', same ∙ levels)

-- What a memtable finds after a put.
pub found_after_put :
    (m : MemTable) (new_level : ℕ) (rec : Record) (key : Text) (seq : ℕ)
    → IsMemtable m
    → 0 < new_level
    → new_level ≤ 16
    → Memtable.get_at (Memtable.put new_level rec m) key seq
      ≡ newer_of key seq rec (Memtable.get_at m key seq)
unfolding Memtable.put Memtable.get_at
found_after_put m new_level rec key seq (cells, inv, levels) some_level fits =
    get_at-put m cells new_level rec key seq inv some_level (omega (arith, levels))

put-FindsBelow :
    (m : MemTable) (new_level bound : ℕ) (rec : Record)
    → IsMemtable m
    → 0 < new_level
    → new_level ≤ 16
    → rec.seq < bound
    → FindsBelow bound m
    → FindsBelow bound (Memtable.put new_level rec m)
put-FindsBelow m new_level bound rec inv some_level fits below h key seq r e =
    let e' = sym (found_after_put m new_level rec key seq inv some_level fits) ∙ e in
    elim (newer_of-some key seq rec r (Memtable.get_at m key seq) e') [
      | inl same ↦ subst (λ x. x.seq < bound) same below
      | inr old ↦ h key seq r old
    ]

module _ {E : Type 0} where
  raise_tables :
      (low high : ℕ) (tables : List (Lookup E))
      → low ≤ high
      → All (AnswersBelow low) tables
      → All (AnswersBelow high) tables
  raise_tables low high tables order h =
      All-map _ _ (λ t below key seq r e. let b = below key seq r e in omega (arith, order, b))
        tables h

  pub raise_sequence-IsDatabase :
      (next : ℕ) (db : Database E)
      → IsDatabase db
      → db.next_seq ≤ next
      → IsDatabase (record db { next_seq = next })
  raise_sequence-IsDatabase next db h order = record {
    lists = h.lists;
    active = h.active;
    sealed = h.sealed;
    older = λ i key seq r e. let b = h.older i key seq r e in omega (arith, order, b);
    older_tables = raise_tables db.next_seq next db.tables order h.older_tables;
  }

  pub put_one-IsDatabase :
      (new_level : ℕ) (rec : Record) (db : Database E)
      → IsDatabase db
      → 0 < new_level
      → new_level ≤ 16
      → rec.seq < db.next_seq
      → IsDatabase (put_one new_level rec db)
  unfolding put_one
  put_one-IsDatabase new_level rec db h some_level fits below =
      let inv = h.lists db.memtable in
      record {
        lists =
            store_at-All IsMemtable db.memtable _ db.memtables
              (put-IsMemtable (db.memtables db.memtable) new_level rec inv some_level fits) h.lists;
        active = h.active;
        sealed = h.sealed;
        older =
            store_at-All (FindsBelow db.next_seq) db.memtable _ db.memtables
              (put-FindsBelow (db.memtables db.memtable) new_level db.next_seq rec inv some_level
                fits below (h.older db.memtable))
              h.older;
        older_tables = h.older_tables;
      }

  pub memtable_put-IsDatabase :
      (new_level : ℕ) (rec : Record) (db : Database E)
      → IsDatabase db
      → 0 < new_level
      → new_level ≤ 16
      → rec.seq ≡ db.next_seq
      → db.next_seq + 1 < 2 ^ 64
      → IsDatabase (memtable_put new_level rec db)
  unfolding memtable_put
  memtable_put-IsDatabase new_level rec db h some_level fits number room =
      let next : (db.next_seq + 1) % 2 ^ 64 ≡ db.next_seq + 1 = omega arith in
      put_one-IsDatabase new_level rec _
        (raise_sequence-IsDatabase ((db.next_seq + 1) % 2 ^ 64) db h (omega (arith, next)))
        some_level fits (omega (arith, number, next))

  pub seal_memtable-IsDatabase : (db : Database E) → IsDatabase db → IsDatabase (seal_memtable db)
  unfolding seal_memtable
  seal_memtable-IsDatabase db h = record {
    lists = h.lists;
    active = h.active;
    sealed = All-append _ db.immutables _ h.sealed (h.active, tt);
    older = h.older;
    older_tables = h.older_tables;
  }

  pub start_memtable-IsDatabase :
      (db : Database E) → IsDatabase db → IsDatabase (start_memtable (new_list 15) db)
  unfolding start_memtable
  start_memtable-IsDatabase db h = record {
    lists =
        store_at-All IsMemtable db.allocated (new_list 15) db.memtables fresh-IsMemtable h.lists;
    active = omega arith;
    sealed = All-map _ _ (λ imm b. omega (arith, b)) db.immutables h.sealed;
    older =
        store_at-All (FindsBelow db.next_seq) db.allocated (new_list 15) db.memtables
          (λ key seq r e. absurd (cc (sym (fresh_finds_none key seq) ∙ e))) h.older;
    older_tables = h.older_tables;
  }
