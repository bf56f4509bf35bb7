-- ===== src/Compaction/Merge/Newest.antt =====
-- The newest version of a key that a reader sees in several tables, and where a merge has it.
use mathlib.Core.List.{Memᴰ}
use hypha_db.Base.{
  ℕ, ◌≤◌, ◌≡◌, inl, inr, refl, sym, ◌∙◌, subst, true, ◌&&◌, Bool-cases, Option, none, some, List,
  [], ◌∷◌, leb, arith, All, All-map, All-of-Memᴰ, All-Memᴰ, ◌↔◌,
}
use hypha_db.Base.Text.{Text, text_eq, text_eq_refl, text_eq→eq}
use hypha_db.Record.{Record}
use hypha_db.Compaction.Merge.{Source}
use hypha_db.Compaction.Merge.Order.{Precedes, InOrder}
use hypha_db.Compaction.Merge.Retention.{find_visible}

-- A reader at `seq` sees the record when it looks for the key.
abbrev pub IsSeen : Text → ℕ → Record → Type 0
IsSeen key seq r = (text_eq r.key key && leb r.seq seq) ≡ true

-- Nothing is seen; or a record of a table is seen, and no record that is seen is newer.
abbrev pub IsNewest : Text → ℕ → List Source → Option Record → Type 0
IsNewest key seq ssts none = All (λ s. All (λ r. ¬ IsSeen key seq r) s.records) ssts
IsNewest key seq ssts (some r) =
    IsSeen key seq r
    × ((s : Source) × Memᴰ s ssts × Memᴰ r s.records)
    × All (λ s. All (λ x. IsSeen key seq x → x.seq ≤ r.seq) s.records) ssts

-- The same in one list.
abbrev pub IsNewestIn : Text → ℕ → List Record → Option Record → Type 0
IsNewestIn key seq rs none = All (λ r. ¬ IsSeen key seq r) rs
IsNewestIn key seq rs (some r) =
    IsSeen key seq r × Memᴰ r rs × All (λ x. IsSeen key seq x → x.seq ≤ r.seq) rs

after_unseen :
    (key : Text) (seq : ℕ) (r : Record) (rs : List Record) (o : Option Record)
    → ¬ IsSeen key seq r
    → IsNewestIn key seq rs o
    → IsNewestIn key seq (r ∷ rs) o
after_unseen key seq r rs none unseen h = (unseen, h)
after_unseen key seq r rs (some x) unseen (seen, member, newest) =
    (seen, Memᴰ.tail member, (λ e. absurd (unseen e), newest))

older :
    (key : Text) (seq : ℕ) (r x : Record)
    → IsSeen key seq r
    → IsSeen key seq x
    → Precedes r x
    → x.seq ≤ r.seq
older key seq r x seen x_seen after =
    let name : text_eq r.key key ≡ true = ground arith in
    let x_name : text_eq x.key key ≡ true = ground arith in
    let same : text_eq r.key x.key ≡ true =
      subst (λ k. text_eq r.key k ≡ true)
        (text_eq→eq r.key key name ∙ sym (text_eq→eq x.key key x_name)) (text_eq_refl r.key) in
    after.versions same

pub find_visible-IsNewestIn :
    (key : Text) (seq : ℕ) (rs : List Record)
    → InOrder rs
    → IsNewestIn key seq rs (find_visible key seq rs)
unfolding find_visible
find_visible-IsNewestIn key seq [] ordered = tt
find_visible-IsNewestIn key seq (r ∷ rs) ordered =
    elim (Bool-cases (text_eq r.key key && leb r.seq seq)) [
      | inr unseen ↦ rw unseen (
          after_unseen key seq r rs _ (λ e. cc (e, unseen))
            (find_visible-IsNewestIn key seq rs ordered.1))
      | inl seen ↦ rw seen (
        seen,
        Memᴰ.head refl,
        (
          λ e. omega arith,
          All-map _ _ (λ x after x_seen. older key seq r x seen x_seen after) rs ordered.0,
        ),
      )
    ]

spread :
    (key : Text) (seq : ℕ) (ssts : List Source) (rs : List Record) (o : Option Record)
    → ((P : Record → Type 0) → All (λ s. All P s.records) ssts ↔ All P rs)
    → IsNewestIn key seq rs o
    → IsNewest key seq ssts o
spread key seq ssts rs none same h = (same _).1 h
spread key seq ssts rs (some r) same (seen, member, newest) =
    let held =
      (same (λ x. (s : Source) × Memᴰ s ssts × Memᴰ x s.records)).0
        (All-of-Memᴰ _ ssts (λ s m. All-of-Memᴰ _ s.records (λ x n. (s, m, n)))) in
    (seen, All-Memᴰ _ rs r held member, (same _).1 newest)

-- A merge that has exactly the tables' records, in order, has the newest version of a key first.
pub find_visible-IsNewest :
    (key : Text) (seq : ℕ) (ssts : List Source) (rs : List Record)
    → InOrder rs
    → ((P : Record → Type 0) → All (λ s. All P s.records) ssts ↔ All P rs)
    → IsNewest key seq ssts (find_visible key seq rs)
find_visible-IsNewest key seq ssts rs ordered same =
    spread key seq ssts rs (find_visible key seq rs) same
      (find_visible-IsNewestIn key seq rs ordered)
