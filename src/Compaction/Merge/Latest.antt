-- ===== src/Compaction/Merge/Latest.antt =====
-- What compaction.go keeps when nothing reads: the newest version of a key, or that there is none.
use hypha_db.Base.{
  ℕ, ◌≤◌, ◌≡◌, inl, inr, refl, sym, ◌∙◌, subst, Bool, true, false, Bool-cases, Option, none, some,
  List, [], ◌∷◌, leb, if◌then◌else◌, arith, All, All-map,
}
use hypha_db.Base.Text.{
  Text, text_eq, text_lt, text_eq_refl, text_eq→eq, text_lt_irrefl, text_lt-total, text_lt_le_trans,
}
use hypha_db.Record.{Record}
use hypha_db.Compaction.Merge.{MergeOptions, MergeState, decide, carried, retain_step}
use hypha_db.Compaction.Merge.Retention.{find_visible, kept, IsOpen, carried_fresh, step_IsOpen}

abbrev pub live : Option Record → Option Record
live none = none
live (some r) = if r.deleted then none else some r

-- The value of a key: the first version that is not too new, unless it is a tombstone.
unfoldable pub find_live : Text → ℕ → List Record → Option Record
find_live key seq rs = live (find_visible key seq rs)

-- The keys do not go down.
abbrev pub KeysAscend : List Record → Type 0
KeysAscend [] = Unit
KeysAscend (r ∷ rs) = All (λ x. text_lt x.key r.key ≡ false) rs × KeysAscend rs

absent-kept :
    (options : MergeOptions) (st : MergeState) (key : Text) (seq : ℕ) (rs : List Record)
    → All (λ x. text_eq x.key key ≡ false) rs
    → find_visible key seq (kept options st rs) ≡ none
unfolding kept find_visible
absent-kept options st key seq [] h = refl
absent-kept options st key seq (r ∷ rs) h =
    let rest = absent-kept options (retain_step options r st) key seq rs h.1 in
    elim (Bool-cases (decide options r (carried r st)).0) [
      | inl keep ↦ rw (keep, h.0) rest
      | inr skip ↦ rw skip rest
    ]

-- Keys above a key are not that key.
above_apart :
    (key : Text) (r : Record) (rs : List Record)
    → text_lt r.key key ≡ false
    → text_eq r.key key ≡ false
    → All (λ x. text_lt x.key r.key ≡ false) rs
    → All (λ x. text_eq x.key key ≡ false) rs
above_apart key r rs not_below apart h =
    let above : text_lt key r.key ≡ true = elim (Bool-cases (text_lt key r.key)) [
      | inl less ↦ less
      | inr not_less ↦ cc (text_lt-total r.key key not_below not_less, apart)
    ] in
    All-map _ _
      (λ x later. elim (Bool-cases (text_eq x.key key)) [
        | inr other ↦ other
        | inl same ↦
            let past = text_lt_le_trans key r.key x.key above later in
            cc (
              subst (λ k. text_lt key k ≡ true) (text_eq→eq x.key key same) past,
              text_lt_irrefl key,
            )
      ])
      rs h

step_flags :
    (options : MergeOptions) (r : Record) (st : MergeState)
    → ((retain_step options r st).first_key ≡ false)
      × ((retain_step options r st).last_key ≡ r.key)
      × ((retain_step options r st).retained_visible ≡ (decide options r (carried r st)).1)
unfolding retain_step
step_flags options r st = (refl, refl, refl)

carried_passed :
    (st : MergeState) (r : Record)
    → st.first_key ≡ false
    → r.key ≡ st.last_key
    → st.retained_visible ≡ true
    → carried r st ≡ true
unfolding carried
carried_passed st r first same passed =
    let eq : text_eq r.key st.last_key ≡ true =
      subst (λ k. text_eq r.key k ≡ true) same (text_eq_refl r.key) in
    rw (first, eq) passed

module _ (drop_tombstones : Bool) (key : Text) (seq : ℕ) where
  abbrev options : MergeOptions
  options = record { oldest_reader = none; drop_tombstones = drop_tombstones }

  decide_passed :
      (r : Record) → ((decide options r true).0 ≡ false) × ((decide options r true).1 ≡ true)
  unfolding decide
  decide_passed r = (refl, refl)

  dropped_deleted : (r : Record) → (decide options r false).0 ≡ false → r.deleted ≡ true
  unfolding decide
  dropped_deleted r h = ground arith

  marks_passed : (r : Record) → (decide options r false).1 ≡ true
  unfolding decide
  marks_passed r = refl

  -- Once a version of the key has been passed, no other is kept.
  passed-kept :
      (st : MergeState) (rs : List Record)
      → st.first_key ≡ false
      → st.last_key ≡ key
      → st.retained_visible ≡ true
      → All (λ x. text_lt x.key key ≡ false) rs
      → KeysAscend rs
      → find_visible key seq (kept options st rs) ≡ none
  unfolding kept find_visible
  passed-kept st [] first last passed low ascend = refl
  passed-kept st (r ∷ rs) first last passed low ascend = elim (Bool-cases (text_eq r.key key)) [
    | inr apart ↦
        absent-kept options st key seq (r ∷ rs) (apart, above_apart key r rs low.0 apart ascend.0)
    | inl same ↦
        let name = text_eq→eq r.key key same in
        let passed_before = carried_passed st r first (name ∙ sym last) passed in
        let skip : (decide options r (carried r st)).0 ≡ false =
          rw passed_before (decide_passed r).0 in
        let still : (decide options r (carried r st)).1 ≡ true =
          rw passed_before (decide_passed r).1 in
        rw skip (
          passed-kept (retain_step options r st) rs (step_flags options r st).0
            ((step_flags options r st).1 ∙ name) ((step_flags options r st).2 ∙ still) low.1
            ascend.1)
  ]

  -- Without an active reader: the live value of a key, in records that are not newer than `seq`.
  pub kept-find_live :
      (st : MergeState) (rs : List Record)
      → IsOpen st key
      → All (λ r. r.seq ≤ seq) rs
      → KeysAscend rs
      → find_live key seq (kept options st rs) ≡ find_live key seq rs
  unfolding kept find_visible find_live
  kept-find_live st [] unkept old ascend = refl
  kept-find_live st (r ∷ rs) unkept old ascend = elim (Bool-cases (text_eq r.key key)) [
    | inr apart ↦
        let rest =
          kept-find_live (retain_step options r st) rs (step_IsOpen options st r key apart) old.1
            ascend.1 in
        elim (Bool-cases (decide options r (carried r st)).0) [
          | inl keep ↦ rw (keep, apart) rest
          | inr skip ↦ rw (skip, apart) rest
        ]
    | inl same ↦
        let fresh = carried_fresh st r key unkept same in
        let visible : leb r.seq seq ≡ true = let h = old.0 in ground arith in
        elim (Bool-cases (decide options r (carried r st)).0) [
          | inl keep ↦ rw (keep, same, visible) refl
          | inr skip ↦
              let name = text_eq→eq r.key key same in
              let dropped : (decide options r false).0 ≡ false = rw fresh at skip in
              let tombstone = dropped_deleted r dropped in
              let still : (decide options r (carried r st)).1 ≡ true = rw fresh (marks_passed r) in
              let low = subst (λ k. All (λ x. text_lt x.key k ≡ false) rs) name ascend.0 in
              let nothing =
                passed-kept (retain_step options r st) rs (step_flags options r st).0
                  ((step_flags options r st).1 ∙ name) ((step_flags options r st).2 ∙ still) low
                  ascend.1 in
              rw (skip, same, visible, nothing, tombstone) refl
        ]
  ]
