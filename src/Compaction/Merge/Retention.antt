-- ===== src/Compaction/Merge/Retention.antt =====
-- What compaction.go keeps of the versions it merges: all that a reader can still see.
use hypha_db.Base.{
  ℕ, ◌≤◌, ◌<◌, ◌≡◌, inl, inr, refl, sym, ◌∙◌, subst, Bool, true, false, not, ◌&&◌, ◌||◌, Bool-cases,
  Option, none, some, List, [], ◌∷◌, ◌++◌, append-nil, append_assoc, leb, if◌then◌else◌, arith,
  lt→ltb,
}
use hypha_db.Base.Text.{Text, text_eq, text_eq→eq, text_eq_apart}
use hypha_db.Record.{Record}
use hypha_db.Compaction.Merge.{MergeOptions, MergeState, decide, carried, retain_step}

-- The first version of a key that is not newer than a sequence number.
unfoldable pub find_visible : Text → ℕ → List Record → Option Record
find_visible key seq [] = none
find_visible key seq (r ∷ rs) =
    let rest = find_visible key seq rs in
    if text_eq r.key key && leb r.seq seq then some r else rest

-- The state after a list of popped records.
unfoldable pub retain_all : MergeOptions → MergeState → List Record → MergeState
retain_all options st [] = st
retain_all options st (r ∷ rs) = retain_all options (retain_step options r st) rs

-- The records among them that are kept.
unfoldable pub kept : MergeOptions → MergeState → List Record → List Record
kept options st [] = []
kept options st (r ∷ rs) =
    let rest = kept options (retain_step options r st) rs in
    if (decide options r (carried r st)).0 then r ∷ rest else rest

pub retain_all-kept :
    (options : MergeOptions) (st : MergeState) (rs : List Record)
    → (retain_all options st rs).output ≡ st.output ++ kept options st rs
unfolding retain_all kept retain_step
retain_all-kept options st [] = sym (append-nil st.output)
retain_all-kept options st (r ∷ rs) = elim (Bool-cases (decide options r (carried r st)).0) [
  | inl keep ↦
      retain_all-kept options (retain_step options r st) rs
      ∙ rw (keep, append_assoc st.output (r ∷ [])) refl
  | inr skip ↦ retain_all-kept options (retain_step options r st) rs ∙ rw skip refl
]

-- No version of the key that a reader needs has been kept yet.
abbrev pub IsOpen : MergeState → Text → Type 0
IsOpen st key = (st.first_key || (not (text_eq key st.last_key) || not st.retained_visible)) ≡ true

-- A record of an unkept key carries nothing over.
pub carried_fresh :
    (st : MergeState) (r : Record) (key : Text)
    → IsOpen st key
    → text_eq r.key key ≡ true
    → carried r st ≡ false
unfolding carried
carried_fresh st r key unkept same =
    let unkept' = subst (λ k. IsOpen st k) (sym (text_eq→eq r.key key same)) unkept in ground arith

-- A record of another key leaves the key unkept.
pub step_IsOpen :
    (options : MergeOptions) (st : MergeState) (r : Record) (key : Text)
    → text_eq r.key key ≡ false
    → IsOpen (retain_step options r st) key
unfolding retain_step
step_IsOpen options st r key apart = rw (text_eq_apart r.key key apart) refl

module _ (oldest : ℕ) (drop_tombstones : Bool) (key : Text) (seq : ℕ) (reads : oldest ≤ seq) where
  abbrev options : MergeOptions
  options = record { oldest_reader = some oldest; drop_tombstones = drop_tombstones }

  keeps_fresh : (r : Record) → (decide options r false).0 ≡ true
  unfolding decide
  keeps_fresh r = ground arith

  newer_IsOpen :
      (st : MergeState) (r : Record)
      → carried r st ≡ false
      → oldest < r.seq
      → IsOpen (retain_step options r st) key
  unfolding retain_step decide
  newer_IsOpen st r fresh above =
      let unseen : (decide options r (carried r st)).1 ≡ false =
        rw (fresh, lt→ltb oldest r.seq above) refl in
      ground (arith, unseen)

  -- With an active reader: what any reader at or above the oldest sees of a key.
  pub kept-find_visible :
      (st : MergeState) (rs : List Record)
      → IsOpen st key
      → find_visible key seq (kept options st rs) ≡ find_visible key seq rs
  unfolding kept find_visible
  kept-find_visible st [] unkept = refl
  kept-find_visible st (r ∷ rs) unkept = elim (Bool-cases (text_eq r.key key)) [
    | inr apart ↦
        let rest =
          kept-find_visible (retain_step options r st) rs (step_IsOpen options st r key apart) in
        elim (Bool-cases (decide options r (carried r st)).0) [
          | inl keep ↦ rw (keep, apart) rest
          | inr skip ↦ rw (skip, apart) rest
        ]
    | inl same ↦
        let fresh = carried_fresh st r key unkept same in
        let keep : (decide options r (carried r st)).0 ≡ true = rw fresh (keeps_fresh r) in
        elim (Bool-cases (leb r.seq seq)) [
          | inl visible ↦ rw (keep, same, visible) refl
          | inr newer ↦
              let rest =
                kept-find_visible (retain_step options r st) rs
                  (newer_IsOpen st r fresh (ground arith)) in
              rw (keep, same, newer) rest
        ]
  ]
