-- ===== src/Compaction/Ranges.antt =====
-- The key ranges of picker.go: a range that does not meet a combined range meets none of its parts.
use mathlib.Core.Option.{some-injective}
use mathlib.Core.List.{Memᴰ}
use hypha_db.Base.{
  ℕ, ◌≡◌, ◌⊎◌, inl, inr, sym, ap, subst, Bool, true, false, some, Option-cases, Bool-cases, List,
  [], ◌∷◌, ◌==◌, if◌then◌else◌, arith, All, All-map, ==_iff,
}
use hypha_db.Base.Text.{
  Text, text_lt, text_lt_irrefl, text_lt_le_trans, text_le_lt_trans, lesser_bound, greater_bound,
}
use hypha_db.Manifest.{SstableMetadata}
use hypha_db.Compaction.Picker.{
  has_key_range, ranges_overlap, combine, combined_range, all_ranges_known, is_target,
}

-- The keys of a table lie between the two bounds.
abbrev pub IsWithin : Text → Text → SstableMetadata → Type 0
IsWithin low high t = (text_lt t.smallest_key low ≡ false) × (text_lt high t.largest_key ≡ false)

combine-IsWithin :
    (lo hi low high : Text) (tables : List SstableMetadata)
    → combine lo hi tables ≡ some (low, high)
    → (text_lt lo low ≡ false) × (text_lt high hi ≡ false) × All (IsWithin low high) tables
unfolding combine
combine-IsWithin lo hi low high [] h =
    let same = some-injective _ _ h in
    (
      rw (ap (λ p. p.0) same) (text_lt_irrefl low),
      rw (ap (λ p. p.1) same) (text_lt_irrefl high),
      tt,
    )
combine-IsWithin lo hi low high (t ∷ ts) h = elim (Bool-cases (has_key_range t)) [
  | inl known ↦
      let rest =
        combine-IsWithin (if text_lt t.smallest_key lo then t.smallest_key else lo)
          (if text_lt hi t.largest_key then t.largest_key else hi) low high ts (rw known at h) in
      let least = lesser_bound t.smallest_key lo low rest.0 in
      let most = greater_bound t.largest_key hi high rest.1 in
      (least.1, most.1, ((least.0, most.0), rest.2))
  | inr unknown ↦ absurd (cc (rw unknown at h))
]

-- The range that `combinedRange` returns covers every table.
pub combined_range-IsWithin :
    (low high : Text) (tables : List SstableMetadata)
    → combined_range tables ≡ some (low, high)
    → All (IsWithin low high) tables
unfolding combined_range
combined_range-IsWithin low high [] h = tt
combined_range-IsWithin low high (t ∷ ts) h = elim (Bool-cases (has_key_range t)) [
  | inl known ↦
      let rest = combine-IsWithin t.smallest_key t.largest_key low high ts (rw known at h) in
      ((rest.0, rest.1), rest.2)
  | inr unknown ↦ absurd (cc (rw unknown at h))
]

-- No key of one table is a key of the other, by their bounds.
abbrev pub IsApart : SstableMetadata → SstableMetadata → Type 0
IsApart s t =
    (text_lt s.largest_key t.smallest_key ≡ true) ⊎ (text_lt t.largest_key s.smallest_key ≡ true)

ranges-IsApart :
    (low high : Text) (t s : SstableMetadata)
    → ranges_overlap low high t.smallest_key t.largest_key ≡ false
    → IsWithin low high s
    → IsApart s t
unfolding ranges_overlap
ranges-IsApart low high t s apart within = elim (Bool-cases (text_lt t.largest_key low)) [
  | inl below ↦ inr (text_lt_le_trans t.largest_key low s.smallest_key below within.0)
  | inr not_below ↦
      let above : text_lt high t.smallest_key ≡ true = ground arith in
      inl (text_le_lt_trans s.largest_key high t.smallest_key within.1 above)
]

known_tail : (here rest : Bool) → (if here then false else rest) ≡ true → rest ≡ true
known_tail true rest h = absurd (cc h)
known_tail false rest h = h

all_ranges_known_lem :
    (level : ℕ) (tables : List SstableMetadata) (t : SstableMetadata)
    → all_ranges_known level tables ≡ true
    → Memᴰ t tables
    → t.level ≡ level
    → has_key_range t ≡ true
unfolding all_ranges_known
all_ranges_known_lem level [] t h m same = elim m [ ]
all_ranges_known_lem level (u ∷ us) t h (Memᴰ.head e) same = elim (Bool-cases (has_key_range u)) [
  | inl known ↦ subst (λ v. has_key_range v ≡ true) (sym e) known
  | inr unknown ↦
      let at_level : (u.level == level) ≡ true =
        (==_iff u.level level).1 (subst (λ v. v.level ≡ level) e same) in
      absurd (cc (rw (at_level, unknown) at h))
]
all_ranges_known_lem level (u ∷ us) t h (Memᴰ.tail m) same =
    all_ranges_known_lem level us t (known_tail _ _ h) m same

-- A table of the target level that is not a target has a known range, apart from all that were
-- selected.
pub not_target_lem :
    (selected tables : List SstableMetadata) (level : ℕ) (t : SstableMetadata)
    → Memᴰ t tables
    → t.level ≡ level
    → is_target (combined_range selected) (all_ranges_known level tables) level t ≡ false
    → (has_key_range t ≡ true) × All (λ s. IsApart s t) selected
unfolding is_target
not_target_lem selected tables level t m same h = elim (Option-cases (combined_range selected)) [
  | inl unknown ↦
      let at_level : (t.level == level) ≡ true = (==_iff t.level level).1 same in
      absurd (cc (rw (unknown, at_level) at h))
  | inr ((low, high), found) ↦
      let at_level : (t.level == level) ≡ true = (==_iff t.level level).1 same in
      elim (Bool-cases (all_ranges_known level tables)) [
        | inr unknown ↦ absurd (cc (rw (found, at_level, unknown) at h))
        | inl known ↦
            let apart : ranges_overlap low high t.smallest_key t.largest_key ≡ false =
              rw (found, at_level, known) at h in
            (
              all_ranges_known_lem level tables t known m same,
              All-map (IsWithin low high) (λ s. IsApart s t)
                  (λ s. ranges-IsApart low high t s apart) selected
                  (combined_range-IsWithin low high selected found),
            )
      ]
]
