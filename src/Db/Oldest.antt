-- ===== src/Db/Oldest.antt =====
-- The oldest active reader of internal/db/db.go: the bound below which compaction drops versions.
use mathlib.Core.List.{Memᴰ}
use hypha_db.Base.{
  ℕ, ◌≤◌, ◌<◌, ◌≡◌, ◌⊎◌, inl, inr, refl, sym, subst, Bool-cases, Option, none, some, List, [], ◌∷◌,
  ltb, ◌==◌, arith, All, All-of-Memᴰ,
}
use hypha_db.Db.Readers.{
  ReaderMap, count, register_reader, unregister_reader, oldest_from, oldest_reader_of, occurrences,
  close_one, IsCounting, Represents, register_reader-Represents, unregister_reader-Represents,
}

record IsLeastKey (start : ℕ) (m : ReaderMap) (oldest : ℕ) : Type 0 where
  pub low : oldest ≤ start
  pub below : All (λ e. oldest ≤ e.0) m
  pub held : (oldest ≡ start) ⊎ (0 < count m oldest)

counted_later : (e : ℕ × ℕ) (m : ReaderMap) (s : ℕ) → 0 < e.1 → 0 < count m s → 0 < count (e ∷ m) s
unfolding count
counted_later e m s here later = ground (arith, here, later)

counted_here : (e : ℕ × ℕ) (m : ReaderMap) → 0 < e.1 → 0 < count (e ∷ m) e.0
unfolding count
counted_here e m here = ground (arith, here)

oldest_from-IsLeastKey :
    (start : ℕ) (m : ReaderMap)
    → IsCounting m
    → (oldest : ℕ) × (oldest_from (some start) m ≡ some oldest) × IsLeastKey start m oldest
unfolding oldest_from
oldest_from-IsLeastKey start [] h =
    (start, refl, record { low = omega arith; below = tt; held = inl refl })
oldest_from-IsLeastKey start (e ∷ m) (here, once, rest) = elim (Bool-cases (ltb e.0 start)) [
  | inl older ↦
      let (oldest, run, least) = oldest_from-IsLeastKey e.0 m rest in
      let low = least.low in
      (
        oldest,
        rw older run,
        record {
          low = ground arith;
          below = (low, least.below);
          held = elim least.held [
            | inl same ↦ inr (subst (λ k. 0 < count (e ∷ m) k) (sym same) (counted_here e m here))
            | inr later ↦ inr (counted_later e m oldest here later)
          ];
        },
      )
  | inr newer ↦
      let (oldest, run, least) = oldest_from-IsLeastKey start m rest in
      let low = least.low in
      (
        oldest,
        rw newer run,
        record {
          low = low;
          below = (ground arith, least.below);
          held = elim least.held [
            | inl same ↦ inl same
            | inr later ↦ inr (counted_later e m oldest here later)
          ];
        },
      )
]

below_counted :
    (m : ReaderMap) (oldest s : ℕ) → All (λ e. oldest ≤ e.0) m → 0 < count m s → oldest ≤ s
unfolding count
below_counted [] oldest s h pos = absurd (omega arith)
below_counted (e ∷ m) oldest s h pos = elim (Bool-cases (e.0 == s)) [
  | inl hit ↦ let low = h.0 in ground arith
  | inr miss ↦ below_counted m oldest s h.1 (rw miss at pos)
]

occurrences_member : (r : ℕ) (rs : List ℕ) → Memᴰ r rs → 0 < occurrences r rs
unfolding occurrences
occurrences_member r [] m = elim m [ ]
occurrences_member r (x ∷ xs) (Memᴰ.head e) = ground (arith, e)
occurrences_member r (x ∷ xs) (Memᴰ.tail m) = ground (arith, occurrences_member r xs m)

-- No reader is open; or one is open at `oldest`, and none at a lower sequence.
abbrev pub IsOldest : Option ℕ → List ℕ → Type 0
IsOldest none readers = readers ≡ []
IsOldest (some oldest) readers = (0 < occurrences oldest readers) × All (λ r. oldest ≤ r) readers

count_of_nothing : (s : ℕ) → count [] s ≡ 0
unfolding count
count_of_nothing s = refl

nothing_open : Represents [] []
unfolding count occurrences
nothing_open = record { counting = tt; counts = λ s. refl }

oldest_reader_of-IsOldest :
    (m : ReaderMap) (readers : List ℕ)
    → Represents m readers
    → IsOldest (oldest_reader_of m) readers
unfolding oldest_reader_of oldest_from
oldest_reader_of-IsOldest [] [] h = refl
oldest_reader_of-IsOldest [] (r ∷ rs) h =
    let some_open = occurrences_member r (r ∷ rs) (Memᴰ.head refl) in
    let same = h.counts r in
    let none_counted = count_of_nothing r in absurd (omega (arith, some_open, same, none_counted))
oldest_reader_of-IsOldest (e ∷ m) readers h =
    let (here, once, rest) = h.counting in
    let (oldest, run, least) = oldest_from-IsLeastKey e.0 m rest in
    let held : 0 < count (e ∷ m) oldest = elim least.held [
      | inl same ↦ subst (λ k. 0 < count (e ∷ m) k) (sym same) (counted_here e m here)
      | inr later ↦ counted_later e m oldest here later
    ] in
    rw run (
      subst (λ n. 0 < n) (h.counts oldest) held,
      All-of-Memᴰ _ readers (λ r member.
          below_counted (e ∷ m) oldest r (least.low, least.below)
            (subst (λ n. 0 < n) (sym (h.counts r)) (occurrences_member r readers member))),
    )

-- What snapshots and iterators do: open at a sequence, or close.
pub data ReaderStep : Type 0 where
  opened closed : ℕ → ReaderStep

unfoldable pub run_reader : ReaderStep → ReaderMap → ReaderMap
run_reader (opened s) m = register_reader s m
run_reader (closed s) m = unregister_reader s m

unfoldable pub run_readers : List ReaderStep → ReaderMap → ReaderMap
run_readers [] m = m
run_readers (x ∷ xs) m = run_readers xs (run_reader x m)

-- The readers that are open after the steps.
unfoldable pub open_readers : List ReaderStep → List ℕ → List ℕ
open_readers [] rs = rs
open_readers (opened s ∷ xs) rs = open_readers xs (s ∷ rs)
open_readers (closed s ∷ xs) rs = open_readers xs (close_one s rs)

run_readers-Represents :
    (steps : List ReaderStep) (m : ReaderMap) (rs : List ℕ)
    → Represents m rs
    → Represents (run_readers steps m) (open_readers steps rs)
unfolding run_readers run_reader open_readers
run_readers-Represents [] m rs h = h
run_readers-Represents (opened s ∷ xs) m rs h =
    run_readers-Represents xs (register_reader s m) (s ∷ rs) (register_reader-Represents s m rs h)
run_readers-Represents (closed s ∷ xs) m rs h =
    run_readers-Represents xs (unregister_reader s m) (close_one s rs)
      (unregister_reader-Represents s m rs h)

-- After any openings and closings of readers from an empty map, in any order,
-- `oldestReaderLocked` finds no reader exactly when none is open, and otherwise one that is open
-- and lower than no other.
pub run_readers-IsOldest :
    (steps : List ReaderStep)
    → IsOldest (oldest_reader_of (run_readers steps [])) (open_readers steps [])
run_readers-IsOldest steps =
    oldest_reader_of-IsOldest (run_readers steps []) (open_readers steps [])
      (run_readers-Represents steps [] [] nothing_open)
