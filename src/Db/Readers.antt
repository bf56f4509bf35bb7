-- ===== src/Db/Readers.antt =====
-- internal/db/db.go: the sequence numbers at which snapshots and iterators read.
use hypha_db.Base.{
  ℕ, ◌+◌, ◌-◌, ◌≤◌, ◌<◌, ◌≡◌, ◌≢◌, inl, inr, refl, sym, ◌∙◌, subst, false, Bool-cases, Option, none,
  some, List, [], ◌∷◌, ltb, leb, ◌==◌, if◌then◌else◌, arith, ==_iff, ==_refl, ℕ_discrete,
}

-- `activeReaders`, a map from sequences to counts.
abbrev pub ReaderMap : Type 0
ReaderMap = List (ℕ × ℕ)

-- `activeReaders[sequence]`, 0 where the map has no such key.
unfoldable pub count : ReaderMap → ℕ → ℕ
count [] sequence = 0
count (e ∷ m) sequence = let rest = count m sequence in if e.0 == sequence then e.1 else rest

unfoldable pub set_count : ℕ → ℕ → ReaderMap → ReaderMap
set_count sequence c [] = (sequence, c) ∷ []
set_count sequence c (e ∷ m) =
    let rest = set_count sequence c m in if e.0 == sequence then (sequence, c) ∷ m else e ∷ rest

-- `delete(activeReaders, sequence)`
unfoldable pub delete_count : ℕ → ReaderMap → ReaderMap
delete_count sequence [] = []
delete_count sequence (e ∷ m) =
    let rest = delete_count sequence m in if e.0 == sequence then m else e ∷ rest

unfoldable pub register_reader : ℕ → ReaderMap → ReaderMap
register_reader sequence m = set_count sequence (count m sequence + 1) m

unfoldable pub unregister_reader : ℕ → ReaderMap → ReaderMap
unregister_reader sequence m =
    let c = count m sequence in
    if leb c 1 then delete_count sequence m else set_count sequence (c - 1) m

-- The loop of `oldestReaderLocked`, over the map in any order; `none` is `found == false`.
unfoldable pub oldest_from : Option ℕ → ReaderMap → Option ℕ
oldest_from oldest [] = oldest
oldest_from none (e ∷ m) = oldest_from (some e.0) m
oldest_from (some oldest) (e ∷ m) =
    let newer = oldest_from (some oldest) m in
    let older = oldest_from (some e.0) m in if ltb e.0 oldest then older else newer

unfoldable pub oldest_reader_of : ReaderMap → Option ℕ
oldest_reader_of m = oldest_from none m

-- How many of the readers read at a sequence.
unfoldable pub occurrences : ℕ → List ℕ → ℕ
occurrences s [] = 0
occurrences s (r ∷ rs) = let rest = occurrences s rs in if r == s then rest + 1 else rest

-- One of the readers at a sequence closes.
unfoldable pub close_one : ℕ → List ℕ → List ℕ
close_one s [] = []
close_one s (r ∷ rs) = let rest = close_one s rs in if r == s then rs else r ∷ rest

-- Each key once, and no count of 0.
abbrev pub IsCounting : ReaderMap → Type 0
IsCounting [] = Unit
IsCounting (e ∷ m) = (0 < e.1) × (count m e.0 ≡ 0) × IsCounting m

count-nil : (s : ℕ) → count [] s ≡ 0
unfolding count
count-nil s = refl

apart_of_test : (a b : ℕ) → (a == b) ≡ false → b ≢ a
apart_of_test a b h e = ground (arith, e)

count-set_count_self : (s c : ℕ) (m : ReaderMap) → count (set_count s c m) s ≡ c
unfolding count set_count
count-set_count_self s c [] = rw (==_refl s) refl
count-set_count_self s c (e ∷ m) = ground (arith, count-set_count_self s c m)

count-set_count_ne : (s c t : ℕ) (m : ReaderMap) → s ≢ t → count (set_count s c m) t ≡ count m t
unfolding count set_count
count-set_count_ne s c t [] apart = ground arith
count-set_count_ne s c t (e ∷ m) apart = ground (arith, count-set_count_ne s c t m apart)

set_count-IsCounting :
    (s c : ℕ) (m : ReaderMap) → 0 < c → IsCounting m → IsCounting (set_count s c m)
unfolding set_count
set_count-IsCounting s c [] pos h = (pos, count-nil s, tt)
set_count-IsCounting s c (e ∷ m) pos (some_readers, once, rest) = elim (Bool-cases (e.0 == s)) [
  | inl hit ↦ rw hit (pos, subst (λ k. count m k ≡ 0) ((==_iff e.0 s).0 hit) once, rest)
  | inr miss ↦
      let apart = apart_of_test e.0 s miss in
      rw miss (
        some_readers,
        count-set_count_ne s c e.0 m apart ∙ once,
        set_count-IsCounting s c m pos rest,
      )
]

count-delete_count_self : (s : ℕ) (m : ReaderMap) → IsCounting m → count (delete_count s m) s ≡ 0
unfolding count delete_count
count-delete_count_self s [] h = refl
count-delete_count_self s (e ∷ m) (some_readers, once, rest) = elim (Bool-cases (e.0 == s)) [
  | inl hit ↦ rw hit (subst (λ k. count m k ≡ 0) ((==_iff e.0 s).0 hit) once)
  | inr miss ↦ rw (miss, count, miss) (count-delete_count_self s m rest)
]

count-delete_count_ne : (s t : ℕ) (m : ReaderMap) → s ≢ t → count (delete_count s m) t ≡ count m t
unfolding count delete_count
count-delete_count_ne s t [] apart = refl
count-delete_count_ne s t (e ∷ m) apart = ground (arith, count-delete_count_ne s t m apart)

delete_count-IsCounting : (s : ℕ) (m : ReaderMap) → IsCounting m → IsCounting (delete_count s m)
unfolding delete_count
delete_count-IsCounting s [] h = tt
delete_count-IsCounting s (e ∷ m) (some_readers, once, rest) = elim (Bool-cases (e.0 == s)) [
  | inl hit ↦ rw hit rest
  | inr miss ↦
      let apart = apart_of_test e.0 s miss in
      rw miss
        (some_readers, count-delete_count_ne s e.0 m apart ∙ once, delete_count-IsCounting s m rest)
]

-- The readers that are open, one entry for each: the map counts them.
pub record Represents (m : ReaderMap) (readers : List ℕ) : Type 0 where
  pub counting : IsCounting m
  pub counts : (s : ℕ) → count m s ≡ occurrences s readers

pub register_reader-Represents :
    (s : ℕ) (m : ReaderMap) (rs : List ℕ)
    → Represents m rs
    → Represents (register_reader s m) (s ∷ rs)
unfolding register_reader occurrences
register_reader-Represents s m rs h = record {
  counting = set_count-IsCounting s (count m s + 1) m (omega arith) h.counting;
  counts = λ t. elim (Bool-cases (s == t)) [
    | inl hit ↦
        let at_s = count-set_count_self s (count m s + 1) m in
        subst
          (λ k.
            count (set_count s (count m s + 1) m) k
            ≡ (if s == k then occurrences k rs + 1 else occurrences k rs))
          ((==_iff s t).0 hit) (rw (==_refl s, ← h.counts s) at_s)
    | inr miss ↦
        let apart = apart_of_test s t miss in
        rw miss (count-set_count_ne s (count m s + 1) t m (λ e. apart (sym e)) ∙ h.counts t)
  ];
}

occurrences-close_one_self :
    (s : ℕ) (rs : List ℕ) → occurrences s (close_one s rs) ≡ occurrences s rs - 1
unfolding occurrences close_one
occurrences-close_one_self s [] = omega arith
occurrences-close_one_self s (r ∷ rs) = elim (Bool-cases (r == s)) [
  | inl hit ↦ rw hit (omega arith)
  | inr miss ↦ rw (miss, occurrences, miss) (occurrences-close_one_self s rs)
]

occurrences-close_one_ne :
    (s t : ℕ) (rs : List ℕ) → s ≢ t → occurrences t (close_one s rs) ≡ occurrences t rs
unfolding occurrences close_one
occurrences-close_one_ne s t [] apart = refl
occurrences-close_one_ne s t (r ∷ rs) apart = ground (arith, occurrences-close_one_ne s t rs apart)

pub unregister_reader-Represents :
    (s : ℕ) (m : ReaderMap) (rs : List ℕ)
    → Represents m rs
    → Represents (unregister_reader s m) (close_one s rs)
unfolding unregister_reader
unregister_reader-Represents s m rs h = elim (Bool-cases (leb (count m s) 1)) [
  | inl last ↦ rw last (record {
    counting = delete_count-IsCounting s m h.counting;
    counts = λ t. elim (ℕ_discrete s t) [
      | yes same ↦
          let gone = count-delete_count_self s m h.counting in
          let before = h.counts s in
          let left = occurrences-close_one_self s rs in
          let few : count m s ≤ 1 = ground arith in
          subst (λ k. count (delete_count s m) k ≡ occurrences k (close_one s rs)) same
            (omega (arith, gone, before, left, few))
      | no apart ↦
          count-delete_count_ne s t m apart
          ∙ h.counts t
          ∙ sym (occurrences-close_one_ne s t rs apart)
    ];
  })
  | inr more ↦ rw more (record {
    counting = set_count-IsCounting s (count m s - 1) m (ground arith) h.counting;
    counts = λ t. elim (ℕ_discrete s t) [
      | yes same ↦
          let now = count-set_count_self s (count m s - 1) m in
          let before = h.counts s in
          let left = occurrences-close_one_self s rs in
          subst (λ k. count (set_count s (count m s - 1) m) k ≡ occurrences k (close_one s rs)) same
            (omega (arith, now, before, left))
      | no apart ↦
          count-set_count_ne s (count m s - 1) t m apart
          ∙ h.counts t
          ∙ sym (occurrences-close_one_ne s t rs apart)
    ];
  })
]
