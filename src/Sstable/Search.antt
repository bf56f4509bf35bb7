-- ===== src/Sstable/Search.antt =====
-- internal/sstable/index.go: the first block that may hold a key. `sort.Search` is the binary
-- search of Go's library.
use mathlib.Core.Option.{some-injective}
use hypha_db.Base.{
  ℕ, zero, suc, ◌+◌, ◌-◌, ◌/◌, ◌≤◌, ◌<◌, ◌≡◌, inl, inr, refl, sym, ap, ◌∙◌, subst, Bool, true,
  false, not, Bool-cases, Option, none, some, List, [], ◌∷◌, length, get_elem?, get_elem?-lt,
  get_elem?_inside, All-get_elem?, ltb, ◌==◌, if◌then◌else◌, arith, All, dec_le,
}
use hypha_db.Base.Text.{Text, text_lt, text_le, text_le_trans, text_lt_irrefl}
use hypha_db.Sstable.Index.{IndexEntry}

module _ (test : ℕ → Bool) where
  -- The loop `for i < j` of `sort.Search`, with fuel: the distance `j - i` shrinks in each round.
  unfoldable pub search_loop : ℕ → ℕ → ℕ → ℕ
  search_loop zero i j = i
  search_loop (suc fuel) i j =
      let middle = (i + j) / 2 in
      let upper = search_loop fuel (middle + 1) j in
      let lower = search_loop fuel i middle in
      if ltb i j then (if test middle then lower else upper) else i

  unfoldable pub sort_search : ℕ → ℕ
  sort_search n = search_loop n 0 n

  -- The least index of a monotone test, or `n`.
  pub record IsLeast (n result : ℕ) : Type 0 where
    pub inside : result ≤ n
    pub before : (k : ℕ) → k < result → test k ≡ false
    pub after : (k : ℕ) → result ≤ k → k < n → test k ≡ true

  search_loop-IsLeast :
      (fuel i j n : ℕ)
      → ((a b : ℕ) → a ≤ b → b < n → test a ≡ true → test b ≡ true)
      → j ≤ i + fuel
      → i ≤ j
      → j ≤ n
      → ((k : ℕ) → k < i → test k ≡ false)
      → ((k : ℕ) → j ≤ k → k < n → test k ≡ true)
      → IsLeast n (search_loop fuel i j)
  unfolding search_loop
  search_loop-IsLeast zero i j n mono enough order inside before after = record {
    inside = omega arith;
    before = before;
    after = λ k h l. after k (omega arith) l;
  }
  search_loop-IsLeast (suc fuel) i j n mono enough order inside before after =
      let middle = (i + j) / 2 in
      elim (Bool-cases (ltb i j)) [
        | inl more ↦ elim (Bool-cases (test middle)) [
          | inl above ↦
              rw (more, above)
                (search_loop-IsLeast fuel i middle n mono (ground arith) (ground arith)
                  (ground arith) before (λ k h l. mono middle k h l above))
          | inr below ↦
              rw (more, below)
                (search_loop-IsLeast fuel (middle + 1) j n mono (ground arith) (ground arith) inside
                  (λ k h. elim (Bool-cases (test k)) [
                    | inr early ↦ early
                    | inl late ↦ cc (mono k middle (omega arith) (ground arith) late, below)
                  ])
                  after)
        ]
        | inr done ↦ rw done (record {
          inside = omega arith;
          before = before;
          after = λ k h l. after k (ground arith) l;
        })
      ]

  pub sort_search-IsLeast :
      (n : ℕ)
      → ((a b : ℕ) → a ≤ b → b < n → test a ≡ true → test b ≡ true)
      → IsLeast n (sort_search n)
  unfolding sort_search
  sort_search-IsLeast n mono =
      search_loop-IsLeast n 0 n n mono (omega arith) (omega arith) (omega arith)
        (λ k h. absurd (omega arith)) (λ k h l. absurd (omega arith))

-- `index[i].FirstKey >= key`; the search asks for no index out of range.
abbrev pub not_before : List IndexEntry → Text → ℕ → Bool
not_before index key i = elim (get_elem? index i) [ none ↦ true | some e ↦ text_le key e.first_key ]

-- `none` is the result -1.
unfoldable pub first_possible_block : List IndexEntry → Text → Option ℕ
first_possible_block index key =
    let i = sort_search (not_before index key) (length index) in
    if length index == 0
    then none
    else if i == length index
    then some (length index - 1)
    else if ltb 0 i
    then some (i - 1)
    else some 0

-- The first keys do not go down.
abbrev pub IsSorted : List IndexEntry → Type 0
IsSorted [] = Unit
IsSorted (e ∷ es) = All (λ later. text_le e.first_key later.first_key ≡ true) es × IsSorted es

IsSorted-get_elem? :
    (index : List IndexEntry) (i j : ℕ) (a b : IndexEntry)
    → IsSorted index
    → i ≤ j
    → get_elem? index i ≡ some a
    → get_elem? index j ≡ some b
    → text_lt b.first_key a.first_key ≡ false
IsSorted-get_elem? [] i j a b sorted h found_a found_b = absurd (cc found_a)
IsSorted-get_elem? (e ∷ es) zero zero a b sorted h found_a found_b =
    let same : a ≡ b = sym (some-injective e a found_a) ∙ some-injective e b found_b in
    subst (λ x. text_lt x.first_key a.first_key ≡ false) same (text_lt_irrefl a.first_key)
IsSorted-get_elem? (e ∷ es) zero (suc j) a b sorted h found_a found_b =
    let below = All-get_elem? _ es j b sorted.0 found_b in
    subst (λ x. text_lt b.first_key x.first_key ≡ false) (some-injective e a found_a)
      (ground (arith, below))
IsSorted-get_elem? (e ∷ es) (suc i) zero a b sorted h found_a found_b = absurd (omega arith)
IsSorted-get_elem? (e ∷ es) (suc i) (suc j) a b sorted h found_a found_b =
    IsSorted-get_elem? es i j a b sorted.1 (omega arith) found_a found_b

-- The key may lie in block `b`: the next block, if there is one, does not start before the key.
abbrev pub MayHold : List IndexEntry → Text → ℕ → Type 0
MayHold index key b =
    (b < length index)
    × ((e : IndexEntry) → get_elem? index (b + 1) ≡ some e → text_le key e.first_key ≡ true)

pub record IsFirstPossible (index : List IndexEntry) (key : Text) (block : ℕ) : Type 0 where
  pub inside : block < length index
  pub complete : (b : ℕ) → MayHold index key b → block ≤ b
  pub tight :
      (b : ℕ) (e : IndexEntry)
      → block < b
      → get_elem? index b ≡ some e
      → text_le key e.first_key ≡ true

not_before-IsMonotone :
    (index : List IndexEntry) (key : Text)
    → IsSorted index
    → (a b : ℕ) → a ≤ b
    → b < length index
    → not_before index key a ≡ true
    → not_before index key b ≡ true
not_before-IsMonotone index key sorted a b order inside h =
    let (ea, found_a) = get_elem?-lt index a (omega arith) in
    let (eb, found_b) = get_elem?-lt index b inside in
    let low : text_le key ea.first_key ≡ true = rw (not_before, found_a) at h in
    let low' : text_lt ea.first_key key ≡ false = ground arith in
    let up' = IsSorted-get_elem? index a b ea eb sorted order found_a found_b in
    let both = text_le_trans key ea.first_key eb.first_key low' up' in
    rw (not_before, found_b) (ap not both)

module _ (index : List IndexEntry) (key : Text) where
  before_search :
      (i b : ℕ)
      → IsLeast (not_before index key) (length index) i
      → b + 1 < i
      → MayHold index key b
      → {P : Type 0} → P
  before_search i b least h (inside, next) {P} =
      let (e, found) = get_elem?-lt index (b + 1) (let top = least.inside in omega arith) in
      let early = least.before (b + 1) h in
      let stays = next e found in absurd (cc (rw (not_before, found) at early, stays))

  after_search :
      (i b : ℕ) (e : IndexEntry)
      → IsLeast (not_before index key) (length index) i
      → i ≤ b
      → get_elem? index b ≡ some e
      → text_le key e.first_key ≡ true
  after_search i b e least h found =
      let late = least.after b h (get_elem?_inside index b e found) in
      rw (not_before, found) at late

  least-IsFirstPossible :
      (i block : ℕ)
      → IsLeast (not_before index key) (length index) i
      → block < length index
      → block ≤ i - 1
      → i ≤ block + 1
      → IsFirstPossible index key block
  least-IsFirstPossible i block least inside low high = record {
    inside = inside;
    complete = λ b may_hold. elim (dec_le block b) [
      | yes kept ↦ kept
      | no skipped ↦ before_search i b least (omega arith) may_hold
    ];
    tight = λ b e after found. after_search i b e least (omega arith) found;
  }

  -- In a sorted index that is not empty, `firstPossibleBlock` finds a block: no earlier one can
  -- hold the key, and every later one starts at the key or after it.
  pub first_possible_block-IsFirstPossible :
      IsSorted index
      → 0 < length index
      → (block : ℕ) × (first_possible_block index key ≡ some block)
        × IsFirstPossible index key block
  unfolding first_possible_block
  first_possible_block-IsFirstPossible sorted some_blocks =
      let i = sort_search (not_before index key) (length index) in
      let least =
        sort_search-IsLeast (not_before index key) (length index)
          (not_before-IsMonotone index key sorted) in
      let filled : (length index == 0) ≡ false = ground arith in
      elim (Bool-cases (i == length index)) [
        | inl past_end ↦ (
          length index - 1,
          rw (filled, past_end) refl,
          least-IsFirstPossible i (length index - 1) least (omega arith) (ground arith)
              (ground arith),
        )
        | inr found ↦ elim (Bool-cases (ltb 0 i)) [
          | inl later ↦ (
            i - 1,
            rw (filled, found, later) refl,
            least-IsFirstPossible i (i - 1) least (let top = least.inside in ground arith)
                (omega arith) (ground arith),
          )
          | inr first ↦ (
            0,
            rw (filled, found, first) refl,
            least-IsFirstPossible i 0 least some_blocks (omega arith) (ground arith),
          )
        ]
      ]
