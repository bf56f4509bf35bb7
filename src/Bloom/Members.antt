-- ===== src/Bloom/Members.antt =====
-- A Bloom filter has no false negatives.
use hypha_db.Base.{
  ℕ, zero, suc, ◌+◌, ◌*◌, ◌/◌, ◌%◌, ◌^◌, ◌≤◌, ◌<◌, ◌≡◌, inl, inr, refl, ◌∙◌, subst, Bool, true,
  false, Option, none, some, Bool-cases, List, [], ◌∷◌, length, length-replicate, replicate, ◌==◌,
  arith, All, ok, leb, ok-injective,
}
use hypha_db.Base.Bytes.{IsByte}
use hypha_db.Base.Text.{Text}
use hypha_db.Bloom.{
  Filter, is_clear, probe_bit, next_position, next_increment, add_loop, may_contain_loop, hash_pair,
  add, may_contain, clamp_hashes, new,
}
use hypha_db.Bloom.Bits.{
  set_bit-IsByte, length-set_bit, is_clear-set_bit_self, is_clear-set_bit, set_bit_total,
}

pub record IsWellFormed (f : Filter) : Type 0 where
  pub whole_bytes : f.bit_count ≡ length f.bits * 8
  pub not_empty : 0 < f.bit_count
  pub bytes : All IsByte f.bits

-- Every bit that the first set has, the second has.
abbrev pub Grows : List ℕ → List ℕ → Type 0
Grows bits bits' = (m : ℕ) → is_clear m bits ≡ some false → is_clear m bits' ≡ some false

probe_bit_nonzero : (p c : ℕ) → 0 < c → probe_bit p c ≡ some (p % c)
unfolding probe_bit
probe_bit_nonzero p c h = ground arith

may_contain_loop-Grows :
    (left i p q c : ℕ) (bits bits' : List ℕ)
    → 0 < c
    → Grows bits bits'
    → may_contain_loop left i p q c bits ≡ some true
    → may_contain_loop left i p q c bits' ≡ some true
unfolding may_contain_loop
may_contain_loop-Grows zero i p q c bits bits' pos grows h = refl
may_contain_loop-Grows (suc left) i p q c bits bits' pos grows h = ground (
  arith,
  probe_bit_nonzero p c pos,
  grows (p % c),
  may_contain_loop-Grows left (i + 1) (next_position p q) (next_increment q i) c bits bits' pos
      grows,
)

index_inside : (p c n : ℕ) → 0 < c → c ≡ n * 8 → p % c / 8 < n
index_inside p c n pos size = let below : p % c < c = grind arith in omega (arith, below, size)

-- What a run of the loop of `Add` gives.
record Added (left i p q c : ℕ) (bits : List ℕ) : Type 0 where
  pub result : List ℕ
  pub run : add_loop left i p q c bits ≡ some result
  pub bytes : All IsByte result
  pub same_length : length result ≡ length bits
  pub grows : Grows bits result
  pub found : may_contain_loop left i p q c result ≡ some true

add_loop-Added :
    (left i p q c : ℕ) (bits : List ℕ)
    → 0 < c
    → c ≡ length bits * 8
    → All IsByte bits
    → Added left i p q c bits
unfolding add_loop may_contain_loop
add_loop-Added zero i p q c bits pos size bytes = record {
  result = bits;
  run = refl;
  bytes = bytes;
  same_length = refl;
  grows = λ m h. h;
  found = refl;
}
add_loop-Added (suc left) i p q c bits pos size bytes =
    let inside : p % c / 8 < length bits = index_inside p c (length bits) pos size in
    let (bits1, wrote) = set_bit_total (p % c) bits inside in
    let bytes1 = set_bit-IsByte (p % c) bits bits1 bytes wrote in
    let same1 = length-set_bit (p % c) bits bits1 bytes wrote in
    let rest =
      add_loop-Added left (i + 1) (next_position p q) (next_increment q i) c bits1 pos
        (omega (arith, size, same1)) bytes1 in
    let self = rest.grows (p % c) (is_clear-set_bit_self (p % c) bits bits1 bytes wrote) in
    record {
      result = rest.result;
      run = rw (probe_bit_nonzero p c pos, add_loop, wrote) rest.run;
      bytes = rest.bytes;
      same_length = rest.same_length ∙ same1;
      grows = λ m h. rest.grows m (is_clear-set_bit (p % c) bits bits1 bytes wrote m h);
      found = rw (probe_bit_nonzero p c pos, may_contain_loop, self) rest.found;
    }

module _ (hash128 : Text → ℕ × ℕ) where
  -- What `Add` does to a well-formed filter.
  pub record AddOutcome (key : Text) (f : Filter) : Type 0 where
    pub after : Filter
    pub run : add hash128 key f ≡ some after
    pub well_formed : IsWellFormed after
    pub same_hash_count : after.hash_count ≡ f.hash_count
    pub member : may_contain hash128 key (some after) ≡ some true
    pub others :
        (other : Text)
        → may_contain hash128 other (some f) ≡ some true
        → may_contain hash128 other (some after) ≡ some true

  may_contain-Grows :
      (key : Text) (f g : Filter)
      → IsWellFormed f
      → g.bit_count ≡ f.bit_count
      → g.hash_count ≡ f.hash_count
      → Grows f.bits g.bits
      → may_contain hash128 key (some f) ≡ some true
      → may_contain hash128 key (some g) ≡ some true
  unfolding may_contain
  may_contain-Grows key f g wf same_bits same_hashes grows h =
      let (h1, h2) = hash_pair hash128 key in
      let pos = wf.not_empty in
      let nonzero : (f.bit_count == 0) ≡ false = ground arith in
      let before = rw nonzero at h in
      rw (same_bits, same_hashes, nonzero)
        (may_contain_loop-Grows f.hash_count 0 h1 h2 f.bit_count f.bits g.bits pos grows before)

  -- `Add` on a well-formed filter does not panic and leaves it well-formed; the filter may contain
  -- the added key then, and every key that it may have contained before.
  pub add_lem : (key : Text) (f : Filter) → IsWellFormed f → AddOutcome key f
  unfolding add may_contain
  add_lem key f wf =
      let (h1, h2) = hash_pair hash128 key in
      let a =
        add_loop-Added f.hash_count 0 h1 h2 f.bit_count f.bits wf.not_empty wf.whole_bytes
          wf.bytes in
      let pos = wf.not_empty in
      let nonzero : (f.bit_count == 0) ≡ false = ground arith in
      record {
        after = record f { bits = a.result };
        run = rw (a.run, add) refl;
        well_formed = record {
          whole_bytes = omega (arith, wf.whole_bytes, a.same_length);
          not_empty = wf.not_empty;
          bytes = a.bytes;
        };
        same_hash_count = refl;
        member = rw nonzero a.found;
        others = λ other h.
            may_contain-Grows other f (record f { bits = a.result }) wf refl refl a.grows h;
      }

  -- The loop of `writer.go` that adds every key of a table.
  unfoldable pub add_all : List Text → Filter → Option Filter
  add_all [] f = some f
  add_all (key ∷ keys) f = elim (add hash128 key f) [ none ↦ none | some g ↦ add_all keys g ]

  abbrev pub AllFound : List Text → Filter → Type 0
  AllFound keys f = All (λ key. may_contain hash128 key (some f) ≡ some true) keys

  add_all_keep :
      (keys : List Text) (f : Filter)
      → IsWellFormed f
      → (g : Filter) × (add_all keys f ≡ some g)
        × IsWellFormed g
        × AllFound keys g
        × ((other : Text)
            → may_contain hash128 other (some f) ≡ some true
            → may_contain hash128 other (some g) ≡ some true)
  unfolding add_all
  add_all_keep [] f wf = (f, refl, wf, tt, λ other h. h)
  add_all_keep (key ∷ keys) f wf =
      let a = add_lem key f wf in
      let (g, run, good, found, keep) = add_all_keep keys a.after a.well_formed in
      (
        g,
        rw (a.run, add_all) run,
        good,
        (keep key a.member, found),
        λ other h. keep other (a.others other h),
      )

  -- A well-formed filter takes any list of keys without a panic and stays well formed, and
  -- `MayContain` answers yes for each of them afterwards.
  pub add_all-AllFound :
      (keys : List Text) (f : Filter)
      → IsWellFormed f
      → (g : Filter) × (add_all keys f ≡ some g) × IsWellFormed g × AllFound keys g
  add_all-AllFound keys f wf =
      let (g, run, good, found, keep) = add_all_keep keys f wf in (g, run, good, found)

clamp_hashes_bounds : (n : ℕ) → (1 ≤ clamp_hashes n) × (clamp_hashes n ≤ 30)
unfolding clamp_hashes
clamp_hashes_bounds n = (ground arith, ground arith)

module _ {Rate : Type 0} (in_unit : Rate → Bool) (optimal_bits : ℕ → Rate → ℕ)
    (optimal_hashes : ℕ → ℕ → ℕ) where
  zeros-IsByte : (n : ℕ) → All IsByte (replicate n 0)
  zeros-IsByte zero = tt
  zeros-IsByte (suc n) = (omega arith, zeros-IsByte n)

  zeroed-IsWellFormed :
      (n hashes : ℕ)
      → 0 < n
      → n < 2 ^ 61
      → IsWellFormed
          (record { bits = replicate n 0; bit_count = n * 8 % 2 ^ 64; hash_count = hashes })
  zeroed-IsWellFormed n hashes pos small = record {
    whole_bytes = omega (arith, length-replicate {A = ℕ} n 0);
    not_empty = omega arith;
    bytes = zeros-IsByte n;
  }

  -- A filter that `New` returns is well-formed and has 1 to 30 hash functions, when the rounded bit
  -- count is positive and below 2^63.
  pub new-IsWellFormed :
      (n : ℕ) (rate : Rate) (f : Filter)
      → 0 < optimal_bits n rate
      → optimal_bits n rate < 2 ^ 63
      → new in_unit optimal_bits optimal_hashes n rate ≡ ok f
      → IsWellFormed f × (1 ≤ f.hash_count) × (f.hash_count ≤ 30)
  unfolding new
  new-IsWellFormed n rate f pos small e =
      let bytes_positive : 0 < (optimal_bits n rate + 7) % 2 ^ 64 / 8 = omega arith in
      let bytes_small : (optimal_bits n rate + 7) % 2 ^ 64 / 8 < 2 ^ 61 = omega arith in
      let hashes = optimal_hashes (optimal_bits n rate) n in
      let bounds = clamp_hashes_bounds hashes in
      elim (Bool-cases (leb n 0)) [
        | inl no_items ↦ absurd (cc (rw no_items at e))
        | inr items ↦ elim (Bool-cases (in_unit rate)) [
          | inl inside ↦
              subst (λ g. IsWellFormed g × (1 ≤ g.hash_count) × (g.hash_count ≤ 30))
                (ok-injective (rw (items, inside) at e))
                (zeroed-IsWellFormed _ _ bytes_positive bytes_small, bounds.0, bounds.1)
          | inr outside ↦ absurd (cc (rw (items, outside) at e))
        ]
      ]
