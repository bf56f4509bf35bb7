-- ===== src/Bloom/Bits.antt =====
-- Single bits of a bitset: setting one shows it set, and clears no other.
use Prim.Native.Nat.{bit_and, bit_or}
use hypha_db.Base.{
  ℕ, ◌/◌, ◌%◌, ◌^◌, ◌<◌, ◌≡◌, refl, sym, ap, ◌∙◌, subst, true, false, not, ◌&&◌, ◌||◌, some, List,
  length, length-set, get_elem?, get_elem?-lt, get_elem?-set_self, get_elem?-set_ne, set, ltb, ◌==◌,
  arith, All, All-get_elem?, All-set, ℕ_discrete, Option-cases, inl, inr,
}
use hypha_db.Base.Bytes.{IsByte}
use hypha_db.Base.Fields.{table, table_entry}
use mathlib.Core.Option.{some-injective}
use hypha_db.Bloom.{set_bit, is_clear}

-- For every byte and two of its eight bits.
or_tables :
    table
      (λ k.
        table
          (λ j.
            table
              (λ b.
                ltb (bit_or b (2 ^ k)) 256
                && (not (bit_and (bit_or b (2 ^ k)) (2 ^ k) == 0)
                    && (bit_and b (2 ^ j) == 0 || not (bit_and (bit_or b (2 ^ k)) (2 ^ j) == 0))))
              256)
          8)
      8
    ≡ true
unfolding table
or_tables = refl

or_byte :
    (b k j : ℕ)
    → b < 256
    → k < 8
    → j < 8
    → (bit_or b (2 ^ k) < 256)
      × ((bit_and (bit_or b (2 ^ k)) (2 ^ k) == 0) ≡ false)
      × ((bit_and b (2 ^ j) == 0) ≡ false → (bit_and (bit_or b (2 ^ k)) (2 ^ j) == 0) ≡ false)
or_byte b k j hb hk hj =
    let row =
      table_entry _ 256 (table_entry _ 8 (table_entry _ 8 or_tables {i = k} hk) {i = j} hj) {i = b}
        hb in
    (ground (arith, row), ground (arith, row), λ h. ground (arith, row, h))

-- What a successful `set_bit` has read and written.
set_bit-eq-some :
    (n : ℕ) (bits bits' : List ℕ)
    → set_bit n bits ≡ some bits'
    → (b : ℕ) × (get_elem? bits (n / 8) ≡ some b)
      × (bits' ≡ set bits (n / 8) (bit_or b (2 ^ (n % 8))))
unfolding set_bit
set_bit-eq-some n bits bits' e = elim (Option-cases (get_elem? bits (n / 8))) [
  | inl missing ↦ absurd (cc (rw (missing, set_bit) at e))
  | inr (b, found) ↦ (b, found, sym (some-injective _ _ (rw (found, set_bit) at e)))
]

module _ (n : ℕ) (bits bits' : List ℕ) (bytes : All IsByte bits)
    (wrote : set_bit n bits ≡ some bits') where
  pub set_bit-IsByte : All IsByte bits'
  set_bit-IsByte =
      let (b, found, same) = set_bit-eq-some n bits bits' wrote in
      let byte = All-get_elem? IsByte bits (n / 8) b bytes found in
      subst (All IsByte) (sym same) (
        All-set IsByte bits (n / 8) _ bytes
          (or_byte b (n % 8) 0 byte (omega arith) (omega arith)).0)

  pub length-set_bit : length bits' ≡ length bits
  length-set_bit =
      let (b, found, same) = set_bit-eq-some n bits bits' wrote in
      ap length same ∙ length-set bits (n / 8) _

  -- The bit that was set is not clear.
  pub is_clear-set_bit_self : is_clear n bits' ≡ some false
  unfolding is_clear
  is_clear-set_bit_self =
      let (b, found, same) = set_bit-eq-some n bits bits' wrote in
      let byte = All-get_elem? IsByte bits (n / 8) b bytes found in
      rw
        (
          same,
          get_elem?-set_self bits (n / 8) b (bit_or b (2 ^ (n % 8))) found,
          is_clear,
          (or_byte b (n % 8) 0 byte (omega arith) (omega arith)).1,
        )
        refl

  -- A bit that was not clear stays so.
  pub is_clear-set_bit : (m : ℕ) → is_clear m bits ≡ some false → is_clear m bits' ≡ some false
  unfolding is_clear
  is_clear-set_bit m h =
      let (b, found, same) = set_bit-eq-some n bits bits' wrote in
      let byte = All-get_elem? IsByte bits (n / 8) b bytes found in
      elim (ℕ_discrete (n / 8) (m / 8)) [
        | yes together ↦
            let was : (bit_and b (2 ^ (m % 8)) == 0) ≡ false =
              some-injective _ _ (rw (← together, found, is_clear) at h) in
            rw
              (
                same,
                ← together,
                get_elem?-set_self bits (n / 8) b (bit_or b (2 ^ (n % 8))) found,
                is_clear,
                (or_byte b (n % 8) (m % 8) byte (omega arith) (omega arith)).2 was,
              )
              refl
        | no apart ↦ rw (same, get_elem?-set_ne bits (n / 8) (m / 8) _ apart, is_clear) h
      ]

pub set_bit_total :
    (n : ℕ) (bits : List ℕ) → n / 8 < length bits → (bits' : List ℕ) × (set_bit n bits ≡ some bits')
unfolding set_bit
set_bit_total n bits h =
    let (b, found) = get_elem?-lt bits (n / 8) h in
    (set bits (n / 8) (bit_or b (2 ^ (n % 8))), rw (found, set_bit) refl)
