-- ===== src/Db/Batches.antt =====
-- internal/db/batch.go: building a batch within its limits.
use hypha_db.Base.{
  ℕ, ◌+◌, ◌≤◌, ◌<◌, ◌≡◌, ◌↔◌, refl, sym, ap, ◌∙◌, subst, Bool, true, false, List, [], ◌∷◌, ◌++◌,
  length, length-append, ltb, leb, arith, All, All-append, Result, ok, fail_if, ◌>>=◌, ◌>>◌,
  fail_if-elim, >>=-elim, ok-injective,
}
use hypha_db.Base.Text.{Text}

pub record BatchOperation : Type 0 where
  pub key : Text
  pub value : List ℕ
  pub deleted : Bool

-- `LimitsOptions` once `normalizeLimits` has accepted it: all positive.
pub record Limits : Type 0 where
  pub max_key_bytes : ℕ
  pub max_value_bytes : ℕ
  pub max_batch_operations : ℕ
  pub max_batch_bytes : ℕ

pub record Batch : Type 0 where
  pub operations : List BatchOperation
  pub size_bytes : ℕ
  pub closed : Bool

pub data BatchError : Type 0 where
  batch_closed key_too_large value_too_large batch_too_large : BatchError

abbrev pub new_batch : Batch
new_batch = record { operations = []; size_bytes = 0; closed = false }

module _ (limits : Limits) where
  unfoldable pub validate_key : Text → Result BatchError Unit
  validate_key key = fail_if (ltb limits.max_key_bytes (length key)) key_too_large

  unfoldable pub validate_value : List ℕ → Result BatchError Unit
  validate_value value = fail_if (ltb limits.max_value_bytes (length value)) value_too_large

  -- The new `sizeBytes`. `size > max - sizeBytes` on signed integers is `size + sizeBytes > max`.
  unfoldable pub reserve_operation : ℕ → Batch → Result BatchError ℕ
  reserve_operation size b = do
    fail_if (leb limits.max_batch_operations (length b.operations)) batch_too_large
    fail_if (ltb limits.max_batch_bytes (size + b.size_bytes)) batch_too_large
    ok (b.size_bytes + size)

  -- `Batch.Put` and `Batch.Delete`: the batch is changed only where they succeed.
  unfoldable pub batch_put : Text → List ℕ → Batch → Result BatchError Batch
  batch_put key value b = do
    fail_if b.closed batch_closed
    validate_key key
    validate_value value
    size ← reserve_operation (length key + length value) b
    ok (record b {
      operations = b.operations ++ (record { key = key; value = value; deleted = false } ∷ []);
      size_bytes = size;
    })

  unfoldable pub batch_delete : Text → Batch → Result BatchError Batch
  batch_delete key b = do
    fail_if b.closed batch_closed
    validate_key key
    size ← reserve_operation (length key) b
    ok (record b {
      operations = b.operations ++ (record { key = key; value = []; deleted = true } ∷ []);
      size_bytes = size;
    })

  unfoldable pub total_bytes : List BatchOperation → ℕ
  total_bytes [] = 0
  total_bytes (op ∷ ops) = length op.key + length op.value + total_bytes ops

  abbrev pub OpFits : BatchOperation → Type 0
  OpFits op = (length op.key ≤ limits.max_key_bytes) × (length op.value ≤ limits.max_value_bytes)

  -- What the limits promise of a batch.
  pub record IsWithinLimits (b : Batch) : Type 0 where
    pub few : length b.operations ≤ limits.max_batch_operations
    pub small : b.size_bytes ≤ limits.max_batch_bytes
    pub size : b.size_bytes ≡ total_bytes b.operations
    pub fit : All OpFits b.operations

  total_bytes-append :
      (xs ys : List BatchOperation) → total_bytes (xs ++ ys) ≡ total_bytes xs + total_bytes ys
  unfolding total_bytes
  total_bytes-append [] ys = omega arith
  total_bytes-append (x ∷ xs) ys = omega (arith, total_bytes-append xs ys)

  -- An open batch with room for one operation of that size, and a key and a value in the limits.
  pub record Accepts (key : Text) (value : List ℕ) (b : Batch) : Type 0 where
    pub unclosed : b.closed ≡ false
    pub key_fits : length key ≤ limits.max_key_bytes
    pub value_fits : length value ≤ limits.max_value_bytes
    pub room : length b.operations < limits.max_batch_operations
    pub space : length key + length value + b.size_bytes ≤ limits.max_batch_bytes

  abbrev pub with_operation : BatchOperation → Batch → Batch
  with_operation op b = record b {
    operations = b.operations ++ (op ∷ []);
    size_bytes = b.size_bytes + (length op.key + length op.value);
  }

  with_operation-IsWithinLimits :
      (op : BatchOperation) (b : Batch)
      → IsWithinLimits b
      → OpFits op
      → length b.operations < limits.max_batch_operations
      → length op.key + length op.value + b.size_bytes ≤ limits.max_batch_bytes
      → IsWithinLimits (with_operation op b)
  unfolding total_bytes
  with_operation-IsWithinLimits op b h fits room space = record {
    few = omega (arith, length-append b.operations (op ∷ []), room);
    small = omega (arith, space);
    size = omega (arith, total_bytes-append b.operations (op ∷ []), h.size);
    fit = All-append OpFits b.operations (op ∷ []) h.fit (fits, tt);
  }

  reserve_operation-eq-ok :
      (size : ℕ) (b : Batch) (after : ℕ)
      → reserve_operation size b ≡ ok after
      → (length b.operations < limits.max_batch_operations)
        × (size + b.size_bytes ≤ limits.max_batch_bytes)
        × (after ≡ b.size_bytes + size)
  unfolding reserve_operation
  reserve_operation-eq-ok size b after h =
      fail_if-elim (leb limits.max_batch_operations (length b.operations)) _ _ h λ room h1.
        fail_if-elim (ltb limits.max_batch_bytes (size + b.size_bytes)) _ _ h1
          λ space h2. (ground arith, ground arith, sym (ok-injective h2))

  batch_put-eq-ok :
      (key : Text) (value : List ℕ) (b b' : Batch)
      → batch_put key value b ≡ ok b'
      → Accepts key value b
        × (b' ≡ with_operation (record { key = key; value = value; deleted = false }) b)
  unfolding batch_put validate_key validate_value
  batch_put-eq-ok key value b b' h = fail_if-elim b.closed _ _ h λ unclosed h1.
      fail_if-elim (ltb limits.max_key_bytes (length key)) _ _ h1 λ key_fits h2.
        fail_if-elim (ltb limits.max_value_bytes (length value)) _ _ h2 λ value_fits h3.
          >>=-elim (reserve_operation (length key + length value) b) _ h3 λ after reserved h4.
            let (room, space, size) = reserve_operation-eq-ok _ b after reserved in
            (
              record {
                unclosed = unclosed;
                key_fits = ground arith;
                value_fits = ground arith;
                room = room;
                space = space;
              },
              sym (ok-injective h4)
                  ∙ ap
                      (λ n. record b {
                        operations =
                            b.operations
                            ++ (record { key = key; value = value; deleted = false } ∷ []);
                        size_bytes = n;
                      })
                      size,
            )

  -- `Put` keeps a batch within its limits. It succeeds exactly on an open batch with room for one
  -- operation of that size, when the key and the value are within their limits, and then it adds
  -- the operation at the end.
  pub batch_put-IsWithinLimits :
      (key : Text) (value : List ℕ) (b : Batch)
      → IsWithinLimits b
      → ((b' : Batch)
          → batch_put key value b ≡ ok b'
          → IsWithinLimits b'
            × (b'.operations
                ≡ b.operations ++ (record { key = key; value = value; deleted = false } ∷ [])))
        × (((b' : Batch) × (batch_put key value b ≡ ok b')) ↔ Accepts key value b)
  unfolding batch_put validate_key validate_value reserve_operation
  batch_put-IsWithinLimits key value b h = (
    λ b' e.
        let (accepts, same) = batch_put-eq-ok key value b b' e in
        let op : BatchOperation = record { key = key; value = value; deleted = false } in
        (
          subst IsWithinLimits (sym same) (
              with_operation-IsWithinLimits op b h (accepts.key_fits, accepts.value_fits)
                accepts.room accepts.space),
          ap (λ x. x.operations) same,
        ),
    (
      λ e. (batch_put-eq-ok key value b e.0 e.1).0,
      λ a.
          let t1 : ltb limits.max_key_bytes (length key) ≡ false =
            let x = a.key_fits in ground arith in
          let t2 : ltb limits.max_value_bytes (length value) ≡ false =
            let x = a.value_fits in ground arith in
          let t3 : leb limits.max_batch_operations (length b.operations) ≡ false =
            let x = a.room in ground arith in
          let t4 : ltb limits.max_batch_bytes (length key + length value + b.size_bytes) ≡ false =
            let x = a.space in ground arith in
          (
            with_operation (record { key = key; value = value; deleted = false }) b,
            rw (a.unclosed, t1, t2, t3, t4) refl,
          ),
    ),
  )

  batch_delete-eq-ok :
      (key : Text) (b b' : Batch)
      → batch_delete key b ≡ ok b'
      → Accepts key [] b
        × (b' ≡ with_operation (record { key = key; value = []; deleted = true }) b)
  unfolding batch_delete validate_key
  batch_delete-eq-ok key b b' h = fail_if-elim b.closed _ _ h λ unclosed h1.
      fail_if-elim (ltb limits.max_key_bytes (length key)) _ _ h1 λ key_fits h2.
        >>=-elim (reserve_operation (length key) b) _ h2 λ after reserved h3.
          let (room, space, size) = reserve_operation-eq-ok _ b after reserved in
          let size' : after ≡ b.size_bytes + (length key + 0) = omega (arith, size) in
          (
            record {
              unclosed = unclosed;
              key_fits = ground arith;
              value_fits = omega arith;
              room = room;
              space = omega (arith, space);
            },
            sym (ok-injective h3)
                ∙ ap
                    (λ n. record b {
                      operations =
                          b.operations ++ (record { key = key; value = []; deleted = true } ∷ []);
                      size_bytes = n;
                    })
                    size',
          )

  -- `Delete` keeps a batch within its limits, and adds a tombstone of the key at the end.
  pub batch_delete-IsWithinLimits :
      (key : Text) (b b' : Batch)
      → IsWithinLimits b
      → batch_delete key b ≡ ok b'
      → IsWithinLimits b'
        × (b'.operations ≡ b.operations ++ (record { key = key; value = []; deleted = true } ∷ []))
  batch_delete-IsWithinLimits key b b' h e =
      let (accepts, same) = batch_delete-eq-ok key b b' e in
      let op : BatchOperation = record { key = key; value = []; deleted = true } in
      (
        subst IsWithinLimits (sym same) (
            with_operation-IsWithinLimits op b h (accepts.key_fits, accepts.value_fits) accepts.room
              accepts.space),
        ap (λ x. x.operations) same,
      )
