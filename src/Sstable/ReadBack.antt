-- ===== src/Sstable/ReadBack.antt =====
-- What `flushBlock` makes of a block is decoded to its records.
use native.Mathlib.Nat.{add-mul-div_right, div-eq_of_lt, add-mul}
use hypha_db.Base.{
  ℕ, suc, ◌+◌, ◌-◌, ◌*◌, ◌/◌, ◌^◌, ◌≤◌, ◌<◌, ◌≡◌, refl, sym, ap, ◌∙◌, subst, true, false, none,
  List, [], ◌∷◌, ◌++◌, map, length, take, drop, slice, ltb, ◌==◌, arith, ok, All, All-map,
  append_assoc, length-append, ge→ltb, lt→ltb, ==_iff,
}
use hypha_db.Base.Bytes.{put_le, get_le, get_le-put_le, length-put_le}
use hypha_db.Record.{Record, encoded_size, encode_binary}
use hypha_db.Record.RoundTrip.{IsEncodable, plain, length-encode_binary}
use hypha_db.Sstable.Cursor.{
  Cursor, new_cursor_for_version, restarts_of_version, read_restarts, expected_restarts,
  check_restarts, decode_logical_block,
}
use hypha_db.Sstable.Writer.{Building, logical_bytes, words}
use hypha_db.Sstable.Logical.{encode_all, finished-read_records}
use hypha_db.Sstable.Footer.{current_format_version}
use hypha_db.Sstable.Restarts.{length-words, drop_at, take_at, check_restarts_pass}
use hypha_db.Sstable.Built.{IsBuilt}

encode_all_long : (rs : List Record) → 17 * length rs ≤ length (encode_all rs)
unfolding encode_all encoded_size
encode_all_long [] = omega arith
encode_all_long (r ∷ rs) = omega (
  arith,
  length-append (encode_binary r) (encode_all rs),
  length-encode_binary r,
  encode_all_long rs,
)

-- The four parts of a block: count and records, restarts, interval, number of restarts.
module _ (front restarts interval count : List ℕ) where
  abbrev block : List ℕ
  block = front ++ (restarts ++ (interval ++ count))

  block_end : (n : ℕ) → n ≡ length front + length restarts + length interval → drop n block ≡ count
  block_end n e =
      let whole : block ≡ (front ++ (restarts ++ interval)) ++ count = sym (
        append_assoc front (restarts ++ interval) count
        ∙ ap (λ l. front ++ l) (append_assoc restarts interval count)) in
      ap (drop n) whole
      ∙ drop_at n (front ++ (restarts ++ interval)) count (
          omega
            (arith, e, length-append front (restarts ++ interval), length-append restarts interval))

  block_interval :
      (lo hi : ℕ)
      → lo ≡ length front + length restarts
      → hi ≡ lo + length interval
      → slice lo hi block ≡ interval
  block_interval lo hi e e' =
      let whole : block ≡ (front ++ restarts) ++ (interval ++ count) =
        sym (append_assoc front restarts (interval ++ count)) in
      ap (λ l. take (hi - lo) (drop lo l)) whole
      ∙ (ap (take (hi - lo)) (
            drop_at lo (front ++ restarts) (interval ++ count)
              (omega (arith, e, length-append front restarts)))
          ∙ take_at (hi - lo) interval count (omega arith))

  block_restarts :
      (lo hi : ℕ) → lo ≡ length front → hi ≡ lo + length restarts → slice lo hi block ≡ restarts
  block_restarts lo hi e e' =
      ap (take (hi - lo)) (drop_at lo front (restarts ++ (interval ++ count)) e)
      ∙ take_at (hi - lo) restarts (interval ++ count) (omega arith)

expected_restarts-grouped :
    (interval groups last : ℕ)
    → 0 < last
    → last ≤ interval
    → expected_restarts (last + groups * interval) interval ≡ groups + 1
unfolding expected_restarts
expected_restarts-grouped interval groups last some_last fits =
    let some_records : ltb 0 (last + groups * interval) ≡ true = lt→ltb _ _ (omega arith) in
    let next = add-mul groups 1 interval in
    let rounded : last + groups * interval + interval - 1 ≡ (last - 1) + (groups + 1) * interval =
      omega (arith, next) in
    let small : (last - 1) / interval ≡ 0 =
      div-eq_of_lt {n = last - 1} {m = interval} (omega arith) in
    let zero_left : 0 + (groups + 1) ≡ groups + 1 = omega arith in
    rw some_records (
      ap (λ n. n / interval) rounded
      ∙ (add-mul-div_right (last - 1) (groups + 1) {z = interval} (omega arith)
          ∙ (ap (λ n. n + (groups + 1)) small ∙ zero_left)))

module _ (interval : ℕ) (b : Building) (rs : List Record) (built : IsBuilt interval b rs)
    (some_interval : 0 < interval) (interval_fits : interval < 2 ^ 32)
    (size_fits : length (logical_bytes interval b) < 2 ^ 32) where
  abbrev front : List ℕ
  front = put_le 4 b.record_count ++ encode_all rs

  abbrev bytes : List ℕ
  bytes = block front (words b.restarts) (put_le 4 interval) (put_le 4 (length b.restarts))

  logical_bytes-block : logical_bytes interval b ≡ bytes
  unfolding logical_bytes
  logical_bytes-block =
      ap
        (λ l.
          put_le 4 b.record_count
          ++ (drop 4 l
              ++ (words b.restarts ++ (put_le 4 interval ++ put_le 4 (length b.restarts)))))
        built.bytes
      ∙ sym (
          append_assoc (put_le 4 b.record_count) (encode_all rs)
            (words b.restarts ++ (put_le 4 interval ++ put_le 4 (length b.restarts))))

  -- The lengths of the parts.
  record Sizes : Type 0 where
    whole : length bytes ≡ length front + (length b.restarts * 4 + 8)
    front_size : length front ≡ 4 + length (encode_all rs)
    restarts_size : length (words b.restarts) ≡ length b.restarts * 4
    count_fits : b.record_count < 2 ^ 32
    restarts_fit : length b.restarts < 2 ^ 32
    small : length bytes < 2 ^ 32

  sizes : Sizes
  sizes =
      let n = length-put_le 4 b.record_count in
      let k = length-put_le 4 interval in
      let m = length-put_le 4 (length b.restarts) in
      let w = length-words b.restarts in
      let f = length-append (put_le 4 b.record_count) (encode_all rs) in
      let a1 = length-append (put_le 4 interval) (put_le 4 (length b.restarts)) in
      let a2 =
        length-append (words b.restarts) (put_le 4 interval ++ put_le 4 (length b.restarts)) in
      let a3 =
        length-append front
          (words b.restarts ++ (put_le 4 interval ++ put_le 4 (length b.restarts))) in
      let long = encode_all_long rs in
      let counted = built.count in
      let same : length (logical_bytes interval b) ≡ length bytes =
        ap (λ l. length l) logical_bytes-block in
      let whole : length bytes ≡ length front + (length b.restarts * 4 + 8) =
        omega (arith, k, m, w, a1, a2, a3) in
      record {
        whole = whole;
        front_size = omega (arith, n, f);
        restarts_size = w;
        count_fits = omega (arith, n, f, whole, long, counted, same, size_fits);
        restarts_fit = omega (arith, whole, same, size_fits);
        small = omega (arith, same, size_fits);
      }

  restarts_length : length b.restarts ≡ built.groups + 1
  restarts_length =
      let count = built.restart_count in
      let same : length b.restarts ≡ suc (length built.later_restarts) =
        ap (λ l. length l) built.restarts in
      omega (arith, count, same)

  expected_groups : expected_restarts b.record_count interval ≡ built.groups + 1
  expected_groups =
      ap (λ n. expected_restarts n interval) (built.count ∙ built.grouped)
      ∙ expected_restarts-grouped interval built.groups built.last_group built.some_last
          built.last_fits

  read_restarts-built :
      read_restarts bytes b.record_count
      ≡ ok (record {
        records_end = length front;
        restart_interval = interval;
        restart_offsets = words b.restarts;
      })
  unfolding read_restarts
  read_restarts-built =
      let z = sizes in
      let whole = z.whole in
      let front_size = z.front_size in
      let restarts_size = z.restarts_size in
      let k = length-put_le 4 interval in
      let m = length-put_le 4 (length b.restarts) in
      let restarts_fit = z.restarts_fit in
      let small = z.small in
      let buffer_size : length b.buffer ≡ length front =
        let direct : length b.buffer ≡ suc (suc (suc (suc (length (encode_all rs))))) =
          ap (λ l. length l) built.bytes in
        omega (arith, direct, front_size) in
      let some_bytes : ltb (length bytes) 12 ≡ false =
        ge→ltb _ _ (omega (arith, whole, front_size)) in
      let counted : get_le (drop (length bytes - 4) bytes) ≡ length b.restarts =
        ap get_le (
          block_end front (words b.restarts) (put_le 4 interval) (put_le 4 (length b.restarts))
            (length bytes - 4) (omega (arith, whole, restarts_size, k)))
        ∙ get_le-put_le 4 (length b.restarts) (omega (arith, restarts_fit)) in
      let fits : ltb (length bytes - 4) (length b.restarts * 4 + 8) ≡ false =
        ge→ltb _ _ (omega (arith, whole, front_size)) in
      let records_end : length bytes - (length b.restarts * 4 + 8) ≡ length front =
        omega (arith, whole) in
      let offsets : slice (length front) (length bytes - 8) bytes ≡ words b.restarts =
        block_restarts front (words b.restarts) (put_le 4 interval) (put_le 4 (length b.restarts))
          (length front) (length bytes - 8) refl (omega (arith, whole, restarts_size)) in
      let every : get_le (slice (length bytes - 8) (length bytes - 4) bytes) ≡ interval =
        ap get_le (
          block_interval front (words b.restarts) (put_le 4 interval) (put_le 4 (length b.restarts))
            (length bytes - 8) (length bytes - 4) (omega (arith, whole, restarts_size))
            (omega (arith, whole, front_size, k)))
        ∙ get_le-put_le 4 interval (omega arith) in
      let some_every : (interval == 0) ≡ false = ground arith in
      let expected : (length b.restarts == expected_restarts b.record_count interval) ≡ true =
        (==_iff (length b.restarts) (expected_restarts b.record_count interval)).1
          (restarts_length ∙ sym expected_groups) in
      let pass : check_restarts (length b.restarts) (words b.restarts) (length front) 0 0 ≡ ok tt =
        subst (λ l. check_restarts (length l) (words l) (length front) 0 0 ≡ ok tt)
          (sym built.restarts)
          (check_restarts_pass built.later_restarts (length front) built.rising (
            All-map _ _
              (λ r low.
                (omega (arith, low, buffer_size), omega (arith, low, buffer_size, whole, small)))
              (4 ∷ built.later_restarts) built.inside)) in
      rw (some_bytes, counted, fits, records_end, offsets, every, some_every, expected, pass) refl

  abbrev cursor : Cursor
  cursor = record {
    data_bytes = bytes;
    count = b.record_count;
    index = 0;
    offset = 4;
    records_end = length front;
    restart_interval = interval;
    restart_offsets = words b.restarts;
    failed = none;
  }

  new_cursor-built : new_cursor_for_version bytes current_format_version ≡ ok cursor
  unfolding new_cursor_for_version restarts_of_version
  new_cursor-built =
      let z = sizes in
      let whole = z.whole in
      let front_size = z.front_size in
      let count_fits = z.count_fits in
      let long = encode_all_long rs in
      let counted = built.count in
      let some_bytes : ltb (length bytes) 4 ≡ false = ge→ltb _ _ (omega (arith, whole)) in
      let first : slice 0 4 bytes ≡ put_le 4 b.record_count =
        ap (take 4) (
          append_assoc (put_le 4 b.record_count) (encode_all rs)
            (words b.restarts ++ (put_le 4 interval ++ put_le 4 (length b.restarts))))
        ∙ take_at 4 (put_le 4 b.record_count) _ (sym (length-put_le 4 b.record_count)) in
      let count : get_le (slice 0 4 bytes) ≡ b.record_count =
        ap get_le first ∙ get_le-put_le 4 b.record_count (omega (arith, count_fits)) in
      let fits : ltb ((length front - 4) / 17) b.record_count ≡ false =
        ge→ltb _ _ (omega (arith, front_size, long, counted)) in
      rw (some_bytes, count, read_restarts-built, fits) refl

  -- A block that `startBlock`, the loop and `flushBlock` make is decoded to its records, in order.
  pub decode_logical_block-logical_bytes :
      All IsEncodable rs → decode_logical_block (logical_bytes interval b) ≡ ok (map plain rs)
  unfolding decode_logical_block
  decode_logical_block-logical_bytes fits =
      let z = sizes in
      let front_size = z.front_size in
      let counted = built.count in
      let tail = words b.restarts ++ (put_le 4 interval ++ put_le 4 (length b.restarts)) in
      let behind : drop 4 bytes ≡ encode_all rs ++ tail =
        ap (drop 4) (append_assoc (put_le 4 b.record_count) (encode_all rs) tail)
        ∙ drop_at 4 (put_le 4 b.record_count) (encode_all rs ++ tail)
            (sym (length-put_le 4 b.record_count)) in
      let read =
        finished-read_records cursor tail rs (b.record_count + 1) 0 4 fits z.count_fits
          (omega (arith, counted)) behind front_size (omega (arith, counted)) in
      rw (logical_bytes-block, new_cursor-built) read
