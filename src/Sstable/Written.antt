-- ===== src/Sstable/Written.antt =====
-- The blocks of a table that writer.go writes hold its records, and the index finds them.
use native.Mathlib.Nat.{mod-eq_of_lt}
use hypha_db.Base.{
  ℕ, ◌%◌, ◌^◌, ◌<◌, ◌≡◌, inl, inr, refl, sym, ap, ◌∙◌, subst, Bool, true, false, Bool-cases, List,
  [], ◌∷◌, ◌++◌, length, ltb, ◌==◌, arith, ok, ok-injective, map_err, map_err-eq-ok, >>=-elim,
  >>-elim, All, All-append, append_assoc, append-nil, length-append, lt→ltb,
}
use hypha_db.Base.Bytes.{IsU32}
use hypha_db.Record.{Record}
use hypha_db.Record.RoundTrip.{IsEncodable}
use hypha_db.Compression.{Lz4}
use hypha_db.Sstable.Index.{IndexEntry}
use hypha_db.Sstable.Physical.{encode_physical_block}
use hypha_db.Sstable.Stored.{IsLossless}
use hypha_db.Sstable.Writer.{
  Building, Writer, WriteOptions, bad_block, start_block, append_record, logical_bytes, new_writer,
  check_order, note_record, flush_block, is_full, place_record, add_record, add_records,
  write_blocks, projected_size,
}
use hypha_db.Sstable.Built.{IsBuilt, start_block-IsBuilt, append_record-IsBuilt}
use hypha_db.Sstable.Found.{
  Each, Each-append_one, Each-map, concat, concat-append_one, first_key_of, IsFound, IsFound-append,
  physical-IsFound,
}

module _ (checksum : List ℕ → ℕ) (words : (bytes : List ℕ) → IsU32 (checksum bytes)) (lz4 : Lz4)
    (lossless : IsLossless lz4) (savings : ℕ → ℕ → Bool) (options : WriteOptions) where
  abbrev IsFoundIn : List ℕ → IndexEntry → List Record → Type 0
  IsFoundIn = IsFound checksum words lz4 lossless savings options

  -- The records of the block under construction.
  data Current (b : Building) (rs : List Record) : Type 0 where
    nothing : b.record_count ≡ 0 → rs ≡ [] → Current b rs
    building :
        IsBuilt options.restart_interval b rs
        → b.first_key ≡ first_key_of rs
        → 0 < length rs
        → All IsEncodable rs
        → Current b rs

  record IsWriting (w : Writer) (rs : List Record) : Type 0 where
    chunks : List (List Record)
    current : List Record
    written : Each (IsFoundIn w.file) w.index chunks
    block : Current w.block current
    whole : rs ≡ concat chunks ++ current

  module _ (some_interval : 0 < options.restart_interval)
      (interval_fits : options.restart_interval < 2 ^ 32) (codec : options.codec < 256)
      (block_fits : options.block_size < 2 ^ 32) where
    -- What a flush leaves: all records are in blocks.
    record IsFlushed (w : Writer) (rs : List Record) : Type 0 where
      chunks : List (List Record)
      written : Each (IsFoundIn w.file) w.index chunks
      whole : rs ≡ concat chunks
      closed : w.block.record_count ≡ 0

    flush_block-IsFlushed :
        (w w' : Writer) (rs : List Record)
        → IsWriting w rs
        → flush_block checksum lz4 savings options w ≡ ok w'
        → IsFlushed w' rs
    unfolding flush_block
    flush_block-IsFlushed w w' rs is e = elim is.block [
      | nothing none_left empty ↦
          let test : (w.block.record_count == 0) ≡ true = ground (arith, none_left) in
          let same = ok-injective (rw test at e) in
          subst (λ v. IsFlushed v rs) same
            (record {
              chunks = is.chunks;
              written = is.written;
              whole =
                  is.whole
                  ∙ (ap (λ l. concat is.chunks ++ l) empty ∙ append-nil (concat is.chunks));
              closed = none_left;
            })
      | building built key some_records fits ↦
          let count = built.count in
          let test : (w.block.record_count == 0) ≡ false = ground (arith, count, some_records) in
          >>=-elim
            (map_err bad_block (
              encode_physical_block checksum lz4 savings
                (logical_bytes options.restart_interval w.block) options.codec))
            _ (rw test at e)
            λ physical run e1.
              let found =
                physical-IsFound checksum words lz4 lossless savings options w is.current physical
                  built key some_records fits some_interval interval_fits codec
                  (map_err-eq-ok bad_block _ run) in
              subst (λ v. IsFlushed v rs) (ok-injective e1)
                (record {
                  chunks = is.chunks ++ (is.current ∷ []);
                  written =
                      Each-append_one (IsFoundIn (w.file ++ physical)) w.index is.chunks _
                        is.current
                        (Each-map (IsFoundIn w.file) (IsFoundIn (w.file ++ physical))
                          (IsFound-append checksum words lz4 lossless savings options w.file
                            physical)
                          w.index is.chunks is.written)
                        found;
                  whole = is.whole ∙ sym (concat-append_one is.chunks is.current);
                  closed = refl;
                })
    ]

    -- A block that takes the record next.
    append_Current :
        (b : Building) (rs : List Record) (rec : Record)
        → IsBuilt options.restart_interval b rs
        → b.first_key ≡ first_key_of rs
        → 0 < length rs
        → All IsEncodable rs
        → IsEncodable rec
        → length b.buffer < 2 ^ 32
        → Current
            (append_record (b.record_count % options.restart_interval == 0) rec b)
            (rs ++ (rec ∷ []))
    unfolding append_record
    append_Current b rs rec built key some_records fits fit small =
        building (append_record-IsBuilt options.restart_interval b rs rec built small)
          (key ∙ same_first rs some_records)
          (let size = length-append rs (rec ∷ []) in omega (arith, size))
          (All-append IsEncodable rs (rec ∷ []) fits (fit, tt))
      where
        same_first :
            (rs : List Record) → 0 < length rs → first_key_of rs ≡ first_key_of (rs ++ (rec ∷ []))
        same_first [] h = absurd (omega arith)
        same_first (r ∷ rs) h = refl

    start_Current :
        (rec : Record)
        → IsEncodable rec
        → Current (append_record true rec (start_block rec.key)) (rec ∷ [])
    unfolding append_record start_block
    start_Current rec fit =
        building (start_block-IsBuilt options.restart_interval rec.key rec some_interval) refl
          (omega arith) (fit, tt)

    room_Current :
        (b : Building) (rs : List Record) (rec : Record)
        → Current b rs
        → IsEncodable rec
        → (b.record_count ≡ 0 → b ≡ start_block rec.key)
        → is_full checksum lz4 savings options b rec ≡ false
        → Current
            (append_record (b.record_count % options.restart_interval == 0) rec b)
            (rs ++ (rec ∷ []))
    unfolding is_full projected_size
    room_Current b rs rec (nothing none_left empty) fit begun room =
        let zero_left : 0 % options.restart_interval ≡ 0 =
          mod-eq_of_lt {n = 0} {m = options.restart_interval} some_interval in
        let due : (b.record_count % options.restart_interval == 0) ≡ true =
          ap (λ n. n % options.restart_interval == 0) none_left ∙ ap (λ n. n == 0) zero_left in
        subst
          (λ l.
            Current (append_record (b.record_count % options.restart_interval == 0) rec b)
              (l ++ (rec ∷ [])))
          (sym empty)
          (subst (λ t. Current (append_record t rec b) (rec ∷ [])) (sym due)
            (subst (λ c. Current (append_record true rec c) (rec ∷ [])) (sym (begun none_left))
              (start_Current rec fit)))
    room_Current b rs rec (building built key some_records fits) fit begun room =
        let count = built.count in
        append_Current b rs rec built key some_records fits fit (
          let some_count : ltb 0 b.record_count ≡ true =
            lt→ltb 0 b.record_count (omega (arith, count, some_records)) in
          let room' = rw some_count at room in ground (arith, room'))

    place_record-IsWriting :
        (w w' : Writer) (rs : List Record) (rec : Record)
        → IsWriting w rs
        → IsEncodable rec
        → (w.block.record_count ≡ 0 → w.block ≡ start_block rec.key)
        → place_record checksum lz4 savings options rec w ≡ ok w'
        → IsWriting w' (rs ++ (rec ∷ []))
    unfolding place_record is_full
    place_record-IsWriting w w' rs rec is fit begun e =
        elim (Bool-cases (is_full checksum lz4 savings options w.block rec)) [
          | inl full ↦
              >>=-elim (flush_block checksum lz4 savings options w) _ (rw full at e)
                λ flushed run e1.
                  let f = flush_block-IsFlushed w flushed rs is run in
                  subst (λ v. IsWriting v (rs ++ (rec ∷ []))) (ok-injective e1)
                    (record {
                      chunks = f.chunks;
                      current = rec ∷ [];
                      written = f.written;
                      block = start_Current rec fit;
                      whole = ap (λ l. l ++ (rec ∷ [])) f.whole;
                    })
          | inr room ↦
              subst (λ v. IsWriting v (rs ++ (rec ∷ []))) (ok-injective (rw room at e))
                (record {
                  chunks = is.chunks;
                  current = is.current ++ (rec ∷ []);
                  written = is.written;
                  block = room_Current w.block is.current rec is.block fit begun room;
                  whole =
                      ap (λ l. l ++ (rec ∷ [])) is.whole
                      ∙ append_assoc (concat is.chunks) is.current (rec ∷ []);
                })
        ]

    note_record-IsWriting :
        (w : Writer) (rs : List Record) (rec : Record)
        → IsWriting w rs
        → IsWriting (note_record rec w) rs
          × ((note_record rec w).block.record_count ≡ 0
              → (note_record rec w).block ≡ start_block rec.key)
    unfolding note_record start_block
    note_record-IsWriting w rs rec is = elim (Bool-cases (w.block.record_count == 0)) [
      | inl fresh ↦ rw fresh (
        record {
          chunks = is.chunks;
          current = [];
          written = is.written;
          block = nothing refl refl;
          whole = is.whole ∙ ap (λ l. concat is.chunks ++ l) (none_current is.block fresh);
        },
        λ e. refl,
      )
      | inr begun ↦ rw begun (
        record {
          chunks = is.chunks;
          current = is.current;
          written = is.written;
          block = is.block;
          whole = is.whole;
        },
        λ e. absurd (ground (arith, begun)),
      )
    ]
      where
        none_current :
            {b : Building} {cs : List Record}
            → Current b cs
            → (b.record_count == 0) ≡ true
            → cs ≡ []
        none_current (nothing none_left empty) h = empty
        none_current (building built key some_records fits) h =
            let count = built.count in absurd (ground (arith, count, some_records, h))

    add_records-IsWriting :
        (rs : List Record) (w w' : Writer) (before : List Record)
        → IsWriting w before
        → All IsEncodable rs
        → add_records checksum lz4 savings options w rs ≡ ok w'
        → IsWriting w' (before ++ rs)
    unfolding add_records add_record
    add_records-IsWriting [] w w' before is fits e =
        subst (IsWriting w') (sym (append-nil before))
          (subst (λ v. IsWriting v before) (ok-injective e) is)
    add_records-IsWriting (r ∷ rs) w w' before is (fit, fits) e =
        >>=-elim (add_record checksum lz4 savings options w r) _ e λ w1 run e1.
          >>-elim (check_order w.previous r) _ run λ in_order placed.
            let (noted, begun) = note_record-IsWriting w before r is in
            let next =
              place_record-IsWriting (note_record r w) w1 before r noted fit begun placed in
            subst (IsWriting w') (append_assoc before (r ∷ []) rs)
              (add_records-IsWriting rs w1 w' (before ++ (r ∷ [])) next fits e1)

    -- A table's blocks hold exactly its records: cut into chunks at the entries of the index, each
    -- chunk is what a read of its entry's block gives, whatever is written behind the blocks, and
    -- the entry has the key of its first record.
    pub write_blocks-IsFound :
        (rs : List Record) (w : Writer)
        → All IsEncodable rs
        → write_blocks checksum lz4 savings options rs ≡ ok w
        → (chunks : List (List Record)) × (rs ≡ concat chunks)
          × Each (IsFound checksum words lz4 lossless savings options w.file) w.index chunks
    unfolding write_blocks
    write_blocks-IsFound rs w fits e =
        >>=-elim (add_records checksum lz4 savings options new_writer rs) _ e λ w1 run flushed.
          let start : IsWriting new_writer [] = record {
            chunks = [];
            current = [];
            written = tt;
            block = nothing refl refl;
            whole = refl;
          } in
          let is = add_records-IsWriting rs new_writer w1 [] start fits run in
          let f = flush_block-IsFlushed w1 w rs is flushed in (f.chunks, f.whole, f.written)
