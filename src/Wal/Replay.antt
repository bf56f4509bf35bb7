-- ===== src/Wal/Replay.antt =====
-- What a replay makes of a log of whole frames, and of one that is cut short anywhere.
use native.Mathlib.Nat.{add-zero}
use hypha_db.Base.{
  ℕ, zero, suc, ◌+◌, ◌≤◌, ◌<◌, ◌≡◌, refl, sym, ap, ◌∙◌, none, some, List, [], ◌∷◌, ◌++◌,
  append_assoc, append-split, drop-cons, length, length-append, take, drop, ◌==◌, if◌then◌else◌, ok,
  arith, All, All-take, dec_le, suc-eq-zero,
}
use hypha_db.Base.Bytes.{IsU32, put_le}
use hypha_db.Record.{Record, encode_binary, batch_commit, max_key_size, max_value_size}
use hypha_db.Wal.{
  encode_record, frame, at_end, torn, read_frame, ReplayState, apply_record, replay_loop,
}
use hypha_db.Wal.Frames.{IsTyped, length-frame, read_frame-frame, read_frame_torn}

-- A record that `encodeRecord` accepts, with numbers of its Go types.
pub record IsWritable (rec : Record) : Type 0 where
  pub typed : IsTyped rec
  pub key_fits : length rec.key ≤ max_key_size
  pub value_fits : length rec.value ≤ max_value_size
  pub kind_fits : rec.batch_kind ≤ batch_commit

abbrev pub payload_of : Record → List ℕ
payload_of rec = rec.batch_kind ∷ (put_le 8 rec.batch_id ++ encode_binary rec)

pub encode_record-IsWritable :
    (rec : Record) → IsWritable rec → encode_record rec ≡ ok (payload_of rec)
unfolding encode_record
encode_record-IsWritable rec w = ground arith

-- The frames of a list of records, as `WriteRecord` appends them.
unfoldable pub log_bytes : (List ℕ → ℕ) → List Record → List ℕ
log_bytes crc32c [] = []
log_bytes crc32c (rec ∷ recs) = frame crc32c (payload_of rec) ++ log_bytes crc32c recs

module _ {M : Type 0} (put : Record → M → M) where
  unfoldable pub apply_all : List Record → ReplayState M → ReplayState M
  apply_all [] s = s
  apply_all (rec ∷ recs) s = apply_all recs (apply_record put rec s)

  module _ (crc32c : List ℕ → ℕ) (crc32c_fits : (bs : List ℕ) → IsU32 (crc32c bs)) where
    -- Whole frames and then what is no frame: the frames are applied, and the file is cut behind
    -- them unless they end it.
    pub replay_loop-log_bytes :
        (recs : List Record) (rest : List ℕ) (fuel offset : ℕ) (s : ReplayState M)
        → All IsWritable recs
        → read_frame crc32c rest ≡ (if length rest == 0 then at_end else torn)
        → length (log_bytes crc32c recs ++ rest) < fuel
        → replay_loop put crc32c fuel offset (log_bytes crc32c recs ++ rest) s
          ≡ ok (
            apply_all recs s,
            if length rest == 0 then none else some (offset + length (log_bytes crc32c recs)),
          )
    unfolding replay_loop apply_all log_bytes
    replay_loop-log_bytes recs rest zero offset s w tail h = absurd (omega arith)
    replay_loop-log_bytes [] [] (suc fuel) offset s w tail h = rw (tail, replay_loop) refl
    replay_loop-log_bytes [] (b ∷ bs) (suc fuel) offset s w tail h =
        let cut : read_frame crc32c (b ∷ bs) ≡ torn = tail ∙ rw (suc-eq-zero (length bs)) refl in
        rw (cut, suc-eq-zero (length bs), add-zero offset, replay_loop) refl
    replay_loop-log_bytes (rec ∷ recs) rest (suc fuel) offset s (w, ws) tail h =
        let payload = payload_of rec in
        let more = log_bytes crc32c recs ++ rest in
        let whole : length (frame crc32c payload ++ more) ≡ (8 + length payload) + length more =
          length-append (frame crc32c payload) more
          ∙ ap (λ n. n + length more) (length-frame crc32c crc32c_fits payload) in
        let shift : (offset + (8 + length payload)) + length (log_bytes crc32c recs)
            ≡ offset + length (frame crc32c payload ++ log_bytes crc32c recs) =
          omega (
            arith,
            length-append (frame crc32c payload) (log_bytes crc32c recs),
            length-frame crc32c crc32c_fits payload,
          ) in
        rw
          (
            append_assoc,
            read_frame-frame crc32c crc32c_fits rec payload more w.typed
                (encode_record-IsWritable rec w),
            replay_loop,
          )
          (replay_loop-log_bytes recs rest fuel (offset + (8 + length payload))
              (apply_record put rec s) ws tail
              (omega (
                arith,
                h,
                whole,
                ap length (append_assoc (frame crc32c payload) (log_bytes crc32c recs) rest),
              ))
            ∙ ap
                (λ o. ok (
                  apply_all recs (apply_record put rec s),
                  if length rest == 0 then none else some o,
                ))
                shift)

-- A strict beginning of a log is some of its frames and a strict beginning of the next.
pub record Torn (crc32c : List ℕ → ℕ) (recs : List Record) (front : List ℕ) : Type 0 where
  pub whole : ℕ
  pub next : Record
  pub part : List ℕ
  pub lost : ℕ
  pub lost_rest : List ℕ
  pub whole_lt : whole < length recs
  pub next_writable : IsWritable next
  pub front_eq : front ≡ log_bytes crc32c (take whole recs) ++ part
  pub next_eq : frame crc32c (payload_of next) ≡ part ++ (lost ∷ lost_rest)

pub log_bytes-Torn :
    (crc32c : List ℕ → ℕ) (recs : List Record) (front : List ℕ) (x : ℕ) (back : List ℕ)
    → All IsWritable recs
    → log_bytes crc32c recs ≡ front ++ (x ∷ back)
    → Torn crc32c recs front
unfolding log_bytes
log_bytes-Torn crc32c [] front x back w e =
    absurd (omega (arith, ap length e, length-append front (x ∷ back)))
log_bytes-Torn crc32c (rec ∷ recs) front x back (w, ws) e =
    let f = frame crc32c (payload_of rec) in
    elim (dec_le (length f) (length front)) [
      | yes long ↦
          let (front_eq, rest_eq) =
            append-split f (log_bytes crc32c recs) front (x ∷ back) e long in
          let t = log_bytes-Torn crc32c recs (drop (length f) front) x back ws rest_eq in
          record {
            whole = suc t.whole;
            next = t.next;
            part = t.part;
            lost = t.lost;
            lost_rest = t.lost_rest;
            whole_lt = omega (arith, t.whole_lt);
            next_writable = t.next_writable;
            front_eq =
                front_eq
                ∙ ap (λ u. f ++ u) t.front_eq
                ∙ sym (append_assoc f (log_bytes crc32c (take t.whole recs)) t.part);
            next_eq = t.next_eq;
          }
      | no short ↦
          let (f_eq, rest_eq) =
            append-split front (x ∷ back) f (log_bytes crc32c recs) (sym e) (omega arith) in
          let (y, ys, drop_eq) = drop-cons (length front) f (omega arith) in
          record {
            whole = 0;
            next = rec;
            part = front;
            lost = y;
            lost_rest = ys;
            whole_lt = omega arith;
            next_writable = w;
            front_eq = refl;
            next_eq = f_eq ∙ ap (λ u. front ++ u) drop_eq;
          }
    ]

module _ {M : Type 0} (put : Record → M → M) (crc32c : List ℕ → ℕ)
    (crc32c_fits : (bs : List ℕ) → IsU32 (crc32c bs)) where
  -- Replaying a log that is cut short applies some number of its records, from the first on, and
  -- fewer than all; and the file is cut behind their frames, if more was left of it.
  pub replay_loop_torn :
      (recs : List Record) (front : List ℕ) (x : ℕ) (back : List ℕ) (fuel offset : ℕ)
      (s : ReplayState M)
      → All IsWritable recs
      → log_bytes crc32c recs ≡ front ++ (x ∷ back)
      → length front < fuel
      → (k : ℕ) × (k < length recs)
        × (part : List ℕ) × (front ≡ log_bytes crc32c (take k recs) ++ part)
        × (replay_loop put crc32c fuel offset front s
            ≡ ok (
              apply_all put (take k recs) s,
              if length part == 0
                  then none
                  else some (offset + length (log_bytes crc32c (take k recs))),
            ))
  replay_loop_torn recs front x back fuel offset s w e h =
      let t = log_bytes-Torn crc32c recs front x back w e in
      let tail =
        read_frame_torn crc32c crc32c_fits t.next (payload_of t.next) t.part t.lost t.lost_rest
          (encode_record-IsWritable t.next t.next_writable) t.next_eq in
      let run =
        replay_loop-log_bytes put crc32c crc32c_fits (take t.whole recs) t.part fuel offset s
          (All-take IsWritable t.whole recs w) tail (omega (arith, h, ap length t.front_eq)) in
      (
        t.whole,
        t.whole_lt,
        t.part,
        t.front_eq,
        ap (λ u. replay_loop put crc32c fuel offset u s) t.front_eq ∙ run,
      )
