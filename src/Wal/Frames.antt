-- ===== src/Wal/Frames.antt =====
-- One frame, written and read: whole, and cut short.
use hypha_db.Base.{
  ℕ, suc, ◌+◌, ◌≤◌, ◌<◌, ◌≡◌, refl, sym, ap, ◌∙◌, subst, true, List, [], ◌∷◌, ◌++◌, append_assoc,
  append-nil, length, length-append, take, drop, slice, ◌==◌, if◌then◌else◌, ok, arith, ge→ltb,
  ==_refl, take-append_le, length-drop, dec_lt, suc-eq-zero,
}
use hypha_db.Base.Bytes.{
  IsU32, IsU64, read_full_short, read_full_enough, put_le, get_le, get_le-put_le, length-put_le,
  read_full, read_full-append,
}
use hypha_db.Record.{
  Record, encode_binary, batch_commit, max_key_size, max_value_size, encoded_size,
}
use hypha_db.Record.RoundTrip.{IsEncodable, decode_binary-encode_binary, length-encode_binary}
use hypha_db.Wal.{
  encode_record, decode_record, frame_checksum, frame_header, frame, at_end, torn, complete,
  check_frame, read_payload, read_frame, max_frame_payload,
}

-- The Go types of the sequence number and the batch identifier.
pub record IsTyped (rec : Record) : Type 0 where
  pub seq_fits : IsU64 rec.seq
  pub batch_id_fits : IsU64 rec.batch_id

-- What `encodeRecord` checks, and what it returns then.
pub encode_record-eq-ok :
    (rec : Record) (payload : List ℕ)
    → encode_record rec ≡ ok payload
    → (length rec.key ≤ max_key_size)
      × (length rec.value ≤ max_value_size)
      × (rec.batch_kind ≤ batch_commit)
      × ((rec.batch_kind ∷ (put_le 8 rec.batch_id ++ encode_binary rec)) ≡ payload)
unfolding encode_record
encode_record-eq-ok rec payload e = ground arith

decode_record_payload :
    (rec : Record)
    → IsTyped rec
    → IsEncodable rec
    → rec.batch_kind ≤ batch_commit
    → decode_record (rec.batch_kind ∷ (put_le 8 rec.batch_id ++ encode_binary rec)) ≡ ok rec
unfolding decode_record put_le
decode_record_payload rec ty fits kind_fits =
    rw
      (
        ge→ltb (length (rec.batch_kind ∷ (put_le 8 rec.batch_id ++ encode_binary rec))) 26
            (unfold encoded_size in omega (arith, length-encode_binary rec)),
        ge→ltb 3 rec.batch_kind kind_fits,
        rw append-nil at (decode_binary-encode_binary true rec [] fits),
        get_le-put_le 8 rec.batch_id ty.batch_id_fits,
      )
      refl

-- A record that `encodeRecord` accepts is decoded from its payload with its batch fields.
pub decode_record-encode_record :
    (rec : Record) (payload : List ℕ)
    → IsTyped rec
    → encode_record rec ≡ ok payload
    → decode_record payload ≡ ok rec
decode_record-encode_record rec payload ty e =
    let (key_fits, value_fits, kind_fits, same) = encode_record-eq-ok rec payload e in
    let fits : IsEncodable rec = record {
      key_fits = key_fits;
      value_fits = value_fits;
      seq_fits = ty.seq_fits;
    } in
    subst (λ p. decode_record p ≡ ok rec) same (decode_record_payload rec ty fits kind_fits)

pub length-payload :
    (rec : Record) (payload : List ℕ)
    → encode_record rec ≡ ok payload
    → (length payload ≡ 9 + encoded_size rec) × (length payload ≤ max_frame_payload)
unfolding encoded_size
length-payload rec payload e =
    let (key_fits, value_fits, kind_fits, same) = encode_record-eq-ok rec payload e in
    let len = ap length same in
    let parts = length-append (put_le 8 rec.batch_id) (encode_binary rec) in
    let total : length payload ≡ 9 + (17 + length rec.key + length rec.value) =
      omega (arith, len, parts, length-put_le 8 rec.batch_id, length-encode_binary rec) in
    (total, omega (arith, total, key_fits, value_fits))

module _ (crc32c : List ℕ → ℕ) (crc32c_fits : (bs : List ℕ) → IsU32 (crc32c bs)) where
  pub length-frame : (payload : List ℕ) → length (frame crc32c payload) ≡ 8 + length payload
  unfolding frame frame_header put_le
  length-frame payload = omega arith

  pub payload_len-frame_header :
      (payload : List ℕ)
      → IsU32 (length payload)
      → get_le (slice 0 4 (frame_header crc32c payload)) ≡ length payload
  unfolding frame_header put_le
  payload_len-frame_header payload h = get_le-put_le 4 (length payload) h

  checksum-frame_header :
      (payload : List ℕ)
      → get_le (slice 4 8 (frame_header crc32c payload))
        ≡ frame_checksum crc32c (slice 0 4 (frame_header crc32c payload)) payload
  unfolding frame_header put_le
  checksum-frame_header payload =
      get_le-put_le 4 (frame_checksum crc32c (put_le 4 (length payload)) payload)
        (unfold frame_checksum in crc32c_fits _)

  read_payload-frame :
      (rec : Record) (payload rest : List ℕ)
      → IsTyped rec
      → encode_record rec ≡ ok payload
      → read_payload crc32c (frame_header crc32c payload) (payload ++ rest)
        ≡ complete rec (8 + length payload) rest
  unfolding read_payload check_frame
  read_payload-frame rec payload rest ty e =
      let (total, bound) = length-payload rec payload e in
      let len = payload_len-frame_header payload (omega (arith, bound)) in
      rw
        (
          len,
          ge→ltb max_frame_payload (length payload) bound,
          read_full-append (length payload) payload rest refl,
          checksum-frame_header payload,
          ==_refl (frame_checksum crc32c (slice 0 4 (frame_header crc32c payload)) payload),
          decode_record-encode_record rec payload ty e,
          len,
        )
        refl

  -- The frame of an accepted record is read back as that record, whatever follows it.
  pub read_frame-frame :
      (rec : Record) (payload rest : List ℕ)
      → IsTyped rec
      → encode_record rec ≡ ok payload
      → read_frame crc32c (frame crc32c payload ++ rest) ≡ complete rec (8 + length payload) rest
  unfolding read_frame frame
  read_frame-frame rec payload rest ty e =
      rw
        (
          append_assoc,
          read_full-append 8 (frame_header crc32c payload) (payload ++ rest)
              (unfold frame_header put_le in refl),
          read_frame,
        )
        (read_payload-frame rec payload rest ty e)

  read_payload_torn :
      (payload after : List ℕ)
      → length payload ≤ max_frame_payload
      → length after < length payload
      → read_payload crc32c (frame_header crc32c payload) after ≡ torn
  unfolding read_payload
  read_payload_torn payload after bound short =
      rw
        (
          payload_len-frame_header payload (omega (arith, bound)),
          ge→ltb max_frame_payload (length payload) bound,
          read_full_short (length payload) after short,
        )
        refl

  read_frame_torn_header :
      (b : ℕ) (bs : List ℕ) → length (b ∷ bs) < 8 → read_frame crc32c (b ∷ bs) ≡ torn
  unfolding read_frame
  read_frame_torn_header b bs h = rw (read_full_short 8 (b ∷ bs) h, read_frame) refl

  read_frame_torn_payload :
      (payload front : List ℕ) (x : ℕ) (back : List ℕ)
      → length payload ≤ max_frame_payload
      → frame crc32c payload ≡ front ++ (x ∷ back)
      → 8 ≤ length front
      → read_frame crc32c front ≡ torn
  unfolding read_frame
  read_frame_torn_payload payload front x back bound split long =
      let header : take 8 front ≡ frame_header crc32c payload =
        sym (take-append_le 8 front (x ∷ back) long)
        ∙ ap (take 8) (sym split)
        ∙ (unfold frame frame_header put_le in refl) in
      let lengths : 8 + length payload ≡ length front + suc (length back) =
        sym (length-frame payload) ∙ ap length split ∙ length-append front (x ∷ back) in
      rw (read_full_enough 8 front long, read_frame, header)
        (read_payload_torn payload (drop 8 front) bound
          (omega (arith, length-drop 8 front, lengths, long)))

  -- A strict beginning of such a frame is the end of the file, or a torn frame.
  pub read_frame_torn :
      (rec : Record) (payload front : List ℕ) (x : ℕ) (back : List ℕ)
      → encode_record rec ≡ ok payload
      → frame crc32c payload ≡ front ++ (x ∷ back)
      → read_frame crc32c front ≡ (if length front == 0 then at_end else torn)
  read_frame_torn rec payload [] x back e split = unfold read_frame read_full in refl
  read_frame_torn rec payload (b ∷ bs) x back e split = elim (dec_lt (length (b ∷ bs)) 8) [
    | yes short ↦ rw (suc-eq-zero (length bs)) (read_frame_torn_header b bs short)
    | no long ↦ rw (suc-eq-zero (length bs)) (
        read_frame_torn_payload payload (b ∷ bs) x back (length-payload rec payload e).1 split
          (omega arith))
  ]
