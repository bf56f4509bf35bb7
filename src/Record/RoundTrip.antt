-- ===== src/Record/RoundTrip.antt =====
-- `DecodeBinary` undoes `EncodeBinary`, and accepts nothing else.
use Prim.Native.Nat.{bit_and}
use hypha_db.Base.{
  ℕ, ◌+◌, ◌≤◌, ◌≡◌, refl, Bool, true, false, not, List, ◌++◌, append_assoc, length, length-append,
  ltb, ◌==◌, if◌then◌else◌, ok, fail_if, arith,
}
use hypha_db.Base.Bytes.{IsU64, put_le, get_le-put_le, read_full-append}
use hypha_db.Record.{
  Record, Header, DecodeError, encode_header, encode_binary, encoded_size, parse_header,
  check_header, decode_binary, max_key_size, max_value_size, record_of, batch_none, flag_deleted,
}

-- What the format can carry: lengths within the limits, and a uint64 sequence number.
pub record IsEncodable (rec : Record) : Type 0 where
  pub key_fits : length rec.key ≤ max_key_size
  pub value_fits : length rec.value ≤ max_value_size
  pub seq_fits : IsU64 rec.seq

pub length-encode_header : (rec : Record) → length (encode_header rec) ≡ 17
unfolding encode_header put_le
length-encode_header rec = refl

-- The header that the encoder writes.
abbrev pub header_of : Record → Header
header_of rec = record {
  key_len = length rec.key;
  value_len = length rec.value;
  seq = rec.seq;
  flags = if rec.deleted then flag_deleted else 0;
}

pub parse_header-encode_header :
    (rec : Record) → IsEncodable rec → parse_header (encode_header rec) ≡ header_of rec
unfolding parse_header encode_header put_le
parse_header-encode_header rec v =
    let key_len = get_le-put_le 4 (length rec.key) (omega arith) in
    let value_len = get_le-put_le 4 (length rec.value) (omega arith) in
    let seq = get_le-put_le 8 rec.seq v.seq_fits in
    λ i. record {
      key_len = key_len i;
      value_len = value_len i;
      seq = seq i;
      flags = if rec.deleted then flag_deleted else 0;
    }

pub check_header-header_of : (rec : Record) → IsEncodable rec → check_header (header_of rec) ≡ ok tt
unfolding check_header
check_header-header_of rec v = ground arith

-- The decoder drops the batch fields, which the binary form does not hold.
abbrev pub plain : Record → Record
plain rec = record rec { batch_id = 0; batch_kind = batch_none }

flag_of_Bool : (b : Bool) → not (bit_and (if b then flag_deleted else 0) flag_deleted == 0) ≡ b
flag_of_Bool true = refl
flag_of_Bool false = refl

pub record_of-header_of : (rec : Record) → record_of (header_of rec) rec.key rec.value ≡ plain rec
record_of-header_of rec = rw (flag_of_Bool rec.deleted)

-- The payload of an encoded record is never too short.
payload_fits :
    (sized : Bool) (rec : Record) (rest : List ℕ) (e : DecodeError)
    → fail_if
        (if sized
          then ltb (length (rec.key ++ (rec.value ++ rest))) (length rec.key + length rec.value)
          else false)
        e
      ≡ ok tt
payload_fits true rec rest e =
    ground (arith, length-append rec.key (rec.value ++ rest), length-append rec.value rest)
payload_fits false rec rest e = refl

-- An encodable record, encoded and followed by any bytes, decodes to itself without its batch
-- fields, and those bytes are left; whether or not the reader knows its length.
pub decode_binary-encode_binary :
    (sized : Bool) (rec : Record) (rest : List ℕ)
    → IsEncodable rec
    → decode_binary sized (encode_binary rec ++ rest) ≡ ok (plain rec, rest)
unfolding decode_binary encode_binary
decode_binary-encode_binary sized rec rest v =
    let split : (encode_header rec ++ (rec.key ++ rec.value)) ++ rest
        ≡ encode_header rec ++ (rec.key ++ (rec.value ++ rest)) =
      rw (append_assoc, append_assoc) in
    let after_header = rec.key ++ (rec.value ++ rest) in
    rw
      (
        split,
        read_full-append 17 (encode_header rec) after_header (length-encode_header rec),
        parse_header-encode_header rec v,
        check_header-header_of rec v,
        payload_fits sized rec rest,
        read_full-append (length rec.key) rec.key (rec.value ++ rest) refl,
        read_full-append (length rec.value) rec.value rest refl,
        record_of-header_of rec,
      )
      refl

-- `EncodedSize` is the number of bytes that `EncodeBinary` writes.
pub length-encode_binary : (rec : Record) → length (encode_binary rec) ≡ encoded_size rec
unfolding encode_binary encoded_size
length-encode_binary rec = omega (
  arith,
  length-append (encode_header rec) (rec.key ++ rec.value),
  length-append rec.key rec.value,
  length-encode_header rec,
)
