-- ===== src/Record/Runs.antt =====
-- Records at concrete bytes, and the theorems there.
use hypha_db.Base.{ℕ, ◌≡◌, refl, true, false, List, [], ◌∷◌, ◌++◌, ok, err, arith}
use hypha_db.Base.Bytes.{put_le, get_le, read_full}
use hypha_db.Record.{
  Record, encode_header, encode_binary, parse_header, check_header, decode_binary, payload_short,
  unknown_flags,
}
use hypha_db.Record.RoundTrip.{IsEncodable, plain, decode_binary-encode_binary}
use hypha_db.Record.Exact.{encode_binary-decode_binary}

-- A tombstone for the key "ab".
abbrev tombstone : Record
tombstone = record {
  key = 97 ∷ 98 ∷ [];
  seq = 258;
  value = [];
  deleted = true;
  batch_id = 5;
  batch_kind = 2;
}

tombstone_bytes :
    encode_binary tombstone
    ≡ 2 ∷ 0 ∷ 0 ∷ 0 ∷ 0 ∷ 0 ∷ 0 ∷ 0 ∷ 2 ∷ 1 ∷ 0 ∷ 0 ∷ 0 ∷ 0 ∷ 0 ∷ 0 ∷ 1 ∷ 97 ∷ 98 ∷ []
unfolding encode_binary encode_header put_le
tombstone_bytes = refl

-- TestDecodeBinaryRejectsUnknownFlags
unknown_flag :
    decode_binary true (0 ∷ 0 ∷ 0 ∷ 0 ∷ 0 ∷ 0 ∷ 0 ∷ 0 ∷ 3 ∷ 0 ∷ 0 ∷ 0 ∷ 0 ∷ 0 ∷ 0 ∷ 0 ∷ 128 ∷ [])
    ≡ err (unknown_flags 128)
unfolding decode_binary read_full parse_header get_le check_header
unknown_flag = refl

-- A reader that knows its length refuses a payload that it does not hold.
short_payload :
    decode_binary true (9 ∷ 0 ∷ 0 ∷ 0 ∷ 0 ∷ 0 ∷ 0 ∷ 0 ∷ 3 ∷ 0 ∷ 0 ∷ 0 ∷ 0 ∷ 0 ∷ 0 ∷ 0 ∷ 0 ∷ 97 ∷ [])
    ≡ err (payload_short 9 1)
unfolding decode_binary read_full parse_header get_le check_header
short_payload = refl

decode_binary-encode_binary_example :
    decode_binary true (encode_binary tombstone ++ (7 ∷ [])) ≡ ok (plain tombstone, 7 ∷ [])
decode_binary-encode_binary_example =
    decode_binary-encode_binary true tombstone (7 ∷ []) (omega arith)

abbrev stored : List ℕ
stored = 2 ∷ 0 ∷ 0 ∷ 0 ∷ 0 ∷ 0 ∷ 0 ∷ 0 ∷ 2 ∷ 1 ∷ 0 ∷ 0 ∷ 0 ∷ 0 ∷ 0 ∷ 0 ∷ 1 ∷ 97 ∷ 98 ∷ 7 ∷ []

stored_decodes : decode_binary false stored ≡ ok (plain tombstone, 7 ∷ [])
unfolding decode_binary read_full parse_header get_le check_header
stored_decodes = refl

encode_binary-decode_binary_example :
    (stored ≡ encode_binary (plain tombstone) ++ (7 ∷ [])) × IsEncodable (plain tombstone)
encode_binary-decode_binary_example =
    encode_binary-decode_binary false stored (plain tombstone) (7 ∷ []) (omega arith) stored_decodes
