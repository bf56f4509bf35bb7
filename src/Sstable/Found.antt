-- ===== src/Sstable/Found.antt =====
-- A block in a file: its entry in the index finds it, whatever is written behind it.
use hypha_db.Base.{
  ℕ, ◌+◌, ◌-◌, ◌%◌, ◌^◌, ◌≤◌, ◌<◌, ◌≡◌, inl, inr, refl, sym, ap, ◌∙◌, subst, Bool, false, ◌||◌,
  Bool-cases, List, [], ◌∷◌, ◌++◌, map, length, take, drop, slice, ltb, leb, ◌==◌, arith, ok,
  ok-injective, fail_if-elim, map_err, >>=-elim, All, append_assoc, append-nil, length-append,
  ge→ltb, take-append_exact, drop-append_exact,
}
use hypha_db.Base.Bytes.{IsU32, put_le, length-put_le}
use hypha_db.Base.Text.{Text}
use hypha_db.Record.{Record}
use hypha_db.Record.RoundTrip.{IsEncodable, plain}
use hypha_db.Compression.{Codec, none_codec, Lz4, compress}
use hypha_db.Sstable.Index.{IndexEntry}
use hypha_db.Sstable.Physical.{
  max_block_size, stored_payload, should_compress, compression, block_header_bytes,
  encode_physical_block,
}
use hypha_db.Sstable.Stored.{IsLossless, decode_physical_block-encode_physical_block}
use hypha_db.Sstable.Writer.{Writer, WriteOptions, logical_bytes}
use hypha_db.Sstable.Built.{IsBuilt}
use hypha_db.Sstable.ReadBack.{decode_logical_block-logical_bytes}
use hypha_db.Sstable.Table.{read_block_from, decode_block, read_block}

stored_payload-le :
    (lz4 : Lz4) (savings : ℕ → ℕ → Bool) (logical : List ℕ) (requested : Codec) (p : Codec × List ℕ)
    → stored_payload lz4 savings logical requested ≡ ok p
    → length p.1 ≤ length logical
unfolding stored_payload should_compress
stored_payload-le lz4 savings logical requested p e =
    let same : length logical ≤ length logical = omega arith in
    elim (Bool-cases (requested == none_codec)) [
      | inl plain_codec ↦
          subst (λ q. length q.1 ≤ length logical) (ok-injective (rw plain_codec at e)) same
      | inr coded ↦
          >>=-elim (map_err compression (compress lz4 logical requested)) _ (rw coded at e)
            λ compressed run e1.
              elim (Bool-cases
                ((length logical == 0) || leb (length logical) (length compressed))) [
                  | inl kept ↦
                      subst (λ q. length q.1 ≤ length logical) (ok-injective (rw kept at e1)) same
                  | inr smaller ↦ elim (Bool-cases (savings (length logical) (length compressed))) [
                    | inr kept ↦
                        subst (λ q. length q.1 ≤ length logical)
                          (ok-injective (rw (smaller, kept) at e1)) same
                    | inl saves ↦
                        subst (λ q. length q.1 ≤ length logical)
                          (ok-injective (rw (smaller, saves) at e1)) (ground arith)
                  ]
                ]
    ]

length-header :
    (codec raw_len : ℕ)
    → length (block_header_bytes (record { codec = codec; raw_len = raw_len })) ≡ 5
unfolding block_header_bytes put_le
length-header codec raw_len = refl

encode_physical_block-sizes :
    (checksum : List ℕ → ℕ) (lz4 : Lz4) (savings : ℕ → ℕ → Bool) (logical : List ℕ) (codec : Codec)
    (physical : List ℕ)
    → encode_physical_block checksum lz4 savings logical codec ≡ ok physical
    → (9 ≤ length physical)
      × (length physical ≤ length logical + 9)
      × (length logical ≤ max_block_size)
unfolding encode_physical_block
encode_physical_block-sizes checksum lz4 savings logical codec physical e =
    fail_if-elim (ltb max_block_size (length logical)) _ _ e λ within e1.
      >>=-elim (stored_payload lz4 savings logical codec) _ e1 λ p run e2.
        let le = stored_payload-le lz4 savings logical codec p run in
        let raw_len = length logical % 2 ^ 32 in
        let header = block_header_bytes (record { codec = p.0; raw_len = raw_len }) in
        let size : length ((header ++ p.1) ++ put_le 4 (checksum (header ++ p.1)))
            ≡ length physical =
          ap (λ l. length l) (ok-injective e2) in
        let outer = length-append (header ++ p.1) (put_le 4 (checksum (header ++ p.1))) in
        let inner = length-append header p.1 in
        let word = length-put_le 4 (checksum (header ++ p.1)) in
        let five = length-header p.0 raw_len in
        (
          omega (arith, size, outer, inner, word, five),
          omega (arith, size, outer, inner, word, five, le),
          ground arith,
        )

-- What the index is promised of each of its entries.
abbrev pub Each :
    (IndexEntry → List Record → Type 0) → List IndexEntry → List (List Record) → Type 0
Each P [] [] = Unit
Each P [] (c ∷ cs) = ¬ Unit
Each P (e ∷ es) [] = ¬ Unit
Each P (e ∷ es) (c ∷ cs) = P e c × Each P es cs

abbrev pub concat : List (List Record) → List Record
concat [] = []
concat (c ∷ cs) = c ++ concat cs

abbrev pub first_key_of : List Record → Text
first_key_of [] = []
first_key_of (r ∷ rs) = r.key

pub Each-append_one :
    (P : IndexEntry → List Record → Type 0) (es : List IndexEntry) (cs : List (List Record))
    (e : IndexEntry) (c : List Record)
    → Each P es cs
    → P e c
    → Each P (es ++ (e ∷ [])) (cs ++ (c ∷ []))
Each-append_one P [] [] e c h p = (p, tt)
Each-append_one P [] (d ∷ cs) e c h p = absurd (h tt)
Each-append_one P (x ∷ es) [] e c h p = absurd (h tt)
Each-append_one P (x ∷ es) (d ∷ cs) e c (first, h) p = (first, Each-append_one P es cs e c h p)

pub Each-map :
    (P Q : IndexEntry → List Record → Type 0)
    → ((e : IndexEntry) (c : List Record) → P e c → Q e c)
    → (es : List IndexEntry) (cs : List (List Record)) → Each P es cs
    → Each Q es cs
Each-map P Q f [] [] h = tt
Each-map P Q f [] (c ∷ cs) h = absurd (h tt)
Each-map P Q f (e ∷ es) [] h = absurd (h tt)
Each-map P Q f (e ∷ es) (c ∷ cs) (first, h) = (f e c first, Each-map P Q f es cs h)

pub concat-append_one :
    (cs : List (List Record)) (c : List Record) → concat (cs ++ (c ∷ [])) ≡ concat cs ++ c
concat-append_one [] c = append-nil c
concat-append_one (x ∷ cs) c =
    ap (λ l. x ++ l) (concat-append_one cs c) ∙ sym (append_assoc x (concat cs) c)

read_block_from-append :
    (file physical tail : List ℕ) (entry : IndexEntry)
    → entry.offset ≡ length file
    → entry.length ≡ length physical
    → 0 < length physical
    → length physical ≤ max_block_size + 9
    → length (file ++ (physical ++ tail)) < 2 ^ 63
    → read_block_from (file ++ (physical ++ tail)) entry ≡ ok physical
unfolding read_block_from
read_block_from-append file physical tail entry offset size some_bytes small fits =
    let whole = length-append file (physical ++ tail) in
    let rest = length-append physical tail in
    let not_empty : (entry.length == 0) ≡ false = ground (arith, size, some_bytes) in
    let not_long : ltb 268435465 entry.length ≡ false = ge→ltb _ _ (omega (arith, size, small)) in
    let not_far : ltb (2 ^ 63 - 1) entry.offset ≡ false =
      ge→ltb _ _ (omega (arith, offset, whole, fits)) in
    let there : ltb (length (file ++ (physical ++ tail))) (entry.offset + entry.length) ≡ false =
      ge→ltb _ _ (omega (arith, offset, size, whole, rest)) in
    let behind : drop entry.offset (file ++ (physical ++ tail)) ≡ physical ++ tail =
      ap (λ n. drop n (file ++ (physical ++ tail))) offset
      ∙ drop-append_exact file (physical ++ tail) in
    let exact : slice entry.offset (entry.offset + entry.length) (file ++ (physical ++ tail))
        ≡ physical =
      ap (take (entry.offset + entry.length - entry.offset)) behind
      ∙ (ap (λ n. take n (physical ++ tail)) (omega (arith, size))
          ∙ take-append_exact physical tail) in
    rw (not_empty, not_long, not_far, there, exact) refl

module _ (checksum : List ℕ → ℕ) (words : (bytes : List ℕ) → IsU32 (checksum bytes)) (lz4 : Lz4)
    (lossless : IsLossless lz4) (savings : ℕ → ℕ → Bool) (options : WriteOptions) where
  -- The entry's block is read from the file, whatever comes behind it.
  pub record IsFound (file : List ℕ) (e : IndexEntry) (c : List Record) : Type 0 where
    pub reads :
        (tail : List ℕ)
        → length (file ++ tail) < 2 ^ 63
        → read_block checksum lz4 (file ++ tail) e ≡ ok (map plain c)
    pub first : e.first_key ≡ first_key_of c
    pub some_records : 0 < length c

  pub IsFound-append :
      (file more : List ℕ) (e : IndexEntry) (c : List Record)
      → IsFound file e c
      → IsFound (file ++ more) e c
  IsFound-append file more e c f = record {
    reads = λ tail fits.
        let regroup = append_assoc file more tail in
        ap (λ l. read_block checksum lz4 l e) regroup
        ∙ f.reads (more ++ tail) (subst (λ l. length l < 2 ^ 63) regroup fits);
    first = f.first;
    some_records = f.some_records;
  }

  pub physical-IsFound :
      (w : Writer) (rs : List Record) (physical : List ℕ)
      → IsBuilt options.restart_interval w.block rs
      → w.block.first_key ≡ first_key_of rs
      → 0 < length rs
      → All IsEncodable rs
      → 0 < options.restart_interval
      → options.restart_interval < 2 ^ 32
      → options.codec < 256
      → encode_physical_block checksum lz4 savings
          (logical_bytes options.restart_interval w.block)
          options.codec
        ≡ ok physical
      → IsFound
          (w.file ++ physical)
          (record {
            first_key = w.block.first_key;
            offset = length w.file;
            length = length physical % 2 ^ 32;
          })
          rs
  unfolding read_block decode_block
  physical-IsFound w rs physical built key some_records fits some_interval interval_fits codec e =
      let logical = logical_bytes options.restart_interval w.block in
      let (long, short, within) =
        encode_physical_block-sizes checksum lz4 savings logical options.codec physical e in
      let entry : IndexEntry = record {
        first_key = w.block.first_key;
        offset = length w.file;
        length = length physical % 2 ^ 32;
      } in
      let decoded =
        decode_physical_block-encode_physical_block lz4 lossless checksum words savings logical
          options.codec physical codec e in
      let read =
        decode_logical_block-logical_bytes options.restart_interval w.block rs built some_interval
          interval_fits (omega (arith, within)) fits in
      record {
        reads = λ tail file_fits.
            let regroup = append_assoc w.file physical tail in
            ap (λ l. read_block checksum lz4 l entry) regroup
            ∙ rw
                (
                  read_block_from-append w.file physical tail entry refl
                      (omega (arith, short, within)) (omega (arith, long))
                      (omega (arith, short, within))
                      (subst (λ l. length l < 2 ^ 63) regroup file_fits),
                  decoded,
                  read,
                )
                refl;
        first = key;
        some_records = some_records;
      }
