-- ===== src/Sstable/Stored.antt =====
-- A block that is stored is read back, compressed or not.
use hypha_db.Base.{
  ℕ, ◌-◌, ◌%◌, ◌^◌, ◌≤◌, ◌<◌, ◌≡◌, inl, inr, refl, ap, ◌∙◌, subst, Bool, true, false, ◌||◌,
  Bool-cases, none, some, Option, List, [], ◌∷◌, ◌++◌, length, take, drop, ltb, leb, ◌==◌, arith,
  ok, err, ok-injective, fail_if-elim, map_err, >>=-elim, map_err-eq-ok, length-append,
  take-append_exact, drop-append_exact, ge→ltb, ==_refl,
}
use hypha_db.Base.Bytes.{IsU32, put_le, get_le-put_le, length-put_le}
use hypha_db.Compression.{
  Codec, none_codec, lz4_codec, compress_failed, Lz4, compress, decompress, compress_lz4,
  decompress_lz4,
}
use hypha_db.Sstable.Physical.{
  BlockHeader, compression, max_block_size, should_compress, stored_payload, block_header_bytes,
  encode_physical_block, parse_block_header, decode_physical_block,
}

-- What the LZ4 package documents: what it has compressed is decompressed into a buffer of the size
-- of the source.
pub record IsLossless (lz4 : Lz4) : Type 0 where
  pub restores :
      (bytes : List ℕ) (c : ℕ) (cs : List ℕ)
      → lz4.compress_block bytes ≡ some (c ∷ cs)
      → lz4.uncompress_block (c ∷ cs) (length bytes) ≡ some bytes

module _ (lz4 : Lz4) (lossless : IsLossless lz4) where
  decompress_lz4-compress_lz4 :
      (logical compressed : List ℕ)
      → compress_lz4 lz4 logical ≡ ok compressed
      → length compressed < length logical
      → decompress_lz4 lz4 compressed (length logical) ≡ ok logical
  unfolding compress_lz4 decompress_lz4
  decompress_lz4-compress_lz4 [] compressed e smaller = absurd (omega arith)
  decompress_lz4-compress_lz4 (b ∷ bs) compressed e smaller =
      go (lz4.compress_block (b ∷ bs)) refl e
    where
      go :
          (o : Option (List ℕ))
          → lz4.compress_block (b ∷ bs) ≡ o
          → (elim o [
            | none ↦ err compress_failed
            | some [] ↦ ok (b ∷ bs)
            | some (c ∷ cs) ↦ ok (c ∷ cs)
          ])
            ≡ ok compressed
          → decompress_lz4 lz4 compressed (length (b ∷ bs)) ≡ ok (b ∷ bs)
      go none q h = absurd (cc h)
      go (some []) q h =
          let same : b ∷ bs ≡ compressed = ok-injective h in
          let size : length (b ∷ bs) ≡ length compressed = ap (λ l. length l) same in
          absurd (omega (arith, size, smaller))
      go (some (c ∷ cs)) q h =
          let same : c ∷ cs ≡ compressed = ok-injective h in
          let raw = lossless.restores (b ∷ bs) c cs q in
          subst (λ l. decompress_lz4 lz4 l (length (b ∷ bs)) ≡ ok (b ∷ bs)) same
            (rw (raw, ==_refl (length (b ∷ bs)), decompress_lz4) refl)

  decompress-compress :
      (logical compressed : List ℕ) (codec : Codec)
      → compress lz4 logical codec ≡ ok compressed
      → (codec == none_codec) ≡ false
      → length compressed < length logical
      → decompress lz4 compressed (length logical) codec ≡ ok logical
  unfolding compress decompress
  decompress-compress logical compressed codec e coded smaller =
      elim (Bool-cases (codec == lz4_codec)) [
        | inl is_lz4 ↦
            let run : compress_lz4 lz4 logical ≡ ok compressed = rw (coded, is_lz4) at e in
            rw (coded, is_lz4) (decompress_lz4-compress_lz4 logical compressed run smaller)
        | inr other ↦ let fails = rw (coded, other) at e in absurd (cc fails)
      ]

  decompress_none :
      (logical : List ℕ)
      → length logical < 2 ^ 32
      → decompress lz4 logical (length logical) none_codec ≡ ok logical
  unfolding decompress
  decompress_none logical fits =
      let same : (length logical % 2 ^ 32 == length logical) ≡ true = ground arith in rw same refl

  -- The codec and the payload give the block back.
  abbrev IsStored : List ℕ → Codec × List ℕ → Type 0
  IsStored logical p = (decompress lz4 p.1 (length logical) p.0 ≡ ok logical) × (p.0 < 256)

  stored_payload-IsStored :
      (savings : ℕ → ℕ → Bool) (logical : List ℕ) (requested : Codec) (p : Codec × List ℕ)
      → stored_payload lz4 savings logical requested ≡ ok p
      → requested < 256
      → length logical < 2 ^ 32
      → IsStored logical p
  unfolding stored_payload should_compress
  stored_payload-IsStored savings logical requested p e byte fits =
      let plain_IsStored : IsStored logical (none_codec, logical) =
        (decompress_none logical fits, omega arith) in
      elim (Bool-cases (requested == none_codec)) [
        | inl plain ↦ subst (IsStored logical) (ok-injective (rw plain at e)) plain_IsStored
        | inr coded ↦
            >>=-elim (map_err compression (compress lz4 logical requested)) _ (rw coded at e)
              λ compressed run e1.
                elim (Bool-cases
                  ((length logical == 0) || leb (length logical) (length compressed))) [
                    | inl kept ↦
                        subst (IsStored logical) (ok-injective (rw kept at e1)) plain_IsStored
                    | inr smaller ↦
                        elim (Bool-cases (savings (length logical) (length compressed))) [
                          | inr kept ↦
                              subst (IsStored logical) (ok-injective (rw (smaller, kept) at e1))
                                plain_IsStored
                          | inl saves ↦
                              subst (IsStored logical) (ok-injective (rw (smaller, saves) at e1)) (
                                decompress-compress logical compressed requested
                                    (map_err-eq-ok compression _ run) coded (ground arith),
                                byte,
                              )
                        ]
                  ]
      ]

  module _ (checksum : List ℕ → ℕ) (words : (bytes : List ℕ) → IsU32 (checksum bytes)) where
    -- The stored form of a payload.
    abbrev stored : Codec → ℕ → List ℕ → List ℕ
    stored codec raw_len payload =
        let summed = block_header_bytes (record { codec = codec; raw_len = raw_len }) ++ payload in
        summed ++ put_le 4 (checksum summed)

    pub length-block_header_bytes : (header : BlockHeader) → length (block_header_bytes header) ≡ 5
    unfolding block_header_bytes put_le
    length-block_header_bytes header = refl

    parse_block_header-stored :
        (codec raw_len : ℕ) (payload : List ℕ)
        → codec < 256
        → raw_len < 2 ^ 32
        → parse_block_header (stored codec raw_len payload)
          ≡ record { codec = codec; raw_len = raw_len }
    unfolding parse_block_header block_header_bytes put_le
    parse_block_header-stored codec raw_len payload byte fits =
        let word = get_le-put_le 4 raw_len (omega arith) in
        let first : codec % 256 ≡ codec = omega arith in
        λ i. record { codec = first i; raw_len = word i }

    -- The bytes between the header and the checksum.
    payload-stored :
        (codec raw_len : ℕ) (payload : List ℕ)
        → let summed =
            block_header_bytes (record { codec = codec; raw_len = raw_len }) ++ payload in
          take (length summed - 5) (drop 5 (stored codec raw_len payload)) ≡ payload
    unfolding block_header_bytes put_le
    payload-stored codec raw_len payload =
        let summed = block_header_bytes (record { codec = codec; raw_len = raw_len }) ++ payload in
        let size : length summed - 5 ≡ length payload = omega arith in
        ap (λ n. take n (payload ++ put_le 4 (checksum summed))) size
        ∙ take-append_exact payload (put_le 4 (checksum summed))

    pub decode-stored :
        (codec : Codec) (payload logical : List ℕ)
        → IsStored logical (codec, payload)
        → length logical ≤ max_block_size
        → decode_physical_block checksum lz4 (stored codec (length logical) payload) ≡ ok logical
    unfolding decode_physical_block
    decode-stored codec payload logical (restores, byte) fits =
        let header : BlockHeader = record { codec = codec; raw_len = length logical } in
        let summed = block_header_bytes header ++ payload in
        let tail = put_le 4 (checksum summed) in
        let head_size = length-block_header_bytes header in
        let tail_size = length-put_le 4 (checksum summed) in
        let summed_size = length-append (block_header_bytes header) payload in
        let whole_size = length-append summed tail in
        let offset : length (summed ++ tail) - 4 ≡ length summed =
          omega (arith, whole_size, tail_size) in
        let small : ltb (length (summed ++ tail)) 9 ≡ false =
          ge→ltb _ _ (omega (arith, whole_size, tail_size, summed_size, head_size)) in
        rw
          (
            small,
            offset,
            drop-append_exact summed tail,
            take-append_exact summed tail,
            get_le-put_le 4 (checksum summed) (let word = words summed in omega (arith, word)),
            ==_refl (checksum summed),
            parse_block_header-stored codec (length logical) payload byte (omega arith),
            ge→ltb max_block_size (length logical) fits,
            payload-stored codec (length logical) payload,
            restores,
          )
          refl

    -- What `encodePhysicalBlock` makes of a block, whatever codec is asked for and whatever savings
    -- are enough, `decodePhysicalBlock` turns into the same block.
    pub decode_physical_block-encode_physical_block :
        (savings : ℕ → ℕ → Bool) (logical : List ℕ) (requested : Codec) (physical : List ℕ)
        → requested < 256
        → encode_physical_block checksum lz4 savings logical requested ≡ ok physical
        → decode_physical_block checksum lz4 physical ≡ ok logical
    unfolding encode_physical_block
    decode_physical_block-encode_physical_block savings logical requested physical byte e =
        fail_if-elim (ltb max_block_size (length logical)) _ _ e λ within e1.
          >>=-elim (stored_payload lz4 savings logical requested) _ e1 λ p run e2.
            let fits : length logical ≤ max_block_size = ground arith in
            let is = stored_payload-IsStored savings logical requested p run byte (omega arith) in
            let small : length logical % 2 ^ 32 ≡ length logical = omega arith in
            let made = ok-injective e2 in
            subst (λ l. decode_physical_block checksum lz4 l ≡ ok logical) made
              (rw small (decode-stored p.0 p.1 logical is fits))
