-- ===== src/Sstable/Regions.antt =====
-- The regions of a table that footer.go accepts: what was written is read back, and what is read
-- lies within the file, one region after the other.
use hypha_db.Base.{
  ℕ, ◌+◌, ◌-◌, ◌^◌, ◌≤◌, ◌<◌, ◌≡◌, ◌⊎◌, inl, inr, refl, subst, false, not, Bool-cases, List, ◌++◌,
  length, drop, slice, ltb, ◌==◌, arith, ok, fail_if-elim, >>-elim, ok-injective, length-append,
  drop-append_exact, ge→ltb, ==_iff,
}
use hypha_db.Base.Bytes.{put_le, bytes_equal, get_le-put_le}
use hypha_db.Base.Fields.{byte_at}
use hypha_db.Sstable.Footer.{
  FooterMetadata, OpenFile, footer_size, legacy_format_version, current_format_version, table_magic,
  write_footer, check_filter, check_regions, check_identity, footer_fields, read_footer,
}

-- The index, then the filter if there is one, then the end of the data.
pub record IsLaidOut (index_offset index_length filter_offset filter_length data_end : ℕ)
    : Type 0 where
  pub index_inside : index_offset + index_length ≤ data_end
  pub rest_used :
      ((filter_length ≡ 0) × (filter_offset ≡ 0) × (index_offset + index_length ≡ data_end))
      ⊎ ((0 < filter_length)
          × (filter_offset ≡ index_offset + index_length)
          × (filter_offset + filter_length ≡ data_end))

check_regions-IsLaidOut :
    (io il fo fl data_end : ℕ)
    → IsLaidOut io il fo fl data_end
    → data_end < 2 ^ 64
    → check_regions io il fo fl data_end ≡ ok tt
unfolding check_regions check_filter
check_regions-IsLaidOut io il fo fl data_end h small =
    let inside = h.index_inside in
    elim h.rest_used [
      | inl (empty, zero_offset, full) ↦ ground (arith, empty, zero_offset, full)
      | inr (some_filter, follows, full) ↦ ground (arith, some_filter, follows, full)
    ]

IsLaidOut-check_regions :
    (io il fo fl data_end : ℕ)
    → check_regions io il fo fl data_end ≡ ok tt
    → data_end < 2 ^ 64
    → IsLaidOut io il fo fl data_end
unfolding check_regions check_filter
IsLaidOut-check_regions io il fo fl data_end h small =
    let inside : io + il ≤ data_end = ground arith in
    elim (Bool-cases (fl == 0)) [
      | inl empty ↦ record {
        index_inside = inside;
        rest_used = inl (ground arith, ground arith, ground arith);
      }
      | inr some_filter ↦ record {
        index_inside = inside;
        rest_used = inr (ground arith, ground arith, ground arith);
      }
    ]

check_identity-version :
    (footer : List ℕ)
    → check_identity footer ≡ ok tt
    → (byte_at footer 38 ≡ legacy_format_version) ⊎ (byte_at footer 38 ≡ current_format_version)
unfolding check_identity
check_identity-version footer h = elim (Bool-cases (byte_at footer 38 == legacy_format_version)) [
  | inl legacy ↦ inl ((==_iff _ _).0 legacy)
  | inr not_legacy ↦ elim (Bool-cases (byte_at footer 38 == current_format_version)) [
    | inl current ↦ inr ((==_iff _ _).0 current)
    | inr not_current ↦
        fail_if-elim (not (bytes_equal (slice 32 38 footer) table_magic)) _ _ h
          λ magic h1. absurd (cc (rw (not_legacy, not_current) at h1))
  ]
]

-- A table whose footer is written over regions that lie one after the other up to the footer is
-- read back: `readFooter` returns the four numbers, and format 3.
pub read_footer-write_footer :
    (blocks : List ℕ) (io il fo fl : ℕ)
    → IsLaidOut io il fo fl (length blocks)
    → length blocks < 2 ^ 63
    → read_footer (record {
      bytes = blocks ++ write_footer io il fo fl;
      stat_fails = false;
      read_fails = false;
    })
      ≡ ok (record {
        format_version = current_format_version;
        index_offset = io;
        index_length = il;
        filter_offset = fo;
        filter_length = fl;
      })
unfolding read_footer write_footer check_identity put_le bytes_equal
read_footer-write_footer blocks io il fo fl h small =
    let size : length (blocks ++ write_footer io il fo fl) ≡ length blocks + 40 =
      length-append blocks (write_footer io il fo fl) in
    let long : ltb (length blocks + 40) footer_size ≡ false = ge→ltb _ _ (omega arith) in
    let rest : length blocks + 40 - footer_size ≡ length blocks = omega arith in
    let inside = h.index_inside in
    let io_small : io < 2 ^ 64 = omega arith in
    let il_small : il < 2 ^ 64 = omega arith in
    let fo_small : fo < 2 ^ 64 = elim h.rest_used [
      | inl e ↦ omega (arith, e.1)
      | inr e ↦ omega (arith, e.2)
    ] in
    let fl_small : fl < 2 ^ 64 = elim h.rest_used [
      | inl e ↦ omega (arith, e.0)
      | inr e ↦ omega (arith, e.2)
    ] in
    rw
      (
        size,
        long,
        rest,
        drop-append_exact blocks (write_footer io il fo fl),
        get_le-put_le 8 io io_small,
        get_le-put_le 8 il il_small,
        get_le-put_le 8 fo fo_small,
        get_le-put_le 8 fl fl_small,
        check_regions-IsLaidOut io il fo fl (length blocks) h (omega arith),
      )
      refl

-- A table that `readFooter` accepts, of less than 2^63 bytes, is in format 2 or 3, and cuts into
-- the data before the index, the index, the filter, and the footer, with nothing between the last
-- three; without a filter its offset is 0.
pub read_footer-IsLaidOut :
    (file : OpenFile) (m : FooterMetadata)
    → length file.bytes < 2 ^ 63
    → read_footer file ≡ ok m
    → (footer_size ≤ length file.bytes)
      × ((m.format_version ≡ legacy_format_version) ⊎ (m.format_version ≡ current_format_version))
      × IsLaidOut m.index_offset m.index_length m.filter_offset m.filter_length
          (length file.bytes - footer_size)
unfolding read_footer
read_footer-IsLaidOut file m small h =
    let footer = drop (length file.bytes - footer_size) file.bytes in
    let data_end = length file.bytes - footer_size in
    let f = footer_fields footer in
    let regions =
      check_regions f.index_offset f.index_length f.filter_offset f.filter_length data_end in
    fail_if-elim file.stat_fails _ _ h λ stat h1.
      fail_if-elim (ltb (length file.bytes) footer_size) _ _ h1 λ long h2.
        fail_if-elim file.read_fails _ _ h2 λ readable h3.
          >>-elim (check_identity footer) _ h3 λ identity h4. >>-elim regions _ h4 λ laid_out h5.
            let fits : footer_size ≤ length file.bytes = ground arith in
            let end_small : data_end < 2 ^ 64 = omega arith in
            subst
              (λ r.
                (footer_size ≤ length file.bytes)
                × ((r.format_version ≡ legacy_format_version)
                    ⊎ (r.format_version ≡ current_format_version))
                × IsLaidOut r.index_offset r.index_length r.filter_offset r.filter_length data_end)
              (ok-injective h5)
              (
                fits,
                check_identity-version footer identity,
                IsLaidOut-check_regions f.index_offset f.index_length f.filter_offset
                    f.filter_length data_end laid_out end_small,
              )
