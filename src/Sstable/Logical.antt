-- ===== src/Sstable/Logical.antt =====
-- The cursor over a block gives the records that were written into it.
use hypha_db.Base.{
  ℕ, zero, suc, ◌+◌, ◌-◌, ◌%◌, ◌^◌, ◌<◌, ◌≡◌, inl, inr, refl, sym, ap, ◌∙◌, true, false, none, some,
  List, [], ◌∷◌, ◌++◌, map, length, take, drop, slice, ◌==◌, arith, Option, Option-cases,
  ok-injective, ok, All, drop-drop, append_assoc, length-append, take-append_exact,
  drop-append_exact, ==_refl,
}
use hypha_db.Record.{Record, encoded_size, encode_binary}
use hypha_db.Record.RoundTrip.{IsEncodable, plain, length-encode_binary}
use hypha_db.Sstable.Cursor.{Cursor, cursor_next, read_records, finished}
use hypha_db.Sstable.View.{decode_record_view-encode_binary}

unfoldable pub encode_all : List Record → List ℕ
encode_all [] = []
encode_all (r ∷ rs) = encode_binary r ++ encode_all rs

-- A cursor that has not failed, at a record.
abbrev standing : Cursor → ℕ → ℕ → Cursor
standing c i o = record c { index = i; offset = o; failed = none }

cursor_next-standing :
    (c : Cursor) (i o : ℕ) (rec : Record) (rest : List ℕ)
    → IsEncodable rec
    → (i == c.count) ≡ false
    → slice o c.records_end c.data_bytes ≡ encode_binary rec ++ rest
    → cursor_next (standing c i o)
      ≡ (some (plain rec), standing c ((i + 1) % 2 ^ 32) (o + encoded_size rec))
unfolding cursor_next
cursor_next-standing c i o rec rest fits more here =
    rw (more, here, decode_record_view-encode_binary rec rest fits) refl

cursor_next_end :
    (c : Cursor) (o : ℕ)
    → o ≡ c.records_end
    → cursor_next (standing c c.count o) ≡ (none, standing c c.count o)
unfolding cursor_next
cursor_next_end c o e =
    let here : (o == c.records_end) ≡ true = ground (arith, e) in rw (==_refl c.count, here) refl

apart : (i n : ℕ) → i < n → (i == n) ≡ false
apart i n h = ground arith

abbrev read_round : ℕ → Option Record × Cursor → List Record × Cursor
read_round fuel p = elim p.0 [
  | none ↦ ([], p.1)
  | some rec ↦ (rec ∷ (read_records fuel p.1).0, (read_records fuel p.1).1)
]

read_records-round :
    (fuel : ℕ) (c : Cursor) → read_records (suc fuel) c ≡ read_round fuel (cursor_next c)
unfolding read_records
read_records-round fuel c = refl

finished_cons :
    (rec : Record) (p : List Record × Cursor) (rs : List Record)
    → finished p ≡ ok rs
    → finished (rec ∷ p.0, p.1) ≡ ok (rec ∷ rs)
unfolding finished
finished_cons rec p rs e = elim (Option-cases p.1.failed) [
  | inl fine ↦
      let same : p.0 ≡ rs = ok-injective (rw fine at e) in rw fine (ap (λ t. ok (rec ∷ t)) same)
  | inr (bad, failed) ↦ absurd (cc (rw failed at e))
]

-- The loop reads what is left, when the bytes from the offset on are its encoding.
pub finished-read_records :
    (c : Cursor) (tail : List ℕ) (rs : List Record) (fuel i o : ℕ)
    → All IsEncodable rs
    → c.count < 2 ^ 32
    → c.count ≡ i + length rs
    → drop o c.data_bytes ≡ encode_all rs ++ tail
    → c.records_end ≡ o + length (encode_all rs)
    → length rs < fuel
    → finished (read_records fuel (standing c i o)) ≡ ok (map plain rs)
unfolding encode_all finished
finished-read_records c tail rs zero i o fits small counted here end enough = absurd (omega arith)
finished-read_records c tail [] (suc fuel) i o fits small counted here end enough =
    let last : i ≡ c.count = omega arith in
    ap (λ k. finished (read_records (suc fuel) (standing c k o))) last
    ∙ (ap finished (read_records-round fuel (standing c c.count o))
        ∙ ap (λ p. finished (read_round fuel p)) (cursor_next_end c o (omega arith)))
finished-read_records c tail (r ∷ rs) (suc fuel) i o (fit, fits) small counted here end enough =
    let more = apart i c.count (omega arith) in
    let size = length-encode_binary r in
    let both = length-append (encode_binary r) (encode_all rs) in
    let exact : slice o c.records_end c.data_bytes ≡ encode_binary r ++ encode_all rs =
      ap (λ l. take (c.records_end - o) l) here
      ∙ (ap (λ n. take n ((encode_binary r ++ encode_all rs) ++ tail)) (omega (arith, end))
          ∙ take-append_exact (encode_binary r ++ encode_all rs) tail) in
    let step = cursor_next-standing c i o r (encode_all rs) fit more exact in
    let next_index : (i + 1) % 2 ^ 32 ≡ i + 1 = omega arith in
    let next_here : drop (o + encoded_size r) c.data_bytes ≡ encode_all rs ++ tail =
      sym (drop-drop (encoded_size r) o c.data_bytes)
      ∙ (ap (drop (encoded_size r)) here
          ∙ (ap (drop (encoded_size r)) (append_assoc (encode_binary r) (encode_all rs) tail)
              ∙ (ap (λ n. drop n (encode_binary r ++ (encode_all rs ++ tail))) (sym size)
                  ∙ drop-append_exact (encode_binary r) (encode_all rs ++ tail)))) in
    let ih =
      finished-read_records c tail rs fuel (i + 1) (o + encoded_size r) fits small (omega arith)
        next_here (omega (arith, end, both, size)) (omega arith) in
    ap finished (read_records-round fuel (standing c i o))
    ∙ (ap (λ p. finished (read_round fuel p)) step
        ∙ (ap (λ k. finished (read_round fuel (some (plain r), standing c k (o + encoded_size r))))
              next_index
            ∙ finished_cons (plain r) (read_records fuel (standing c (i + 1) (o + encoded_size r)))
                (map plain rs) ih))
