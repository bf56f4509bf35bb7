-- ===== src/Sstable/Built.antt =====
-- A block of writer.go is read back record by record.
use native.Mathlib.Nat.{add-mul-mod_self_right, mod-eq_of_lt, mod_self, add-mul}
use hypha_db.Base.{
  ℕ, ◌+◌, ◌*◌, ◌%◌, ◌^◌, ◌≤◌, ◌<◌, ◌≡◌, inl, inr, refl, sym, ap, ◌∙◌, true, false, Bool-cases, List,
  [], ◌∷◌, ◌++◌, length, ltb, ◌==◌, arith, All, All-map, All-append, append_assoc, append-nil,
  length-append, ltb→lt, ==_iff,
}
use hypha_db.Base.Text.{Text}
use hypha_db.Record.{Record, encoded_size, encode_binary}
use hypha_db.Record.RoundTrip.{length-encode_binary}
use hypha_db.Sstable.Writer.{Building, start_block, append_record}
use hypha_db.Sstable.Logical.{encode_all}
use hypha_db.Sstable.Restarts.{Rising, Rising-append_one}

-- The records of a block under construction, which has at least one.
pub record IsBuilt (interval : ℕ) (b : Building) (rs : List Record) : Type 0 where
  pub bytes : b.buffer ≡ 0 ∷ 0 ∷ 0 ∷ 0 ∷ encode_all rs
  pub count : b.record_count ≡ length rs
  pub later_restarts : List ℕ
  pub restarts : b.restarts ≡ 4 ∷ later_restarts
  pub rising : Rising 4 later_restarts
  pub inside : All (λ r. r < length b.buffer) (4 ∷ later_restarts)
  pub groups : ℕ
  pub last_group : ℕ
  pub grouped : length rs ≡ last_group + groups * interval
  pub some_last : 0 < last_group
  pub last_fits : last_group ≤ interval
  pub restart_count : length later_restarts ≡ groups

encode_all-append :
    (rs : List Record) (r : Record) → encode_all (rs ++ (r ∷ [])) ≡ encode_all rs ++ encode_binary r
unfolding encode_all
encode_all-append [] r = append-nil (encode_binary r)
encode_all-append (x ∷ rs) r =
    ap (λ t. encode_binary x ++ t) (encode_all-append rs r)
    ∙ sym (append_assoc (encode_binary x) (encode_all rs) (encode_binary r))

pub start_block-IsBuilt :
    (interval : ℕ) (key : Text) (r : Record)
    → 0 < interval
    → IsBuilt interval (append_record true r (start_block key)) (r ∷ [])
unfolding append_record start_block encode_all
start_block-IsBuilt interval key r some_interval = record {
  bytes = ap (λ l. 0 ∷ 0 ∷ 0 ∷ 0 ∷ l) (sym (append-nil (encode_binary r)));
  count = refl;
  later_restarts = [];
  restarts = refl;
  rising = tt;
  inside = ((let size = length-encode_binary r in unfold encoded_size in omega (arith, size)), tt);
  groups = 0;
  last_group = 1;
  grouped = omega arith;
  some_last = omega arith;
  last_fits = omega arith;
  restart_count = refl;
}

full_group : (n k : ℕ) → 0 < n → n ≤ k → n % k ≡ 0 → n ≡ k
full_group n k some_left fits left = elim (Bool-cases (ltb n k)) [
  | inl below ↦
      let same : n % k ≡ n = mod-eq_of_lt {n = n} {m = k} (ltb→lt n k below) in
      absurd (omega (arith, same, left, some_left))
  | inr not_below ↦ ground arith
]

open_group : (n k : ℕ) → n ≤ k → (n % k == 0) ≡ false → n < k
open_group n k fits left = elim (Bool-cases (ltb n k)) [
  | inl below ↦ ltb→lt n k below
  | inr not_below ↦
      let same : n ≡ k = ground arith in
      let whole : n % k ≡ 0 = ap (λ m. m % k) same ∙ mod_self k in
      absurd (cc (left, ap (λ m. m == 0) whole))
]

-- One record more, with a restart where the count is a multiple of the interval.
pub append_record-IsBuilt :
    (interval : ℕ) (b : Building) (rs : List Record) (r : Record)
    → IsBuilt interval b rs
    → length b.buffer < 2 ^ 32
    → IsBuilt interval (append_record (b.record_count % interval == 0) r b) (rs ++ (r ∷ []))
unfolding append_record
append_record-IsBuilt interval b rs r built small =
    let size = length-encode_binary r in
    let grows = length-append b.buffer (encode_binary r) in
    let counted = built.count in
    let grouped = built.grouped in
    let one_more = length-append rs (r ∷ []) in
    let remainder : b.record_count % interval ≡ built.last_group % interval =
      ap (λ n. n % interval) (counted ∙ grouped)
      ∙ add-mul-mod_self_right built.last_group built.groups interval in
    let bytes : b.buffer ++ encode_binary r ≡ 0 ∷ 0 ∷ 0 ∷ 0 ∷ encode_all (rs ++ (r ∷ [])) =
      ap (λ l. l ++ encode_binary r) built.bytes
      ∙ ap (λ l. 0 ∷ 0 ∷ 0 ∷ 0 ∷ l) (sym (encode_all-append rs r)) in
    let inside : All (λ x. x < length (b.buffer ++ encode_binary r)) (4 ∷ built.later_restarts) =
      All-map _ _ (λ x low. omega (arith, grows, low)) (4 ∷ built.later_restarts) built.inside in
    let last_fits = built.last_fits in
    elim (Bool-cases (b.record_count % interval == 0)) [
      | inl due ↦
          let full : built.last_group ≡ interval =
            full_group built.last_group interval built.some_last last_fits (
              let zero_left = (==_iff (b.record_count % interval) 0).0 due in
              sym remainder ∙ zero_left) in
          let place : length b.buffer % 2 ^ 32 ≡ length b.buffer = omega arith in
          let next = add-mul built.groups 1 interval in
          let above = built.inside in
          let more = length-append built.later_restarts (length b.buffer ∷ []) in
          let restart_count = built.restart_count in
          rw due (record {
            bytes = bytes;
            count = omega (arith, counted, one_more);
            later_restarts = built.later_restarts ++ (length b.buffer ∷ []);
            restarts =
                ap (λ n. b.restarts ++ (n ∷ [])) place
                ∙ ap (λ l. l ++ (length b.buffer ∷ [])) built.restarts;
            rising =
                Rising-append_one 4 built.later_restarts (length b.buffer) built.rising above.0
                  above.1;
            inside = (
              inside.0,
              All-append _ built.later_restarts (length b.buffer ∷ []) inside.1
                  ((unfold encoded_size in omega (arith, grows, size)), tt),
            );
            groups = built.groups + 1;
            last_group = 1;
            grouped = omega (arith, one_more, grouped, full, next);
            some_last = omega arith;
            last_fits = let some_last = built.some_last in omega (arith, some_last, last_fits);
            restart_count = omega (arith, more, restart_count);
          })
      | inr not_due ↦
          let room : built.last_group < interval =
            open_group built.last_group interval last_fits (rw remainder at not_due) in
          rw not_due (record {
            bytes = bytes;
            count = omega (arith, counted, one_more);
            later_restarts = built.later_restarts;
            restarts = built.restarts;
            rising = built.rising;
            inside = inside;
            groups = built.groups;
            last_group = built.last_group + 1;
            grouped = omega (arith, one_more, grouped);
            some_last = omega arith;
            last_fits = omega (arith, room);
            restart_count = built.restart_count;
          })
    ]
