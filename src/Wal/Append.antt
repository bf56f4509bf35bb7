-- ===== src/Wal/Append.antt =====
-- What a write that may fail half-way leaves of the frames behind a segment.
use hypha_db.Base.{
  ℕ, zero, suc, ◌+◌, ◌≡◌, ◌⊎◌, inl, inr, refl, sym, ap, ◌∙◌, subst, Bool, Bool-cases, true, false,
  take-all, Result-cases, List, [], ◌∷◌, ◌++◌, append_assoc, append-nil, length, take, drop-cons,
  take-drop, leb, Result, ok, err, arith, All, dec_le,
}
use hypha_db.Record.{Record}
use hypha_db.Wal.{
  WalError, write_failed, Segment, encode_record, append_bytes, frame, write_record, write_records,
  and_then, sync_batch, after_power_loss,
}
use hypha_db.Wal.Replay.{IsWritable, payload_of, encode_record-IsWritable, log_bytes}

-- What writing `bs` behind `old` has left, with the result: all of it, or a strict beginning.
pub data Appended (old bs : List ℕ) : Result WalError Unit → List ℕ → Type 0 where
  whole : {file : List ℕ} → file ≡ old ++ bs → Appended old bs (ok tt) file
  cut :
      {file : List ℕ} (front : List ℕ) (x : ℕ) (back : List ℕ)
      → bs ≡ front ++ (x ∷ back)
      → file ≡ old ++ front
      → Appended old bs (err write_failed) file

append_bytes-Appended :
    (bs : List ℕ) (s : Segment)
    → Appended s.file bs (append_bytes bs s).0 (append_bytes bs s).1.file
unfolding append_bytes
append_bytes-Appended bs s = elim (dec_le (length bs) s.space) [
  | yes fits ↦ let t : leb (length bs) s.space ≡ true = ground arith in rw t (whole refl)
  | no full ↦
      let t : leb (length bs) s.space ≡ false = ground arith in
      let (x, back, e) = drop-cons s.space bs (omega arith) in
      rw t (
        cut (take s.space bs) x back (sym (take-drop s.space bs) ∙ ap (λ u. take s.space bs ++ u) e)
          refl)
]

-- Appending after a whole write, and behind a cut one.
Appended-then :
    (old bs more mid : List ℕ) (r : Result WalError Unit) (file : List ℕ)
    → mid ≡ old ++ bs
    → Appended mid more r file
    → Appended old (bs ++ more) r file
Appended-then old bs more mid _ file e (whole f) =
    whole (f ∙ ap (λ u. u ++ more) e ∙ append_assoc old bs more)
Appended-then old bs more mid _ file e (cut front x back split f) =
    cut (bs ++ front) x back (ap (λ u. bs ++ u) split ∙ sym (append_assoc bs front (x ∷ back)))
      (f ∙ ap (λ u. u ++ front) e ∙ append_assoc old bs front)

Appended-and_then :
    (old bs more : List ℕ) (p : Result WalError Unit × Segment)
    (rest : Segment → Result WalError Unit × Segment)
    → Appended old bs p.0 p.1.file
    → ((s : Segment) → Appended s.file more (rest s).0 (rest s).1.file)
    → Appended old (bs ++ more) (and_then p rest).0 (and_then p rest).1.file
unfolding and_then
Appended-and_then old bs more (ok u, s) rest (whole e) next =
    Appended-then old bs more s.file _ _ e (next s)
Appended-and_then old bs more (err x, s) rest (cut front y back split e) next =
    cut front y (back ++ more) (ap (λ u. u ++ more) split ∙ append_assoc front (y ∷ back) more) e

-- A beginning of a list is all of it, or a strict one.
take-cases {ℓ} :
    {A : Type ℓ} (n : ℕ) (xs : List A)
    → (take n xs ≡ xs) ⊎ ((x : A) × (back : List A) × (xs ≡ take n xs ++ (x ∷ back)))
take-cases n xs = elim (dec_le (length xs) n) [
  | yes all ↦ inl (take-all n xs all)
  | no fewer ↦
      let (x, back, e) = drop-cons n xs (omega arith) in
      inr (x, back, sym (take-drop n xs) ∙ ap (λ u. take n xs ++ u) e)
]

take-append_beyond {ℓ} :
    {A : Type ℓ} (n m : ℕ) (xs ys : List A)
    → m ≡ length xs + n
    → take m (xs ++ ys) ≡ xs ++ take n ys
take-append_beyond n m [] ys e = let same : m ≡ n = omega (arith, e) in ap (λ k. take k ys) same
take-append_beyond n zero (x ∷ xs) ys e = absurd (omega (arith, e))
take-append_beyond n (suc m) (x ∷ xs) ys e =
    ap (λ t. x ∷ t) (take-append_beyond n m xs ys (omega (arith, e)))

-- A beginning of what was appended is appended, with one result or the other.
Appended-take :
    (old bs : List ℕ) (r : Result WalError Unit) (file : List ℕ) (n m : ℕ)
    → m ≡ length old + n
    → Appended old bs r file
    → (r' : Result WalError Unit) × Appended old bs r' (take m file)
Appended-take old bs _ file n m e (whole f) =
    let kept = ap (take m) f ∙ take-append_beyond n m old bs e in
    elim (take-cases n bs) [
      | inl all ↦ (ok tt, whole (kept ∙ ap (λ u. old ++ u) all))
      | inr (x, back, split) ↦ (err write_failed, cut (take n bs) x back split kept)
    ]
Appended-take old bs _ file n m e (cut front x back split f) =
    let kept = ap (take m) f ∙ take-append_beyond n m old front e in
    elim (take-cases n front) [
      | inl all ↦ (err write_failed, cut front x back split (kept ∙ ap (λ u. old ++ u) all))
      | inr (y, more, split') ↦ (
        err write_failed,
        cut (take n front) y (more ++ (x ∷ back))
            (split
              ∙ ap (λ u. u ++ (x ∷ back)) split'
              ∙ append_assoc (take n front) (y ∷ more) (x ∷ back))
            kept,
      )
    ]

append_bytes-synced : (bs : List ℕ) (s : Segment) → (append_bytes bs s).1.synced ≡ s.synced
unfolding append_bytes
append_bytes-synced bs s = elim (Bool-cases (leb (length bs) s.space)) [
  | inl fits ↦ rw fits refl
  | inr full ↦ rw full refl
]

and_then-synced :
    (n : ℕ) (p : Result WalError Unit × Segment) (rest : Segment → Result WalError Unit × Segment)
    → p.1.synced ≡ n
    → ((s : Segment) → (rest s).1.synced ≡ s.synced)
    → (and_then p rest).1.synced ≡ n
unfolding and_then
and_then-synced n (ok u, s) rest e next = next s ∙ e
and_then-synced n (err x, s) rest e next = e

-- `Sync` leaves the file as it is.
pub sync_batch-file :
    (sync sync_works : Bool) (p : Result WalError Unit × Segment)
    → (sync_batch sync sync_works p).1.file ≡ p.1.file
unfolding sync_batch
sync_batch-file sync sync_works (err e, s) = refl
sync_batch-file false sync_works (ok u, s) = refl
sync_batch-file true false (ok u, s) = refl
sync_batch-file true true (ok u, s) = refl

pub sync_batch-write_failed :
    (sync sync_works : Bool) (p : Result WalError Unit × Segment)
    → p.0 ≡ err write_failed
    → (sync_batch sync sync_works p).0 ≡ err write_failed
unfolding sync_batch
sync_batch-write_failed sync sync_works (err e, s) failed = failed
sync_batch-write_failed sync sync_works (ok u, s) failed = absurd (cc failed)

-- A result that does not promise that the batch is durable.
abbrev pub Unpromised : Bool → Result WalError Unit → Type 0
Unpromised sync result = (sync ≡ false) ⊎ (¬ (result ≡ ok tt))

-- After a power failure the file is a beginning of what was appended, and all of it where the
-- result promises so.
pub sync_batch-Appended :
    (old bs : List ℕ) (sync sync_works : Bool) (survived : ℕ) (p : Result WalError Unit × Segment)
    → p.1.synced ≡ length old
    → Appended old bs p.0 p.1.file
    → (r : Result WalError Unit) × Appended old bs r
        (after_power_loss survived (sync_batch sync sync_works p).1)
      × (r ≡ err write_failed → Unpromised sync (sync_batch sync sync_works p).0)
unfolding sync_batch after_power_loss
sync_batch-Appended old bs sync sync_works survived (err e, s) durable app =
    let (r, left) = Appended-take old bs _ s.file survived _ (ap (λ n. n + survived) durable) app in
    (r, left, λ cut_short. inr (λ promised. cc promised))
sync_batch-Appended old bs false sync_works survived (ok u, s) durable app =
    let (r, left) = Appended-take old bs _ s.file survived _ (ap (λ n. n + survived) durable) app in
    (r, left, λ cut_short. inl refl)
sync_batch-Appended old bs true false survived (ok u, s) durable app =
    let (r, left) = Appended-take old bs _ s.file survived _ (ap (λ n. n + survived) durable) app in
    (r, left, λ cut_short. inr (λ promised. cc promised))
sync_batch-Appended old bs true true survived (ok u, s) durable app = (
  ok u,
  subst (Appended old bs (ok u)) (sym (take-all (length s.file + survived) s.file (omega arith)))
      app,
  λ cut_short. absurd (cc cut_short),
)

module _ (crc32c : List ℕ → ℕ) where
  write_record-Appended :
      (rec : Record) (s : Segment)
      → IsWritable rec
      → Appended s.file
          (frame crc32c (payload_of rec))
          (write_record crc32c rec s).0
          (write_record crc32c rec s).1.file
  unfolding write_record
  write_record-Appended rec s w =
      rw (encode_record-IsWritable rec w, write_record)
        (append_bytes-Appended (frame crc32c (payload_of rec)) s)

  write_record-synced :
      (rec : Record) (s : Segment) → (write_record crc32c rec s).1.synced ≡ s.synced
  unfolding write_record
  write_record-synced rec s = elim (Result-cases (encode_record rec)) [
    | inr (e, fails) ↦ rw (fails, write_record) refl
    | inl (payload, works) ↦ rw (works, write_record) (append_bytes-synced (frame crc32c payload) s)
  ]

  -- `WriteRecord` on writable records, one after another, appends their frames, or a strict
  -- beginning of them and reports that the write failed.
  pub write_records-Appended :
      (recs : List Record) (s : Segment)
      → All IsWritable recs
      → Appended s.file
          (log_bytes crc32c recs)
          (write_records crc32c recs s).0
          (write_records crc32c recs s).1.file
  unfolding write_records log_bytes
  write_records-Appended [] s w = whole (sym (append-nil s.file))
  write_records-Appended (rec ∷ recs) s (w, ws) =
      Appended-and_then s.file (frame crc32c (payload_of rec)) (log_bytes crc32c recs)
        (write_record crc32c rec s) (write_records crc32c recs) (write_record-Appended rec s w)
        (λ s'. write_records-Appended recs s' ws)

  pub write_records-synced :
      (recs : List Record) (s : Segment) → (write_records crc32c recs s).1.synced ≡ s.synced
  unfolding write_records
  write_records-synced [] s = refl
  write_records-synced (rec ∷ recs) s =
      and_then-synced s.synced (write_record crc32c rec s) (write_records crc32c recs)
        (write_record-synced rec s) (λ s'. write_records-synced recs s')
