-- ===== src/Skiplist/History.antt =====
-- What a read of skiplist.go's list finds after a `Put`.
use hypha_db.Base.{
  ℕ, ◌≤◌, ◌<◌, ◌≡◌, inl, inr, refl, sym, ap, ◌∙◌, subst, Bool, true, false, ◌&&◌, Bool-cases,
  Option-cases, Option, none, some, List, [], ◌∷◌, leb, if◌then◌else◌, arith, All, All-map,
}
use hypha_db.Base.Text.{Text, text_eq, text_eq_refl, text_eq→eq}
use hypha_db.Record.{Record}
use hypha_db.Compaction.Merge.Retention.{find_visible}
use hypha_db.Skiplist.{SkipList, less, put, get_at}
use hypha_db.Skiplist.Layout.{Cell, cell_records}
use hypha_db.Skiplist.Order.{IsAscending, less_cases, less_trans, All-cell_records}
use hypha_db.Skiplist.Reference.{insert_record, same_version, less_apart}
use hypha_db.Skiplist.Insert.{IsSkipList}
use hypha_db.Skiplist.Placed.{put-IsPlaced}
use hypha_db.Skiplist.Reads.{get_at-find_visible}

-- What a reader sees after a record is written, when it has seen `found` before.
unfoldable pub newer_of : Text → ℕ → Record → Option Record → Option Record
newer_of key max_seq rec none =
    if text_eq rec.key key && leb rec.seq max_seq then some rec else none
newer_of key max_seq rec (some r) =
    if (text_eq rec.key key && leb rec.seq max_seq) && leb r.seq rec.seq then some rec else some r

-- What a search finds is one of the records, and has the key.
find_visible-All :
    (P : Record → Type 0) (key : Text) (seq : ℕ) (rs : List Record) (r : Record)
    → All P rs
    → find_visible key seq rs ≡ some r
    → P r × (text_eq r.key key ≡ true)
unfolding find_visible
find_visible-All P key seq [] r h e = absurd (cc e)
find_visible-All P key seq (x ∷ rs) r (p, h) e =
    elim (Bool-cases (text_eq x.key key && leb x.seq seq)) [
      | inl seen ↦
          let same : x ≡ r = let e' = rw seen at e in cc e' in
          let name : text_eq x.key key ≡ true = ground arith in
          (subst P same p, subst (λ (k : Record). text_eq k.key key ≡ true) same name)
      | inr unseen ↦ let e' = rw unseen at e in find_visible-All P key seq rs r h e'
    ]

abbrev seen : Text → ℕ → Record → Bool
seen key seq r = text_eq r.key key && leb r.seq seq

-- A record that comes before all others is the newest that is seen.
newest_first :
    (key : Text) (seq : ℕ) (rec : Record) (rs : List Record)
    → All (λ r. less rec r ≡ true) rs
    → find_visible key seq (rec ∷ rs) ≡ newer_of key seq rec (find_visible key seq rs)
unfolding newer_of find_visible
newest_first key seq rec rs after = elim (Option-cases (find_visible key seq rs)) [
  | inl nothing ↦ rw nothing refl
  | inr (r, found) ↦ elim (Bool-cases (seen key seq rec)) [
    | inr unseen ↦ rw (found, unseen) refl
    | inl is_seen ↦
        let (later, name) = find_visible-All (λ r. less rec r ≡ true) key seq rs r after found in
        let own : text_eq rec.key key ≡ true = ground arith in
        let same : text_eq rec.key r.key ≡ true =
          subst (λ k. text_eq rec.key k ≡ true)
            (text_eq→eq rec.key key own ∙ sym (text_eq→eq r.key key name)) (text_eq_refl rec.key) in
        let older : leb r.seq rec.seq ≡ true =
          less_cases rec r later (λ apart low. absurd (cc (same, apart)))
            (λ e newer. ground arith) in
        rw (found, is_seen, older) refl
  ]
]

-- A record that comes before the new one and is seen hides it.
hides :
    (key : Text) (seq : ℕ) (r rec : Record)
    → less r rec ≡ true
    → seen key seq r ≡ true
    → newer_of key seq rec (some r) ≡ some r
unfolding newer_of
hides key seq r rec low is_seen = elim (Bool-cases (seen key seq rec)) [
  | inr unseen ↦ rw unseen refl
  | inl also ↦
      let name : text_eq r.key key ≡ true = ground arith in
      let other : text_eq rec.key key ≡ true = ground arith in
      let same : text_eq r.key rec.key ≡ true =
        subst (λ k. text_eq r.key k ≡ true)
          (text_eq→eq r.key key name ∙ sym (text_eq→eq rec.key key other)) (text_eq_refl r.key) in
      let newer : leb r.seq rec.seq ≡ false =
        less_cases r rec low (λ apart below. absurd (cc (same, apart))) (λ e above. ground arith) in
      rw (also, newer) refl
]

pub newer_of_unseen :
    (key : Text) (seq : ℕ) (rec : Record) (found : Option Record)
    → seen key seq rec ≡ false
    → newer_of key seq rec found ≡ found
unfolding newer_of
newer_of_unseen key seq rec none unseen = rw unseen refl
newer_of_unseen key seq rec (some r) unseen = rw unseen refl

-- A record in place of the same version.
newest_replaced :
    (key : Text) (seq : ℕ) (r rec : Record) (rs : List Record)
    → r.key ≡ rec.key
    → r.seq ≡ rec.seq
    → find_visible key seq (rec ∷ rs) ≡ newer_of key seq rec (find_visible key seq (r ∷ rs))
unfolding find_visible newer_of
newest_replaced key seq r rec rs name number =
    let alike : seen key seq r ≡ seen key seq rec =
      ap (λ k. text_eq k key && leb r.seq seq) name
      ∙ ap (λ n. text_eq rec.key key && leb n seq) number in
    elim (Bool-cases (seen key seq rec)) [
      | inl is_seen ↦
          let level : leb r.seq rec.seq ≡ true = ground (arith, number) in
          rw (alike, is_seen) (rw (is_seen, level) refl)
      | inr unseen ↦ rw (alike, unseen) (sym (newer_of_unseen key seq rec _ unseen))
    ]

-- The law of an insertion and a search, on the lists.
find_visible-insert_record :
    (key : Text) (seq : ℕ) (rec : Record) (cells : List Cell)
    → IsAscending cells
    → find_visible key seq (insert_record rec (cell_records cells))
      ≡ newer_of key seq rec (find_visible key seq (cell_records cells))
unfolding find_visible insert_record
find_visible-insert_record key seq rec [] asc = newest_first key seq rec [] tt
find_visible-insert_record key seq rec (c ∷ cs) asc =
    let ih = find_visible-insert_record key seq rec cs asc.1 in
    elim (Bool-cases (less c.rec rec)) [
      | inl low ↦ elim (Bool-cases (seen key seq c.rec)) [
        | inl is_seen ↦ rw (low, is_seen) (sym (hides key seq c.rec rec low is_seen))
        | inr unseen ↦ rw (low, unseen) ih
      ]
      | inr not_low ↦ elim (Bool-cases (same_version c.rec rec)) [
        | inl same ↦
            let name = text_eq→eq c.rec.key rec.key (ground arith) in
            let number : c.rec.seq ≡ rec.seq = ground arith in
            rw (not_low, same) (newest_replaced key seq c.rec rec (cell_records cs) name number)
        | inr apart ↦
            let after = less_apart c.rec rec not_low apart in
            let later = All-map _ _ (λ d low. less_trans rec c.rec d.rec after low) cs asc.0 in
            rw (not_low, apart)
              (newest_first key seq rec (cell_records (c ∷ cs))
                (after, All-cell_records (λ r. less rec r ≡ true) cs later))
      ]
    ]

-- A read after a put sees the new record where it is visible and no newer version was, and
-- otherwise what it saw before.
pub get_at-put :
    (s : SkipList) (cells : List Cell) (new_level : ℕ) (rec : Record) (key : Text) (max_seq : ℕ)
    → IsSkipList s cells
    → 0 < new_level
    → new_level ≤ s.max_level
    → get_at (put new_level rec s) key max_seq ≡ newer_of key max_seq rec (get_at s key max_seq)
get_at-put s cells new_level rec key max_seq inv some_level fits =
    let (cells', inv', records, max) = put-IsPlaced s cells new_level rec inv some_level fits in
    get_at-find_visible (put new_level rec s) cells' key max_seq inv'
    ∙ (ap (find_visible key max_seq) records
        ∙ (find_visible-insert_record key max_seq rec cells inv.ascending
            ∙ ap (newer_of key max_seq rec) (sym (get_at-find_visible s cells key max_seq inv))))
