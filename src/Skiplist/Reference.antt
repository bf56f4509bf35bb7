-- ===== src/Skiplist/Reference.antt =====
-- What a skip list promises: the records in order, with one for each version, and how many keys.
use hypha_db.Base.{
  ℕ, suc, ◌≡◌, inl, inr, refl, sym, ap, ◌∙◌, Bool, true, false, ◌&&◌, ◌||◌, Bool-cases, List, [],
  ◌∷◌, ◌++◌, ◌==◌, if◌then◌else◌, arith, All,
}
use hypha_db.Base.Text.{Text, text_eq, text_eq→eq, text_eq_apart}
use hypha_db.Record.{Record}
use hypha_db.Skiplist.{less}
use hypha_db.Skiplist.Order.{less-total}

abbrev pub same_version : Record → Record → Bool
same_version a b = text_eq a.key b.key && (a.seq == b.seq)

-- Of two versions that differ, one is less.
pub less_apart : (a b : Record) → less a b ≡ false → same_version a b ≡ false → less b a ≡ true
less_apart a b not_before apart = elim (Bool-cases (less b a)) [
  | inl after ↦ after
  | inr not_after ↦
      let (key, seq) = less-total a b not_before not_after in absurd (ground (arith, apart))
]

-- A record at its place in the order, in place of the version that it replaces.
unfoldable pub insert_record : Record → List Record → List Record
insert_record rec [] = rec ∷ []
insert_record rec (r ∷ rs) =
    let later = insert_record rec rs in
    if less r rec then r ∷ later else (if same_version r rec then rec ∷ rs else rec ∷ (r ∷ rs))

unfoldable pub has_key : Text → List Record → Bool
has_key key [] = false
has_key key (r ∷ rs) = text_eq r.key key || has_key key rs

-- How many different keys there are.
unfoldable pub count_keys : List Record → ℕ
count_keys [] = 0
count_keys (r ∷ rs) = let rest = count_keys rs in if has_key r.key rs then rest else suc rest

pub insert_record_after :
    (rec : Record) (front back : List Record)
    → All (λ r. less r rec ≡ true) front
    → insert_record rec (front ++ back) ≡ front ++ insert_record rec back
unfolding insert_record
insert_record_after rec [] back h = refl
insert_record_after rec (r ∷ front) back (low, h) =
    rw low (ap (λ t. r ∷ t) (insert_record_after rec front back h))

pub text_eq_sym : (a b : Text) → text_eq a b ≡ text_eq b a
text_eq_sym a b = elim (Bool-cases (text_eq b a)) [
  | inl same ↦ elim (Bool-cases (text_eq a b)) [
    | inl both ↦ both ∙ sym same
    | inr apart ↦ absurd (cc (text_eq_apart a b apart, same))
  ]
  | inr apart ↦ text_eq_apart b a apart ∙ sym apart
]

has_key-insert :
    (key : Text) (front : List Record) (r : Record) (back : List Record)
    → has_key key (front ++ (r ∷ back)) ≡ text_eq r.key key || has_key key (front ++ back)
unfolding has_key
has_key-insert key [] r back = refl
has_key-insert key (x ∷ front) r back = ground (arith, has_key-insert key front r back)

-- A record more is a key more, unless another record has the key.
pub count_keys-insert :
    (front : List Record) (r : Record) (back : List Record)
    → count_keys (front ++ (r ∷ back)) ≡ (
        if has_key r.key (front ++ back)
        then count_keys (front ++ back)
        else suc (count_keys (front ++ back)))
unfolding count_keys has_key
count_keys-insert [] r back = refl
count_keys-insert (x ∷ front) r back =
    let ih = count_keys-insert front r back in
    let has = has_key-insert x.key front r back in
    elim (Bool-cases (text_eq x.key r.key)) [
      | inl same ↦
          let back_same : text_eq r.key x.key ≡ true = text_eq_sym r.key x.key ∙ same in
          let keys : has_key r.key (front ++ back) ≡ has_key x.key (front ++ back) =
            ap (λ k. has_key k (front ++ back)) (sym (text_eq→eq x.key r.key same)) in
          ground (arith, ih, has, back_same, keys)
      | inr apart ↦
          let back_apart : text_eq r.key x.key ≡ false = text_eq_sym r.key x.key ∙ apart in
          ground (arith, ih, has, back_apart)
    ]

-- Only the keys are counted.
pub has_key_replace :
    (key : Text) (front : List Record) (a b : Record) (back : List Record)
    → a.key ≡ b.key
    → has_key key (front ++ (a ∷ back)) ≡ has_key key (front ++ (b ∷ back))
unfolding has_key
has_key_replace key [] a b back e = ap (λ k. text_eq k key || has_key key back) e
has_key_replace key (x ∷ front) a b back e =
    ap (λ t. text_eq x.key key || t) (has_key_replace key front a b back e)

pub count_keys_replace :
    (front : List Record) (a b : Record) (back : List Record)
    → a.key ≡ b.key
    → count_keys (front ++ (a ∷ back)) ≡ count_keys (front ++ (b ∷ back))
count_keys_replace front a b back e =
    count_keys-insert front a back
    ∙ (ap
          (λ k.
            if has_key k (front ++ back)
            then count_keys (front ++ back)
            else suc (count_keys (front ++ back)))
          e
        ∙ sym (count_keys-insert front b back))
