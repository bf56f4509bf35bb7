-- ===== src/Db/Prefix.antt =====
-- internal/db/iterator.go: the bounds of a scan, and the end of a prefix.
use hypha_db.Base.{
  ℕ, zero, suc, ◌+◌, ◌≤◌, ◌<◌, ◌≡◌, inl, inr, refl, sym, Bool, true, false, not, ◌&&◌, Bool-cases,
  List, [], ◌∷◌, length, take, set, ◌==◌, if◌then◌else◌, arith, All, suc-eq-zero,
}
use hypha_db.Base.Bytes.{IsByte}
use hypha_db.Base.Text.{Text, text_lt, text_le}
use hypha_db.Base.Fields.{byte_at}

-- A bound that is the empty string is none.
abbrev pub is_set : Text → Bool
is_set bound = not (length bound == 0)

unfoldable pub before_start : Text → Text → Bool
before_start start key = is_set start && text_lt key start

unfoldable pub at_or_past_end : Text → Text → Bool
at_or_past_end end key = is_set end && text_le end key

-- The loop of `PrefixEnd` from index `i - 1` down.
unfoldable pub prefix_end_loop : ℕ → List ℕ → Text
prefix_end_loop zero end = []
prefix_end_loop (suc i) end =
    let lower = prefix_end_loop i end in
    if not (byte_at end i == 255) then take (suc i) (set end i (byte_at end i + 1)) else lower

unfoldable pub prefix_end : Text → Text
prefix_end prefix =
    let found = prefix_end_loop (length prefix) prefix in if length prefix == 0 then [] else found

unfoldable pub has_prefix : Text → Text → Bool
has_prefix [] key = true
has_prefix (p ∷ ps) [] = false
has_prefix (p ∷ ps) (k ∷ ks) = (k == p) && has_prefix ps ks

-- One byte more in front of an end.
unfoldable front : ℕ → Text → Text
front b [] = if b == 255 then [] else (b + 1) ∷ []
front b (r ∷ rs) = b ∷ r ∷ rs

front-take :
    (b n v : ℕ) (bs : List ℕ)
    → n < length bs
    → front b (take (suc n) (set bs n v)) ≡ b ∷ take (suc n) (set bs n v)
unfolding front
front-take b n v [] h = absurd (omega arith)
front-take b zero v (c ∷ cs) h = refl
front-take b (suc n) v (c ∷ cs) h = refl

prefix_end_loop-cons :
    (n b : ℕ) (bs : List ℕ)
    → n ≤ length bs
    → prefix_end_loop (suc n) (b ∷ bs) ≡ front b (prefix_end_loop n bs)
unfolding prefix_end_loop front
prefix_end_loop-cons zero b bs h = ground arith
prefix_end_loop-cons (suc n) b bs h = elim (Bool-cases (byte_at bs n == 255)) [
  | inl full ↦ rw full (prefix_end_loop-cons n b bs (omega arith))
  | inr room ↦ rw room (sym (front-take b n (byte_at bs n + 1) bs (omega arith)))
]

prefix_end-cons : (b : ℕ) (bs : List ℕ) → prefix_end (b ∷ bs) ≡ front b (prefix_end bs)
unfolding prefix_end prefix_end_loop
prefix_end-cons b [] = prefix_end_loop-cons 0 b [] (omega arith)
prefix_end-cons b (c ∷ cs) =
    rw (suc-eq-zero (suc (length cs)), suc-eq-zero (length cs))
      (prefix_end_loop-cons (length (c ∷ cs)) b (c ∷ cs) (omega arith))

text_lt-nil : (k : Text) → text_lt k [] ≡ false
unfolding text_lt
text_lt-nil [] = refl
text_lt-nil (x ∷ xs) = refl

before_start-text_lt : (start key : Text) → before_start start key ≡ text_lt key start
unfolding before_start
before_start-text_lt [] key = sym (text_lt-nil key)
before_start-text_lt (x ∷ xs) key = rw (suc-eq-zero (length xs)) refl

-- One byte further into the prefix and the key.
range-cons :
    (p k : ℕ) (ps ks end : Text)
    → p < 256
    → k < 256
    → has_prefix ps ks ≡ (not (text_lt ks ps) && not (at_or_past_end end ks))
    → has_prefix (p ∷ ps) (k ∷ ks)
      ≡ (not (text_lt (k ∷ ks) (p ∷ ps)) && not (at_or_past_end (front p end) (k ∷ ks)))
unfolding has_prefix at_or_past_end front text_lt
range-cons p k ps ks [] hp hk h = ground (arith, text_lt-nil ks)
range-cons p k ps ks (e ∷ es) hp hk h =
    ground (arith, suc-eq-zero (length es), suc-eq-zero (suc (length es)))

unbounded :
    (key : Text) → (not (before_start [] key) && not (at_or_past_end (prefix_end []) key)) ≡ true
unfolding before_start at_or_past_end prefix_end
unbounded key = refl

nil-text_lt : (p : ℕ) (ps : Text) → text_lt [] (p ∷ ps) ≡ true
unfolding text_lt
nil-text_lt p ps = refl

-- A key of bytes is in the range of a scan from a prefix to `PrefixEnd` of it exactly when it has
-- the prefix.
pub has_prefix-prefix_end :
    (prefix key : Text)
    → All IsByte prefix
    → All IsByte key
    → has_prefix prefix key
      ≡ (not (before_start prefix key) && not (at_or_past_end (prefix_end prefix) key))
unfolding has_prefix
has_prefix-prefix_end [] key hp hk = sym (unbounded key)
has_prefix-prefix_end (p ∷ ps) [] hp hk =
    rw (before_start-text_lt (p ∷ ps) [], nil-text_lt p ps) refl
has_prefix-prefix_end (p ∷ ps) (k ∷ ks) hp hk =
    let inner = has_prefix-prefix_end ps ks hp.1 hk.1 in
    let rest = rw (before_start-text_lt ps ks) at inner in
    rw (prefix_end-cons p ps, before_start-text_lt (p ∷ ps) (k ∷ ks))
      (range-cons p k ps ks (prefix_end ps) hp.0 hk.0 rest)
