-- ===== src/Sstable/Restarts.antt =====
-- The restart offsets at the end of a block: written as words, checked when a cursor is made.
use hypha_db.Base.{
  ℕ, ◌+◌, ◌-◌, ◌*◌, ◌^◌, ◌≤◌, ◌<◌, ◌≡◌, refl, sym, ap, ◌∙◌, false, not, ◌&&◌, ◌||◌, List, [], ◌∷◌,
  ◌++◌, length, take, drop, slice, ltb, leb, ◌==◌, arith, ok, All, append_assoc, length-append,
  take-append_exact, drop-append_exact,
}
use hypha_db.Base.Bytes.{put_le, get_le, get_le-put_le, length-put_le}
use hypha_db.Sstable.Writer.{words}
use hypha_db.Sstable.Cursor.{restart_at, check_restarts}

-- Each is above the one before.
abbrev pub Rising : ℕ → List ℕ → Type 0
Rising low [] = Unit
Rising low (r ∷ rs) = (low < r) × Rising r rs

pub Rising-append_one :
    (low : ℕ) (rs : List ℕ) (r : ℕ)
    → Rising low rs
    → low < r
    → All (λ x. x < r) rs
    → Rising low (rs ++ (r ∷ []))
Rising-append_one low [] r h below all_below = (below, tt)
Rising-append_one low (x ∷ rs) r (first, h) below (x_below, all_below) =
    (first, Rising-append_one x rs r h x_below all_below)

pub length-words : (rs : List ℕ) → length (words rs) ≡ length rs * 4
unfolding words
length-words [] = refl
length-words (r ∷ rs) =
    omega (arith, length-append (put_le 4 r) (words rs), length-put_le 4 r, length-words rs)

pub words-append : (xs ys : List ℕ) → words (xs ++ ys) ≡ words xs ++ words ys
unfolding words
words-append [] ys = refl
words-append (x ∷ xs) ys =
    ap (λ t. put_le 4 x ++ t) (words-append xs ys)
    ∙ sym (append_assoc (put_le 4 x) (words xs) (words ys))

pub drop_at : (n : ℕ) (xs ys : List ℕ) → n ≡ length xs → drop n (xs ++ ys) ≡ ys
drop_at n xs ys e = ap (λ k. drop k (xs ++ ys)) e ∙ drop-append_exact xs ys

pub take_at : (n : ℕ) (xs ys : List ℕ) → n ≡ length xs → take n (xs ++ ys) ≡ xs
take_at n xs ys e = ap (λ k. take k (xs ++ ys)) e ∙ take-append_exact xs ys

restart_at-words :
    (front : List ℕ) (r : ℕ) (rs : List ℕ)
    → r < 2 ^ 32
    → restart_at (words (front ++ (r ∷ rs))) (length front) ≡ r
unfolding restart_at words
restart_at-words front r rs small =
    let size = length-words front in
    let here : drop (length front * 4) (words (front ++ (r ∷ rs))) ≡ put_le 4 r ++ words rs =
      ap (drop (length front * 4)) (words-append front (r ∷ rs))
      ∙ drop_at (length front * 4) (words front) (put_le 4 r ++ words rs) (omega (arith, size)) in
    let four : length front * 4 + 4 - length front * 4 ≡ 4 = omega arith in
    let word : slice (length front * 4) (length front * 4 + 4) (words (front ++ (r ∷ rs)))
        ≡ put_le 4 r =
      ap (λ n. take n (drop (length front * 4) (words (front ++ (r ∷ rs))))) four
      ∙ (ap (take 4) here ∙ take_at 4 (put_le 4 r) (words rs) (sym (length-put_le 4 r))) in
    ap get_le word ∙ get_le-put_le 4 r (omega arith)

-- Offsets that rise within the records pass.
check_restarts_behind :
    (front : List ℕ) (rs : List ℕ) (records_end previous : ℕ)
    → 0 < length front
    → 4 ≤ previous
    → Rising previous rs
    → All (λ r. (r < records_end) × (r < 2 ^ 32)) rs
    → check_restarts (length rs) (words (front ++ rs)) records_end (length front) previous ≡ ok tt
unfolding check_restarts
check_restarts_behind front [] records_end previous some_front low rising bounds = refl
check_restarts_behind front (r ∷ rs) records_end previous some_front low (above, rising)
      ((inside, small), bounds) =
    let here = restart_at-words front r rs small in
    let size = length-append front (r ∷ []) in
    let regroup : (front ++ (r ∷ [])) ++ rs ≡ front ++ (r ∷ rs) = append_assoc front (r ∷ []) rs in
    let next =
      check_restarts_behind (front ++ (r ∷ [])) rs records_end r (omega (arith, size)) (omega arith)
        rising bounds in
    let next' : check_restarts (length rs) (words (front ++ (r ∷ rs))) records_end
          (length front + 1) r
        ≡ ok tt =
      sym (
        ap (λ l. check_restarts (length rs) (words l) records_end (length (front ++ (r ∷ []))) r)
          regroup
        ∙ ap (λ n. check_restarts (length rs) (words (front ++ (r ∷ rs))) records_end n r) size)
      ∙ next in
    let low_enough : (ltb r 4 || leb records_end r) ≡ false = ground arith in
    let not_first : ((length front == 0) && not (r == 4)) ≡ false = ground arith in
    let goes_up : (ltb 0 (length front) && leb r previous) ≡ false = ground arith in
    rw (here, low_enough, not_first, goes_up) next'

pub check_restarts_pass :
    (rest : List ℕ) (records_end : ℕ)
    → Rising 4 rest
    → All (λ r. (r < records_end) × (r < 2 ^ 32)) (4 ∷ rest)
    → check_restarts (length (4 ∷ rest)) (words (4 ∷ rest)) records_end 0 0 ≡ ok tt
unfolding check_restarts
check_restarts_pass rest records_end rising ((inside, small), bounds) =
    let here = restart_at-words [] 4 rest small in
    let next =
      check_restarts_behind (4 ∷ []) rest records_end 4 (omega arith) (omega arith) rising bounds in
    let low_enough : (ltb 4 4 || leb records_end 4) ≡ false = ground arith in
    rw (here, low_enough) next
