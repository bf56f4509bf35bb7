-- ===== src/Skiplist/Store.antt =====
-- The store of skiplist.go's nodes: what a write changes, and what it leaves.
use hypha_db.Base.{
  ℕ, zero, suc, ◌<◌, ◌≡◌, ◌≢◌, ◌⊎◌, inl, inr, refl, sym, ap, ◌∙◌, subst, none, some, List, [], ◌∷◌,
  ◌++◌, length, set, get_elem?, replicate, Option-cases, arith, length-set, get_elem?-set_self,
  get_elem?-set_ne, get_elem?_inside, ℕ_discrete,
}
use hypha_db.Record.{Record}
use hypha_db.Skiplist.{Pointer, Node, Store, slot, next_of, set_next}

pub slot-set_self :
    (ps : List Pointer) (i : ℕ) (p : Pointer) → i < length ps → slot (set ps i p) i ≡ p
unfolding slot
slot-set_self [] i p h = absurd (omega arith)
slot-set_self (q ∷ ps) zero p h = refl
slot-set_self (q ∷ ps) (suc i) p h = slot-set_self ps i p (omega arith)

pub slot-set_ne :
    (ps : List Pointer) (i j : ℕ) (p : Pointer) → i ≢ j → slot (set ps i p) j ≡ slot ps j
unfolding slot
slot-set_ne [] i j p h = refl
slot-set_ne (q ∷ ps) zero zero p h = absurd (h refl)
slot-set_ne (q ∷ ps) zero (suc j) p h = refl
slot-set_ne (q ∷ ps) (suc i) zero p h = refl
slot-set_ne (q ∷ ps) (suc i) (suc j) p h = slot-set_ne ps i j p (λ e. h (ap suc e))

pub slot-replicate : (n i : ℕ) → slot (replicate n none) i ≡ none
unfolding slot
slot-replicate zero i = refl
slot-replicate (suc n) zero = refl
slot-replicate (suc n) (suc i) = slot-replicate n i

-- How many slots the node at a place has.
unfoldable pub height : Store → ℕ → ℕ
height h x = elim (get_elem? h x) [ none ↦ 0 | some n ↦ length n.next ]

pub height_at : (h : Store) (x : ℕ) (n : Node) → get_elem? h x ≡ some n → height h x ≡ length n.next
unfolding height
height_at h x n there = rw (there, height) refl

pub next_of_at :
    (h : Store) (x : ℕ) (n : Node) (i : ℕ) → get_elem? h x ≡ some n → next_of h x i ≡ slot n.next i
unfolding next_of
next_of_at h x n i there = rw (there, next_of) refl

height_missing : (h : Store) (x : ℕ) → get_elem? h x ≡ none → height h x ≡ 0
unfolding height
height_missing h x missing = rw (missing, height) refl

-- The store after a write, at the place written and elsewhere.
abbrev rewired : Node → ℕ → Pointer → Node
rewired n i p = record n { next = set n.next i p }

set_next_missing : (h : Store) (x i : ℕ) (p : Pointer) → get_elem? h x ≡ none → set_next h x i p ≡ h
unfolding set_next
set_next_missing h x i p missing = rw (missing, set_next) refl

set_next_at :
    (h : Store) (x i : ℕ) (p : Pointer) (n : Node)
    → get_elem? h x ≡ some n
    → set_next h x i p ≡ set h x (rewired n i p)
unfolding set_next
set_next_at h x i p n there = rw (there, set_next) refl

set_next_there :
    (h : Store) (x i : ℕ) (p : Pointer) (n : Node)
    → get_elem? h x ≡ some n
    → get_elem? (set_next h x i p) x ≡ some (rewired n i p)
set_next_there h x i p n there =
    rw (set_next_at h x i p n there) (get_elem?-set_self h x n (rewired n i p) there)

pub get_elem?-set_next_ne :
    (h : Store) (x i : ℕ) (p : Pointer) (y : ℕ)
    → x ≢ y
    → get_elem? (set_next h x i p) y ≡ get_elem? h y
get_elem?-set_next_ne h x i p y apart = elim (Option-cases (get_elem? h x)) [
  | inl missing ↦ rw (set_next_missing h x i p missing) refl
  | inr (n, there) ↦ rw (set_next_at h x i p n there) (get_elem?-set_ne h x y (rewired n i p) apart)
]

pub next_of-set_next_self :
    (h : Store) (x i : ℕ) (p : Pointer) → i < height h x → next_of (set_next h x i p) x i ≡ p
next_of-set_next_self h x i p tall = elim (Option-cases (get_elem? h x)) [
  | inl missing ↦ absurd (let none_there = height_missing h x missing in omega (arith, none_there))
  | inr (n, there) ↦
      next_of_at _ x _ i (set_next_there h x i p n there)
      ∙ slot-set_self n.next i p (subst (λ k. i < k) (height_at h x n there) tall)
]

pub next_of-set_next_ne :
    (h : Store) (x i : ℕ) (p : Pointer) (y j : ℕ)
    → (x ≢ y) ⊎ (i ≢ j)
    → next_of (set_next h x i p) y j ≡ next_of h y j
unfolding next_of
next_of-set_next_ne h x i p y j (inl apart) =
    rw (get_elem?-set_next_ne h x i p y apart, next_of) refl
next_of-set_next_ne h x i p y j (inr apart) = elim (Option-cases (get_elem? h x)) [
  | inl missing ↦ rw (set_next_missing h x i p missing) refl
  | inr (n, there) ↦ elim (ℕ_discrete x y) [
    | no other ↦ rw (get_elem?-set_next_ne h x i p y other, next_of) refl
    | yes same ↦
        subst (λ z. next_of (set_next h x i p) z j ≡ next_of h z j) same
          (next_of_at _ x _ j (set_next_there h x i p n there)
            ∙ (slot-set_ne n.next i j p apart ∙ sym (next_of_at h x n j there)))
  ]
]

pub height-set_next :
    (h : Store) (x i : ℕ) (p : Pointer) (y : ℕ) → height (set_next h x i p) y ≡ height h y
unfolding height
height-set_next h x i p y = elim (Option-cases (get_elem? h x)) [
  | inl missing ↦ rw (set_next_missing h x i p missing) refl
  | inr (n, there) ↦ elim (ℕ_discrete x y) [
    | no other ↦ rw (get_elem?-set_next_ne h x i p y other, height) refl
    | yes same ↦
        subst (λ z. height (set_next h x i p) z ≡ height h z) same
          (height_at _ x _ (set_next_there h x i p n there)
            ∙ (length-set n.next i p ∙ sym (height_at h x n there)))
  ]
]

pub length-set_next : (h : Store) (x i : ℕ) (p : Pointer) → length (set_next h x i p) ≡ length h
length-set_next h x i p = elim (Option-cases (get_elem? h x)) [
  | inl missing ↦ rw (set_next_missing h x i p missing) refl
  | inr (n, there) ↦ rw (set_next_at h x i p n there) (length-set h x (rewired n i p))
]

-- The node at a place has the record, and the record's key.
pub record Holds (h : Store) (x : ℕ) (rec : Record) : Type 0 where
  pub node : Node
  pub there : get_elem? h x ≡ some node
  pub item : node.item ≡ rec
  pub key : node.key ≡ node.item.key

pub Holds-unique : (h : Store) (x : ℕ) (a b : Record) → Holds h x a → Holds h x b → a ≡ b
Holds-unique h x a b p q =
    let same : p.node ≡ q.node = cc (p.there, q.there) in
    sym p.item ∙ (ap (λ (n : Node). n.item) same ∙ q.item)

pub Holds-set_next :
    (h : Store) (x i : ℕ) (p : Pointer) (y : ℕ) (rec : Record)
    → Holds h y rec
    → Holds (set_next h x i p) y rec
Holds-set_next h x i p y rec held = elim (ℕ_discrete x y) [
  | no other ↦ record {
    node = held.node;
    there = get_elem?-set_next_ne h x i p y other ∙ held.there;
    item = held.item;
    key = held.key;
  }
  | yes same ↦ record {
    node = rewired held.node i p;
    there =
        subst (λ z. get_elem? (set_next h x i p) z ≡ some (rewired held.node i p)) same
          (set_next_there h x i p held.node (ap (get_elem? h) same ∙ held.there));
    item = held.item;
    key = held.key;
  }
]

-- A new node at the end of the store.
pub get_elem?-append_left {ℓ} :
    {A : Type ℓ} (xs ys : List A) (i : ℕ) → i < length xs → get_elem? (xs ++ ys) i ≡ get_elem? xs i
get_elem?-append_left [] ys i h = absurd (omega arith)
get_elem?-append_left (x ∷ xs) ys zero h = refl
get_elem?-append_left (x ∷ xs) ys (suc i) h = get_elem?-append_left xs ys i (omega arith)

pub get_elem?-append_end {ℓ} :
    {A : Type ℓ} (xs : List A) (a : A) → get_elem? (xs ++ (a ∷ [])) (length xs) ≡ some a
get_elem?-append_end [] a = refl
get_elem?-append_end (x ∷ xs) a = get_elem?-append_end xs a

-- A place whose node has a level is in the store.
pub height-inside : (h : Store) (x i : ℕ) → i < height h x → x < length h
height-inside h x i tall = elim (Option-cases (get_elem? h x)) [
  | inl missing ↦ absurd (let none_there = height_missing h x missing in omega (arith, none_there))
  | inr (n, there) ↦ get_elem?_inside h x n there
]
