-- ===== src/Base/Outcome.antt =====
-- Go's (value, error) pair: a value, or an error of the component's own type.
use mathlib.Core.Path.{◌≡◌, refl}
use mathlib.Core.Logic.{◌⊎◌, inl, inr}
use mathlib.Core.Bool.{Bool, true, false}

pub data Result {ℓ} (E A : Type ℓ) : Type ℓ where
  ok : A → Result E A
  err : E → Result E A

infixl 5 ◌>>=◌ ◌>>◌
abbrev pub ◌>>=◌ {ℓ} : {E A B : Type ℓ} → Result E A → (A → Result E B) → Result E B
ok a >>= f = f a
err e >>= f = err e

abbrev pub ◌>>◌ {ℓ} : {E B : Type ℓ} → Result E (Unit {ℓ}) → Result E B → Result E B
m >> k = m >>= λ _. k

-- `if cond { return err }`
abbrev pub fail_if {ℓ} : {E : Type ℓ} → Bool → E → Result E (Unit {ℓ})
fail_if true e = err e
fail_if false e = ok tt

pub ok-injective {ℓ} : {E A : Type ℓ} {a b : A} → ◌≡◌ {A = Result E A} (ok a) (ok b) → a ≡ b
ok-injective h = cc

-- An error given another form, as `fmt.Errorf("%w", …)` does.
abbrev pub map_err {ℓ} : {E F A : Type ℓ} → (E → F) → Result E A → Result F A
map_err f (ok a) = ok a
map_err f (err e) = err (f e)

pub map_err-eq-ok {ℓ} :
    {E F A : Type ℓ} (f : E → F) (r : Result E A) {a : A} → map_err f r ≡ ok a → r ≡ ok a
map_err-eq-ok f (ok a) h = cc (ok-injective h)
map_err-eq-ok f (err e) h = absurd (cc h)

pub fail_if-eq-ok {ℓ} :
    {E : Type ℓ} (b : Bool) (e : E) {u : Unit {ℓ}} → fail_if b e ≡ ok u → b ≡ false
fail_if-eq-ok true e h = cc
fail_if-eq-ok false e h = refl

-- To take a successful bind apart, naming its parts.
pub >>=-elim {ℓ κ} :
    {E A B : Type ℓ} {P : Type κ} (m : Result E A) (f : A → Result E B) {b : B}
    → (m >>= f) ≡ ok b
    → ((a : A) → m ≡ ok a → f a ≡ ok b → P)
    → P
>>=-elim (ok a) f h k = k a refl h
>>=-elim (err e) f h k = absurd (cc h)

pub fail_if-elim {ℓ κ} :
    {E B : Type ℓ} {P : Type κ} (c : Bool) (e : E) (m : Result E B) {b : B}
    → (fail_if c e >> m) ≡ ok b
    → (c ≡ false → m ≡ ok b → P)
    → P
fail_if-elim true e m h k = absurd (cc h)
fail_if-elim false e m h k = k refl h

pub Result-cases {ℓ} :
    {E A : Type ℓ} (r : Result E A) → ((a : A) × (r ≡ ok a)) ⊎ ((e : E) × (r ≡ err e))
Result-cases (ok a) = inl (a, refl)
Result-cases (err e) = inr (e, refl)

-- The same for a step that returns nothing.
pub >>-elim {ℓ κ} :
    {E B : Type ℓ} {P : Type κ} (m : Result E (Unit {ℓ})) (k : Result E B) {b : B}
    → (m >> k) ≡ ok b
    → (m ≡ ok tt → k ≡ ok b → P)
    → P
>>-elim (ok tt) k h f = f refl h
>>-elim (err e) k h f = absurd (cc h)
