-- ===== src/Prelude/Errors.antt =====
-- Go's (value, error) results. An error is its message, with the error that it wraps; a panic is
-- an outcome of its own, which no code of the program recovers from.
use Prim.Native.String.{String}
use Prim.Native.Nat.{ℕ}
use mathlib.Core.Path.{◌≡◌, refl, subst}
use mathlib.Core.Option.{Option, none, some}
use mathlib.Core.List.{List, [], ◌∷◌, ◌++◌, map}

pub data Error : Type 0 where
  errorf : String → Error
  messagef : String → List ℕ → Error  -- a format with a text for its %s
  wrapf : String → Error → Error

pub data Result {ℓ} (A : Type ℓ) : Type ℓ where
  ok : A → Result A
  err : Error → Result A
  panic : Result A

infixl 5 ◌>>=◌ ◌>>◌
abbrev pub ◌>>=◌ {ℓ κ} : {A : Type ℓ} {B : Type κ} → Result A → (A → Result B) → Result B
ok a >>= f = f a
err e >>= f = err e
panic >>= f = panic

abbrev pub ◌>>◌ {ℓ κ} : {A : Type ℓ} {B : Type κ} → Result A → Result B → Result B
m >> k = m >>= λ _. k

-- fmt.Errorf("...: %w", err) on the error path.
abbrev pub wrap {ℓ} : {A : Type ℓ} → String → Result A → Result A
wrap msg (ok a) = ok a
wrap msg (err e) = err (wrapf msg e)
wrap msg panic = panic

-- *p
abbrev pub deref {ℓ} : {A : Type ℓ} → Option A → Result A
deref (some a) = ok a
deref none = panic

-- The first step of a chain that returned has returned too.
pub first_ok {ℓ κ} :
    {A : Type ℓ} {B : Type κ} {final : B} (step : Result A) (next : A → Result B)
    → (step >>= next) ≡ ok final
    → (x : A) × (step ≡ ok x) × (next x ≡ ok final)
first_ok panic next done = cc
first_ok (err _) next done = cc
first_ok (ok x) next done = (x, refl, done)

pub wrap-eq-ok {ℓ} :
    {A : Type ℓ} (msg : String) (m : Result A) {a : A} → wrap msg m ≡ ok a → m ≡ ok a
wrap-eq-ok msg (ok a) h = h
wrap-eq-ok msg (err e) h = cc
wrap-eq-ok msg panic h = cc

-- The loop that converts each item and stops at the first error.
module _ {ℓ κ} {A : Type ℓ} {B : Type κ} where
  unfoldable pub traverse : (A → Result B) → List A → Result (List B)
  traverse f [] = ok []
  traverse f (x ∷ xs) = f x >>= λ y. traverse f xs >>= λ ys. ok (y ∷ ys)

-- Converting back what was converted.
pub traverse-map {ℓ κ} :
    {A : Type ℓ} {B : Type κ} (f : B → Result A) (g : A → B) (xs : List A)
    → ((x : A) → f (g x) ≡ ok x)
    → traverse f (map g xs) ≡ ok xs
unfolding traverse
traverse-map f g [] h = refl
traverse-map f g (x ∷ xs) h = rw (h x, traverse-map f g xs h)

-- A conversion of two parts succeeds on each.
pub traverse-append {ℓ κ} :
    {A : Type ℓ} {B : Type κ} (f : A → Result B) (a b : List A) {e : List B}
    → traverse f (a ++ b) ≡ ok e
    → (x : List B) × (y : List B) × (traverse f a ≡ ok x) × (traverse f b ≡ ok y) × (e ≡ x ++ y)
unfolding traverse
traverse-append f [] b {e} h = ([], e, refl, h, refl)
traverse-append f (x ∷ a) b h =
    let (y, p, q) = first_ok (f x) (λ y. traverse f (a ++ b) >>= λ ys. ok (y ∷ ys)) h in
    let (ys, p', q') = first_ok (traverse f (a ++ b)) (λ ys. ok (y ∷ ys)) q in
    let (u, v, r, s, t) = traverse-append f a b p' in (y ∷ u, v, rw p (rw r), s, cc (q', t))

-- What holds of the value of a computation, if it returns one.
pub record Ensures {ℓ κ} {A : Type ℓ} (P : A → Type κ) (r : Result A) : Type (ℓ ⊔ κ) where
  pub at : (a : A) → r ≡ ok a → P a

pub Ensures-bind {ℓ κ ι} :
    {A : Type ℓ} {B : Type κ} {P : B → Type ι} (m : Result A) (f : A → Result B)
    → ((a : A) → m ≡ ok a → Ensures P (f a))
    → Ensures P (m >>= f)
Ensures-bind (ok a) f h = h a refl
Ensures-bind (err e) f h = record { at = λ b q. cc q }
Ensures-bind panic f h = record { at = λ b q. cc q }

pub Ensures-ok {ℓ κ} : {A : Type ℓ} {P : A → Type κ} (a : A) → P a → Ensures P (ok a)
Ensures-ok {P = P} a h = record { at = λ b q. subst P (cc q) h }
