-- ===== src/Prelude/Exec.antt =====
-- Calls that change the state of a service and may fail. What was written before a failure stays
-- written, so the state comes back beside the error too.
use spire_eks_workload_regis.Prelude.Errors.{Error, Result, ok, err, panic, wrap}
use spire_eks_workload_regis.Prelude.Tests.{if◌then◌else◌}
use mathlib.Core.Path.{◌≡◌, refl, ap}
use mathlib.Core.Bool.{Bool}
use mathlib.Core.List.{List, [], ◌∷◌}
use Prim.Native.String.{String}

abbrev pub Exec {ℓ} : Type ℓ → Type ℓ → Type ℓ
Exec S A = S → Result A × S

module _ {ℓ} {S A : Type ℓ} where
  abbrev pub pure : A → Exec S A
  pure a s = (ok a, s)

  abbrev pub raise : Error → Exec S A
  raise e s = (err e, s)

  abbrev pub lift : Result A → Exec S A
  lift r s = (r, s)

  -- fmt.Errorf("...: %w", err) on the error path
  abbrev pub wrapping : String → Exec S A → Exec S A
  wrapping msg m s = let (r, s') = m s in (wrap msg r, s')

-- s = f(s)
abbrev pub modify {ℓ} : {S : Type ℓ} → (S → S) → Exec S (Unit {ℓ})
modify f s = (ok tt, f s)

module _ {ℓ} {S A B : Type ℓ} where
  abbrev pub continue : Result A → (A → Exec S B) → Exec S B
  continue (ok a) f s = f a s
  continue (err e) f s = (err e, s)
  continue panic f s = (panic, s)

  infixl 5 ◌>>=◌ ◌>>◌
  abbrev pub ◌>>=◌ : Exec S A → (A → Exec S B) → Exec S B
  ◌>>=◌ m f s = continue (m s).0 f (m s).1

  abbrev pub ◌>>◌ : Exec S A → Exec S B → Exec S B
  m >> n = m >>= λ _. n

-- _ = m: the caller drops the error, and a panic goes on.
abbrev pub dropped {ℓ} : {S A : Type ℓ} → Result A × S → Result (Unit {ℓ}) × S
dropped (ok a, s) = (ok tt, s)
dropped (err e, s) = (ok tt, s)
dropped (panic, s) = (panic, s)

abbrev pub ignoring {ℓ} : {S A : Type ℓ} → Exec S A → Exec S (Unit {ℓ})
ignoring m s = dropped (m s)

-- a, err := m; if err != nil { return }
abbrev pub returning {ℓ} : {S A : Type ℓ} → Result A → (A → Exec S (Unit {ℓ})) → Exec S (Unit {ℓ})
returning (ok a) f s = f a s
returning (err e) f s = (ok tt, s)
returning panic f s = (panic, s)

abbrev pub unless_error {ℓ} :
    {S A : Type ℓ} → Exec S A → (A → Exec S (Unit {ℓ})) → Exec S (Unit {ℓ})
unless_error m f s = returning (m s).0 f (m s).1

-- for _, a := range as { f(a) }
unfoldable pub for_each {ℓ} : {S A : Type ℓ} → (A → Exec S (Unit {ℓ})) → List A → Exec S (Unit {ℓ})
for_each f [] = pure tt
for_each f (a ∷ l) = f a >> for_each f l

-- for _, a := range as { if p(a) { f(a) } }
unfoldable pub for_each_if {ℓ} :
    {S A : Type ℓ} → (A → Bool) → (A → Exec S (Unit {ℓ})) → List A → Exec S (Unit {ℓ})
for_each_if p f [] = pure tt
for_each_if p f (a ∷ l) = let rest = for_each_if p f l in if p a then f a >> rest else rest

-- A chain that returned a value had a first call that did, and the rest returned it.
module _ {ℓ} {S A B : Type ℓ} where
  pub bind_ok :
      (m : Exec S A) (f : A → Exec S B) (s : S) {b : B} {s' : S}
      → (m >>= f) s ≡ (ok b, s')
      → (a : A) × (s1 : S) × (m s ≡ (ok a, s1)) × (f a s1 ≡ (ok b, s'))
  bind_ok m f s {b} {s'} h = on_first (m s) refl h
    where
      on_first :
          (p : Result A × S)
          → m s ≡ p
          → continue p.0 f p.1 ≡ (ok b, s')
          → (a : A) × (s1 : S) × (m s ≡ (ok a, s1)) × (f a s1 ≡ (ok b, s'))
      on_first (ok a, s1) e g = (a, s1, e, g)
      on_first (err x, s1) e g = cc (ap (λ (q : Result B × S). q.0) g)
      on_first (panic, s1) e g = cc (ap (λ (q : Result B × S). q.0) g)

pub wrapping_ok {ℓ} :
    {S A : Type ℓ} (msg : String) (m : Exec S A) (s : S) {a : A} {s' : S}
    → wrapping msg m s ≡ (ok a, s')
    → m s ≡ (ok a, s')
wrapping_ok {S} {A} msg m s {a} {s'} h = on_call (m s) h
  where
    on_call :
        (p : Result A × S) → ◌≡◌ {A = Result A × S} (wrap msg p.0, p.1) (ok a, s') → p ≡ (ok a, s')
    on_call (ok x, s1) g = g
    on_call (err x, s1) g = cc (ap (λ (q : Result A × S). q.0) g)
    on_call (panic, s1) g = cc (ap (λ (q : Result A × S). q.0) g)
