-- ===== src/SpireApi/Batch/Loop.antt =====
-- runBatch covers the items in order, in batches of at most the given size, and ends.
use spire_eks_workload_regis.Prelude.{
  ℕ, zero, suc, ◌+◌, ◌-◌, ◌≤◌, ◌<◌, ◌≡◌, refl, sym, ap, ◌∙◌, inl, inr, List, [], ◌∷◌, ◌++◌, some,
  Result, ok, arith, ltb, length, take, drop, take-append-drop, Bool-cases, false,
}
use spire_eks_workload_regis.SpireApi.Batch.{run_batch_loop, run_batch, unless_failed}

module _ {ℓ} {X : Type ℓ} where
  drop_empty : (n : ℕ) → drop {A = X} n [] ≡ []
  unfolding drop
  drop_empty zero = refl
  drop_empty (suc n) = refl

  drop-add : (i n : ℕ) (xs : List X) → drop (i + n) xs ≡ drop n (drop i xs)
  unfolding drop
  drop-add zero n xs = let e : zero + n ≡ n = omega arith in rw e
  drop-add (suc i) n [] = drop_empty (suc i + n) ∙ sym (drop_empty n)
  drop-add (suc i) n (x ∷ xs) =
      let e : suc i + n ≡ suc (i + n) = omega arith in rw e (drop-add i n xs)

  drop_all : (i : ℕ) (xs : List X) → length xs ≤ i → drop i xs ≡ []
  unfolding drop
  drop_all zero [] h = refl
  drop_all (suc i) [] h = refl
  drop_all zero (x ∷ xs) h = absurd (omega arith)
  drop_all (suc i) (x ∷ xs) h = drop_all i xs (omega arith)

module _ {X S : Type 0} (G : List X → S → S) (xs : List X) (batch : ℕ)
    (fn : ℕ → ℕ → S → Result (Unit {0}) × S) (pos : 0 < batch) (nothing : (s : S) → G [] s ≡ s)
    (parts : (a b : List X) (s : S) → G (a ++ b) s ≡ G b (G a s))
    (sends : (i j : ℕ) (s : S)
      → i < j
      → j ≤ length xs
      → j - i ≤ batch
      → fn i j s ≡ (ok tt, G (take (j - i) (drop i xs)) s)) where
  round :
      (fuel i n : ℕ) (s : S)
      → 0 < n
      → i + n ≤ length xs
      → n ≤ batch
      → ((t : S)
          → run_batch_loop (length xs) batch fn fuel (i + n) t
            ≡ some (ok tt, G (drop (i + n) xs) t))
      → unless_failed (fn i (i + n) s) (run_batch_loop (length xs) batch fn fuel (i + n))
        ≡ some (ok tt, G (drop i xs) s)
  round fuel i n s p q r rest =
      let width : (i + n) - i ≡ n = omega arith in
      rw (sends i (i + n) s (omega arith) q (omega arith), width, rest (G (take n (drop i xs)) s))
        (ap (λ t. some (ok tt, t))
          (rw drop-add (
            sym (parts (take n (drop i xs)) (drop n (drop i xs)) s)
            ∙ ap (λ l. G l s) (take-append-drop n (drop i xs)))))

  -- With fuel for the items left, the loop ends with each of them handled once and in order.
  pub run_batch_loop-drop :
      (fuel i : ℕ) (s : S)
      → length xs - i < fuel
      → run_batch_loop (length xs) batch fn fuel i s ≡ some (ok tt, G (drop i xs) s)
  unfolding run_batch_loop
  run_batch_loop-drop zero i s h = absurd (omega arith)
  run_batch_loop-drop (suc fuel) i s h = elim (Bool-cases (ltb i (length xs))) [
    | inl e ↦ rw e (elim (Bool-cases (ltb batch (length xs - i))) [
      | inl f ↦ rw f (
          round fuel i batch s pos (ground arith) (omega arith)
            (λ t. run_batch_loop-drop fuel (i + batch) t (ground arith)))
      | inr f ↦ rw f (
          round fuel i (length xs - i) s (ground arith) (ground arith) (ground arith)
            (λ t. run_batch_loop-drop fuel (i + (length xs - i)) t (ground arith)))
    ])
    | inr e ↦ rw (e, drop_all i xs (ground arith), nothing s)
  ]

  pub run_batch-all : (s : S) → run_batch (length xs) batch fn s ≡ some (ok tt, G xs s)
  unfolding run_batch drop
  run_batch-all s =
      let big : ltb batch 1 ≡ false = ground arith in
      rw big (run_batch_loop-drop (suc (length xs)) 0 s (omega arith))
