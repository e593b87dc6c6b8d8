-- ===== src/Stencil/Loops.antt =====
-- `for (int i = 1; i <= n; i++)` over a state, alone and nested, with the rules of the proofs.
use mtech.Prelude.{ℕ, zero, suc, ◌≤◌, ◌<◌, arith, ℕ_discrete}

module _ {ℓ} {S : Type ℓ} where
  unfoldable pub loop : ℕ → (ℕ → S → S) → S → S
  loop zero body s = s
  loop (suc n) body s = body (suc n) (loop n body s)

  unfoldable pub for_2d : ℕ → ℕ → (ℕ → ℕ → S → S) → S → S
  unfolding loop
  for_2d n m body = loop n (λ u. loop m (body u))

  unfoldable pub for_3d : ℕ → ℕ → ℕ → (ℕ → ℕ → ℕ → S → S) → S → S
  unfolding loop for_2d
  for_3d n m k body = loop n (λ u. for_2d m k (body u))

-- The index of a round.
abbrev pub Within : ℕ → ℕ → Type 0
Within n i = (0 < i) × (i ≤ n)

module _ {ℓ κ} {S : Type ℓ} (P : S → Type κ) where
  pub loop_keep :
      (n : ℕ) (body : ℕ → S → S)
      → ((i : ℕ) (s : S) → Within n i → P s → P (body i s))
      → (s : S) → P s
      → P (loop n body s)
  unfolding loop
  loop_keep zero body keep s h = h
  loop_keep (suc n) body keep s h =
      keep (suc n) _ (omega arith) (loop_keep n body (λ i t w. keep i t (omega arith)) s h)

  -- What one round brings about and every round keeps holds at the end.
  pub loop_reach :
      (n : ℕ) (body : ℕ → S → S) (i : ℕ)
      → Within n i
      → ((s : S) → P (body i s))
      → ((j : ℕ) (s : S) → Within n j → P s → P (body j s))
      → (s : S) → P (loop n body s)
  unfolding loop
  loop_reach zero body i w at_i keep s = absurd (omega arith)
  loop_reach (suc n) body i w at_i keep s = elim (ℕ_discrete i (suc n)) [
    | yes e ↦ rw (← e) (at_i _)
    | no ne ↦
        keep (suc n) _ (omega arith)
          (loop_reach n body i (omega arith) at_i (λ j t v. keep j t (omega arith)) s)
  ]

  pub for_2d_keep :
      (n m : ℕ) (body : ℕ → ℕ → S → S)
      → ((u v : ℕ) (s : S) → Within n u → Within m v → P s → P (body u v s))
      → (s : S) → P s
      → P (for_2d n m body s)
  unfolding for_2d
  for_2d_keep n m body keep =
      loop_keep n _ (λ u t wu. loop_keep m (body u) (λ v r wv. keep u v r wu wv) t)

  pub for_2d_reach :
      (n m : ℕ) (body : ℕ → ℕ → S → S) (u v : ℕ)
      → Within n u
      → Within m v
      → ((s : S) → P (body u v s))
      → ((u' v' : ℕ) (s : S) → Within n u' → Within m v' → P s → P (body u' v' s))
      → (s : S) → P (for_2d n m body s)
  unfolding for_2d
  for_2d_reach n m body u v wu wv at_uv keep =
      loop_reach n _ u wu (λ t. loop_reach m (body u) v wv at_uv (λ v' r w. keep u v' r wu w) t)
        (λ u' t w. loop_keep m (body u') (λ v' r w'. keep u' v' r w w') t)

  pub for_3d_keep :
      (n m k : ℕ) (body : ℕ → ℕ → ℕ → S → S)
      → ((u v w : ℕ) (s : S) → Within n u → Within m v → Within k w → P s → P (body u v w s))
      → (s : S) → P s
      → P (for_3d n m k body s)
  unfolding for_3d
  for_3d_keep n m k body keep =
      loop_keep n _ (λ u t wu. for_2d_keep m k (body u) (λ v w r. keep u v w r wu) t)

  pub for_3d_reach :
      (n m k : ℕ) (body : ℕ → ℕ → ℕ → S → S) (u v w : ℕ)
      → Within n u
      → Within m v
      → Within k w
      → ((s : S) → P (body u v w s))
      → ((u' v' w' : ℕ) (s : S)
          → Within n u'
          → Within m v'
          → Within k w'
          → P s
          → P (body u' v' w' s))
      → (s : S) → P (for_3d n m k body s)
  unfolding for_3d
  for_3d_reach n m k body u v w hu hv hw at_uvw keep =
      loop_reach n _ u hu
        (λ t. for_2d_reach m k (body u) v w hv hw at_uvw (λ v' w' r. keep u v' w' r hu) t)
        (λ u' t h. for_2d_keep m k (body u') (λ v' w' r. keep u' v' w' r h) t)
