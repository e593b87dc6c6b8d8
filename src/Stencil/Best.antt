-- ===== src/Stencil/Best.antt =====
-- The smallest and the largest value of a block: what `find_minima_maxima` keeps of the values.
use mtech.Prelude.{ℕ, ◌≡◌, refl, ap, ◌∙◌, ◌⊎◌, inl, inr, Bool, true, false, if◌then◌else◌, arith}
use mtech.Stencil.Decomposition.{Decomposition}
use mtech.Stencil.Loops.{Within, for_3d_keep, for_3d_reach}
use mtech.Stencil.Cube.{Cube}
use mtech.Stencil.Extrema.{Floats, Found, visit, find_minima_maxima}

-- A comparison that orders the values, those that compare neither way counting as equal.
pub record Orders {R : Type 0} (before : R → R → Bool) : Type 0 where
  pub irreflexive : (a : R) → before a a ≡ false
  pub transitive : (a b c : R) → before a b ≡ true → before b c ≡ true → before a c ≡ true
  pub not_transitive : (a b c : R) → before a b ≡ false → before b c ≡ false → before a c ≡ false

-- The better of a value and the best so far.
abbrev pub better : {R : Type 0} → (R → R → Bool) → R → R → R
better before value best = if before value best then value else best

-- A value is the first one or a value of the block.
abbrev pub FromBlock : {R : Type 0} → Decomposition → Cube R → R → R → Type 0
FromBlock d c first value =
    (value ≡ first)
    ⊎ ((x : ℕ) × (y : ℕ) × (z : ℕ) × Within d.sub_nx x
        × Within d.sub_ny y
        × Within d.sub_nz z
        × (value ≡ c x y z))

module _ {R : Type 0} (before : R → R → Bool) (orders : Orders before) where
  pub better_self : (value best : R) → before value (better before value best) ≡ false
  better_self value best = let i = orders.irreflexive value in cases (before value best) refl i
    where
      cases :
          (b : Bool)
          → before value best ≡ b
          → before value value ≡ false
          → before value (if b then value else best) ≡ false
      cases true e i = i
      cases false e i = e

  pub better_keep :
      (v value best : R) → before v best ≡ false → before v (better before value best) ≡ false
  better_keep v value best h = cases (before value best) (before v value) refl refl
    where
      cases :
          (b b' : Bool)
          → before value best ≡ b
          → before v value ≡ b'
          → before v (if b then value else best) ≡ false
      cases false b' e e' = h
      cases true false e e' = e'
      cases true true e e' =
          let further = orders.transitive v value best e' e in absurd (ground arith)

  module _ (best : Found R → R) (floats : Floats R) (d : Decomposition) (c : Cube R)
      (step : (x y z : ℕ) (found : Found R)
        → best (visit floats d c x y z found) ≡ better before (c x y z) (best found)) where
    -- No value of the block is before the best.
    pub find_minima_maxima-bound :
        (found : Found R) (x y z : ℕ)
        → Within d.sub_nx x
        → Within d.sub_ny y
        → Within d.sub_nz z
        → before (c x y z) (best (find_minima_maxima floats d c found)) ≡ false
    unfolding find_minima_maxima
    find_minima_maxima-bound found x y z wx wy wz =
        for_3d_reach (λ s. before (c x y z) (best s) ≡ false) d.sub_nx d.sub_ny d.sub_nz
          (visit floats d c) x y z wx wy wz
          (λ s. ap (before (c x y z)) (step x y z s) ∙ better_self (c x y z) (best s))
          (λ u v w s wu wv ww h.
            ap (before (c x y z)) (step u v w s) ∙ better_keep (c x y z) (c u v w) (best s) h)
          found

    pub find_minima_maxima-FromBlock :
        (found : Found R) → FromBlock d c (best found) (best (find_minima_maxima floats d c found))
    unfolding find_minima_maxima
    find_minima_maxima-FromBlock found =
        for_3d_keep (λ s. FromBlock d c (best found) (best s)) d.sub_nx d.sub_ny d.sub_nz
          (visit floats d c)
          (λ x y z s wx wy wz h. next x y z s wx wy wz h (before (c x y z) (best s)) refl) found
          (inl refl)
      where
        next :
            (x y z : ℕ) (s : Found R)
            → Within d.sub_nx x
            → Within d.sub_ny y
            → Within d.sub_nz z
            → FromBlock d c (best found) (best s)
            → (b : Bool) → before (c x y z) (best s) ≡ b
            → FromBlock d c (best found) (best (visit floats d c x y z s))
        next x y z s wx wy wz h true e =
            inr (x, y, z, wx, wy, wz, step x y z s ∙ ap (λ b. if b then c x y z else best s) e)
        next x y z s wx wy wz h false e =
            let same = step x y z s ∙ ap (λ b. if b then c x y z else best s) e in rw same h
