-- ===== src/Grid/Search.antt =====
-- `gridloopsearch` in its three versions.
use mtech.Prelude.{
  ℕ, zero, suc, Bool, true, false, List, [], ◌∷◌, ◌++◌, map, length, if◌then◌else◌, ◌&&◌,
}
use mtech.Prelude.Int.{ℤ, pos_part}

-- The type `double` and what the program uses of it.
pub record Arith : Type 1 where
  pub Real : Type 0
  pub add : Real → Real → Real
  pub sub : Real → Real → Real
  pub mul : Real → Real → Real
  pub div : Real → Real → Real
  pub fabs : Real → Real
  pub floor : Real → ℤ
  pub of_int : ℕ → Real
  pub leb : Real → Real → Bool
  pub gtb : Real → Real → Bool

-- dd1, dd2 and dd3: where an axis starts, where it ends, and its step.
pub record Axis (R : Type 0) : Type 0 where
  pub first : R
  pub last : R
  pub step : R

-- c11 to c110, d1 and ey1.
pub record Row (R : Type 0) : Type 0 where
  pub coefficients : List R
  pub target : R
  pub error : R

-- An axis with the round of the loop over it.
pub record Node (R : Type 0) : Type 0 where
  pub axis : Axis R
  pub round : ℕ

-- What p1 computes of a row before the loops: temp_q1, mul_q1 and e1.
pub record Plan (R : Type 0) : Type 0 where
  pub temp : R
  pub multipliers : List R
  pub limit : R

-- `for (int r = 0; r < n; ++r)`, and the lines that the rounds print.
unfoldable pub for_range : {A : Type 0} → ℕ → (ℕ → List A) → List A
for_range zero body = []
for_range (suc n) body = for_range n body ++ body n

-- The sixth entry, the coefficient of x6.
unfoldable pub sixth : {A : Type 0} → A → List A → A
sixth d (a ∷ b ∷ c ∷ e ∷ f ∷ x ∷ xs) = x
sixth d _ = d

unfoldable pub set_sixth : {A : Type 0} → A → List A → List A
set_sixth x (a ∷ b ∷ c ∷ e ∷ f ∷ y ∷ xs) = a ∷ b ∷ c ∷ e ∷ f ∷ x ∷ xs
set_sixth x xs = xs

-- The coefficients of mul_q1 to mul_q10: those of the rows, but that mul_q5 has c16 in place of c56.
unfoldable pub multiplied : {R : Type 0} → R → List (List R) → List (List R)
multiplied d (q1 ∷ q2 ∷ q3 ∷ q4 ∷ q5 ∷ rest) = q1 ∷ q2 ∷ q3 ∷ q4 ∷ set_sixth (sixth d q1) q5 ∷ rest
multiplied d qs = qs

module _ (F : Arith) where
  -- s1: how many rounds the loop over an axis has.
  unfoldable pub rounds : Axis F.Real → ℕ
  rounds a = pos_part (F.floor (F.div (F.sub a.last a.first) a.step))

  -- The loops, one in the other, over `todo`; `done` holds the outer ones.
  unfoldable pub search :
      {A : Type 0}
      → (List (Node F.Real) → List A)
      → List (Node F.Real)
      → List (Axis F.Real)
      → List A
  search body done [] = body done
  search body done (a ∷ todo) =
      for_range (rounds a) (λ r. search body (done ++ record { axis = a; round = r } ∷ []) todo)

  -- `x1 = dd1 + r1 * dd3`
  unfoldable pub coordinate : Node F.Real → F.Real
  coordinate n = F.add n.axis.first (F.mul (F.of_int n.round) n.axis.step)

  -- `acc + c1 * x1 + c2 * x2 + ...`
  unfoldable pub sum_from : F.Real → List F.Real → List F.Real → F.Real
  sum_from acc (c ∷ cs) (x ∷ xs) = sum_from (F.add acc (F.mul c x)) cs xs
  sum_from acc _ _ = acc

  -- `c1 * x1 + c2 * x2 + ...`
  unfoldable pub linear : List F.Real → List F.Real → F.Real
  linear (c ∷ cs) (x ∷ xs) = sum_from (F.mul c x) cs xs
  linear _ _ = F.of_int 0

  -- Version 0: q1, its limit e1, the conjunction, and the search with the number of points.
  unfoldable pub residue : Row F.Real → List F.Real → F.Real
  residue row xs = F.fabs (F.sub (linear row.coefficients xs) row.target)

  unfoldable pub satisfied : F.Real → List (Row F.Real) → List F.Real → Bool
  satisfied kk [] xs = true
  satisfied kk (row ∷ rows) xs = F.leb (residue row xs) (F.mul kk row.error) && satisfied kk rows xs

  unfoldable pub point_v0 : F.Real → List (Row F.Real) → List (Node F.Real) → List (List F.Real)
  point_v0 kk rows ns = let xs = map coordinate ns in if satisfied kk rows xs then xs ∷ [] else []

  unfoldable pub gridloopsearch_v0 :
      F.Real → List (Row F.Real) → List (Axis F.Real) → List (List F.Real) × ℕ
  gridloopsearch_v0 kk rows axes =
      let points = search (point_v0 kk rows) [] axes in (points, length points)

  -- Version p1: what is computed before the loops, the tests that `continue`, and the search.
  unfoldable pub products : List F.Real → List (Axis F.Real) → List F.Real
  products (c ∷ cs) (a ∷ axes) = F.mul c a.step ∷ products cs axes
  products _ _ = []

  unfoldable pub plans :
      F.Real → List (Axis F.Real) → List (Row F.Real) → List (List F.Real) → List (Plan F.Real)
  plans kk axes (row ∷ rows) (cs ∷ css) =
      record {
        temp = F.sub (linear row.coefficients (map (λ a. a.first) axes)) row.target;
        multipliers = products cs axes;
        limit = F.mul kk row.error;
      }
      ∷ plans kk axes rows css
  plans kk axes _ _ = []

  unfoldable pub residue_p1 : Plan F.Real → List (Node F.Real) → F.Real
  residue_p1 p ns = F.fabs (sum_from p.temp p.multipliers (map (λ n. F.of_int n.round) ns))

  unfoldable pub passes : List (Plan F.Real) → List (Node F.Real) → Bool
  passes [] ns = true
  passes (p ∷ ps) ns =
      let rest = passes ps ns in if F.gtb (residue_p1 p ns) p.limit then false else rest

  unfoldable pub point_p1 : List (Plan F.Real) → List (Node F.Real) → List (List F.Real)
  point_p1 ps ns = if passes ps ns then map coordinate ns ∷ [] else []

  unfoldable pub plans_p1 : F.Real → List (Row F.Real) → List (Axis F.Real) → List (Plan F.Real)
  plans_p1 kk rows axes =
      plans kk axes rows (multiplied (F.of_int 0) (map (λ row. row.coefficients) rows))

  unfoldable pub gridloopsearch_p1 :
      F.Real → List (Row F.Real) → List (Axis F.Real) → List (List F.Real) × ℕ
  gridloopsearch_p1 kk rows axes =
      let points = search (point_p1 (plans_p1 kk rows axes)) [] axes in (points, length points)
