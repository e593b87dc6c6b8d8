-- ===== src/Stencil/Extrema.antt =====
-- `find_minima_maxima`.
use mtech.Prelude.{
  ℕ, suc, ◌+◌, ◌-◌, Bool, true, false, not, ◌&&◌, ◌==◌, if◌then◌else◌, List, [], ◌∷◌,
}
use mtech.Stencil.Decomposition.{Decomposition}
use mtech.Stencil.Loops.{for_3d}
use mtech.Stencil.Cube.{Cube}
use mtech.Stencil.Exchange.{is_process}

-- The comparisons of floats, `a < b` and `a <= b`, with FLT_MAX and -FLT_MAX.
pub record Floats (R : Type 0) : Type 0 where
  pub lt : R → R → Bool
  pub le : R → R → Bool
  pub flt_max : R
  pub minus_flt_max : R

-- The six faces, in the order of `dx`, `dy` and `dz`.
pub data Face : Type 0 where
  left_face right_face down_face up_face front_face back_face : Face

abbrev pub faces : List Face
faces = left_face ∷ (right_face ∷ (down_face ∷ (up_face ∷ (front_face ∷ (back_face ∷ [])))))

-- `local_data[x + dx[i]][y + dy[i]][z + dz[i]]`
abbrev pub beside : {R : Type 0} → Face → Cube R → ℕ → ℕ → ℕ → R
beside left_face c x y z = c (x - 1) y z
beside right_face c x y z = c (x + 1) y z
beside down_face c x y z = c x (y - 1) z
beside up_face c x y z = c x (y + 1) z
beside front_face c x y z = c x y (z - 1)
beside back_face c x y z = c x y (z + 1)

-- A boundary with no neighbour in this direction.
abbrev pub skip : Face → Decomposition → ℕ → ℕ → ℕ → Bool
skip left_face d x y z = x == 1 && not (is_process d.left)
skip right_face d x y z = x == d.sub_nx && not (is_process d.right)
skip down_face d x y z = y == 1 && not (is_process d.down)
skip up_face d x y z = y == d.sub_ny && not (is_process d.up)
skip front_face d x y z = z == 1 && not (is_process d.front)
skip back_face d x y z = z == d.sub_nz && not (is_process d.back)

-- The counts and values that the caller's pointers lead to.
pub record Found (R : Type 0) : Type 0 where
  pub minima_count : ℕ
  pub maxima_count : ℕ
  pub min : R
  pub max : R

-- `is_min` and `is_max`
pub record Marks : Type 0 where
  pub is_min : Bool
  pub is_max : Bool

module _ {R : Type 0} (floats : Floats R) (d : Decomposition) (c : Cube R) where
  -- The loop over the six faces, with its `continue` and its `break`.
  unfoldable pub look_around : ℕ → ℕ → ℕ → List Face → Marks → Marks
  look_around x y z [] marks = marks
  look_around x y z (face ∷ rest) marks =
      let val = c x y z in
      let neighbor_val = beside face c x y z in
      let is_min = if floats.le neighbor_val val then false else marks.is_min in
      let is_max = if floats.le val neighbor_val then false else marks.is_max in
      let looked : Marks = record { is_min = is_min; is_max = is_max } in
      let continued = look_around x y z rest marks in
      let further = look_around x y z rest looked in
      if skip face d x y z
      then continued
      else (if not is_min && not is_max then looked else further)

  -- One point.
  unfoldable pub visit : ℕ → ℕ → ℕ → Found R → Found R
  unfolding look_around
  visit x y z found =
      let val = c x y z in
      let marks = look_around x y z faces (record { is_min = true; is_max = true }) in
      record {
        minima_count = if marks.is_min then suc found.minima_count else found.minima_count;
        maxima_count = if marks.is_max then suc found.maxima_count else found.maxima_count;
        min = if floats.lt val found.min then val else found.min;
        max = if floats.lt found.max val then val else found.max;
      }

  unfoldable pub find_minima_maxima : Found R → Found R
  unfolding for_3d visit
  find_minima_maxima = for_3d d.sub_nx d.sub_ny d.sub_nz visit
