-- ===== src/Stencil/Scan.antt =====
-- What the look around a point finds: whether all the points beside it are larger, or all smaller.
use mtech.Prelude.{ℕ, ◌≡◌, Bool, true, false, not, ◌&&◌, ◌||◌, if◌then◌else◌, List, [], ◌∷◌, arith}
use mtech.Stencil.Decomposition.{Decomposition}
use mtech.Stencil.Cube.{Cube}
use mtech.Stencil.Extrema.{Floats, Face, beside, skip, Marks, look_around}

-- `a >= b`
abbrev pub at_least : {R : Type 0} → Floats R → R → R → Bool
at_least floats a b = floats.le b a

-- One face: whether it is skipped, whether the point beside is at most and at least the value, what
-- was so far, and what the rest finds where it is reached.
module _ (skipped at_most at_least was_min was_max rest_larger rest_smaller : Bool)
    (continued further : Marks) where
  abbrev looked : Marks
  looked = record {
    is_min = if at_most then false else was_min;
    is_max = if at_least then false else was_max;
  }

  abbrev result : Marks
  result =
      if skipped
      then continued
      else (if not looked.is_min && not looked.is_max then looked else further)

  look-is_min :
      continued.is_min ≡ (was_min && rest_larger)
      → further.is_min ≡ (looked.is_min && rest_larger)
      → result.is_min ≡ (was_min && ((skipped || not at_most) && rest_larger))
  look-is_min e e' = ground arith

  look-is_max :
      continued.is_max ≡ (was_max && rest_smaller)
      → further.is_max ≡ (looked.is_max && rest_smaller)
      → result.is_max ≡ (was_max && ((skipped || not at_least) && rest_smaller))
  look-is_max e e' = ground arith

module _ {R : Type 0} (d : Decomposition) (c : Cube R) (x y z : ℕ) where
  -- Every face is without a neighbour or has one that does not compare to the value this way.
  abbrev pub clear : (R → R → Bool) → List Face → Bool
  clear compare [] = true
  clear compare (face ∷ rest) =
      (skip face d x y z || not (compare (beside face c x y z) (c x y z))) && clear compare rest

module _ {R : Type 0} (floats : Floats R) (d : Decomposition) (c : Cube R) (x y z : ℕ) where
  -- The early exit changes nothing.
  pub look_around_lem :
      (list : List Face) (marks : Marks)
      → ((look_around floats d c x y z list marks).is_min
          ≡ (marks.is_min && clear d c x y z floats.le list))
        × ((look_around floats d c x y z list marks).is_max
            ≡ (marks.is_max && clear d c x y z (at_least floats) list))
  unfolding look_around
  look_around_lem [] marks = (ground arith, ground arith)
  look_around_lem (face ∷ rest) marks =
      let val = c x y z in
      let neighbor_val = beside face c x y z in
      let s = skip face d x y z in
      let l = floats.le neighbor_val val in
      let h = floats.le val neighbor_val in
      let m = marks.is_min in
      let M = marks.is_max in
      let A = clear d c x y z floats.le rest in
      let B = clear d c x y z (at_least floats) rest in
      let next : Marks = record {
        is_min = if l then false else m;
        is_max = if h then false else M;
      } in
      let continued = look_around floats d c x y z rest marks in
      let further = look_around floats d c x y z rest next in
      let (low, high) = look_around_lem rest marks in
      let (low', high') = look_around_lem rest next in
      (
        look-is_min s l h m M A B continued further low low',
        look-is_max s l h m M A B continued further high high',
      )
