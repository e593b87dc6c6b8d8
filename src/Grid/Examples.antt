-- ===== src/Grid/Examples.antt =====
-- Searches over whole numbers.
use mtech.Prelude.{ℕ, zero, suc, ◌≡◌, refl, Bool, true, false, not, List, [], ◌∷◌}
use mtech.Prelude.Int
use cubical.Agda.Builtin.Nat as Unary
use cubical.Agda.Builtin.Nat.{Nat}
use cubical.Cubical.Data.Int.Base as Whole
use cubical.Cubical.Data.Int.Base.{◌+pos◌, ◌+negsuc◌, ◌·◌, -◌, suc_ℤ, pred_ℤ}
use mtech.Grid.Search.{
  Arith, Axis, Row, for_range, rounds, search, coordinate, sum_from, linear, residue, satisfied,
  point_v0, gridloopsearch_v0, products, plans, residue_p1, passes, point_p1, plans_p1,
  gridloopsearch_p1, multiplied, sixth, set_sixth,
}

abbrev unary : ℕ → Nat
unary zero = Unary.zero
unary (suc n) = Unary.suc (unary n)

abbrev native : Nat → ℕ
native Unary.zero = 0
native (Unary.suc n) = suc (native n)

abbrev whole : Whole.ℤ → Int.ℤ
whole (Whole.pos n) = Int.pos (native n)
whole (Whole.negsuc n) = Int.negsuc (native n)

abbrev absolute : Whole.ℤ → Whole.ℤ
absolute (Whole.pos n) = Whole.pos n
absolute (Whole.negsuc n) = Whole.pos (Unary.suc n)

abbrev is_natural : Whole.ℤ → Bool
is_natural (Whole.pos n) = true
is_natural (Whole.negsuc n) = false

abbrev minus : Whole.ℤ → Whole.ℤ → Whole.ℤ
minus a b = Whole.◌+◌ a (-◌ b)

-- Whole numbers, and division by 1.
abbrev wholes : Arith
wholes = record {
  Real = Whole.ℤ;
  add = Whole.◌+◌;
  sub = minus;
  mul = ◌·◌;
  div = λ a b. a;
  fabs = absolute;
  floor = whole;
  of_int = λ n. Whole.pos (unary n);
  leb = λ a b. is_natural (minus b a);
  gtb = λ a b. not (is_natural (minus b a));
}

abbrev int : ℕ → Whole.ℤ
int n = Whole.pos (unary n)

abbrev axis : ℕ → Axis Whole.ℤ
axis n = record { first = int 0; last = int n; step = int 1 }

abbrev ten : {A : Type 0} → A → List A
ten a = a ∷ a ∷ a ∷ a ∷ a ∷ a ∷ a ∷ a ∷ a ∷ a ∷ []

-- Six axes, the last with two rounds, and five rows, of which the last tells the rounds apart.
abbrev zeros : List Whole.ℤ
zeros = int 0 ∷ int 0 ∷ int 0 ∷ int 0 ∷ int 0 ∷ int 0 ∷ []

abbrev blank : Row Whole.ℤ
blank = record { coefficients = zeros; target = int 0; error = int 0 }

abbrev telling : Row Whole.ℤ
telling = record {
  coefficients = int 0 ∷ int 0 ∷ int 0 ∷ int 0 ∷ int 0 ∷ int 1 ∷ [];
  target = int 0;
  error = int 0;
}

abbrev five : List (Row Whole.ℤ)
five = blank ∷ blank ∷ blank ∷ blank ∷ telling ∷ []

abbrev six : List (Axis Whole.ℤ)
six = axis 1 ∷ axis 1 ∷ axis 1 ∷ axis 1 ∷ axis 1 ∷ axis 2 ∷ []

-- Where c56 is not c16, p1 finds points that version 0 does not.
versions_differ :
    ((gridloopsearch_v0 wholes (int 1) five six).1 ≡ 1)
    × ((gridloopsearch_p1 wholes (int 1) five six).1 ≡ 2)
unfolding gridloopsearch_v0 gridloopsearch_p1 point_v0 point_p1 satisfied passes residue residue_p1
    linear sum_from plans_p1 plans products multiplied sixth set_sixth coordinate search for_range
    rounds -◌ ◌+pos◌ ◌+negsuc◌ ◌·◌ suc_ℤ pred_ℤ
versions_differ = (refl, refl)
