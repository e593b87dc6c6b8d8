-- ===== src/Stencil/Fill.antt =====
-- The blocks are those of the file.
use mtech.Prelude.{ℕ, ◌+◌, ◌-◌, ◌*◌, ◌/◌, ◌^◌, ◌<◌, ◌≡◌, sym, ap, ◌∙◌, arith, ℕ_discrete}
use mtech.Stencil.Decomposition.{Params, Decomposition, compute_decomposition}
use mtech.Stencil.Loops.{Within, for_3d_reach}
use mtech.Stencil.Cube.{Cube, Buffer, set_cell}
use mtech.Stencil.Exchange.{View, Mpi}
use mtech.Stencil.Halo.{HoldsBlock}
use mtech.Stencil.Step.{local_size, view, flat_index, fill}
use mtech.Prelude.Digits.{digits-lt}
use native.Mathlib.Nat.{mod-eq_of_lt, mul_comm, mul_assoc}

-- What MPI documents of a view by a subarray in C order: the entries of the part follow each other as
-- they do in the file, up to the count, an `int`, of those that are read.
pub record Reads {R : Type 0} (mpi : Mpi R) : Type 0 where
  pub reads :
      (v : View) (count : ℕ) (file : Buffer R) (k j i t : ℕ)
      → count < 2 ^ 31
      → ((k * v.subsizes.1 + j) * v.subsizes.2 + i) * v.nc + t < count
      → k < v.subsizes.0
      → j < v.subsizes.1
      → i < v.subsizes.2
      → t < v.nc
      → mpi.read_all v count file (((k * v.subsizes.1 + j) * v.subsizes.2 + i) * v.nc + t)
        ≡ file (
            (((v.starts.0 + k) * v.sizes.1 + (v.starts.1 + j)) * v.sizes.2 + (v.starts.2 + i))
              * v.nc
            + t)

abbrev block_floats : Params → Decomposition → ℕ
block_floats p d = d.sub_nx * d.sub_ny * d.sub_nz * p.nc

-- The floats of a block, which `int` can count.
abbrev pub BlocksFit : Params → Type 0
BlocksFit p = p.nx / p.px * (p.ny / p.py) * (p.nz / p.pz) * p.nc < 2 ^ 31

block_index :
    (a b c n z y x t : ℕ)
    → z < c
    → y < b
    → x < a
    → t < n
    → ((z * b + y) * a + x) * n + t < a * b * c * n
block_index a b c n z y x t hz hy hx ht =
    let rows = digits-lt b z y hy c hz in
    let points = digits-lt a (z * b + y) x hx (c * b) rows in
    let floats = digits-lt n ((z * b + y) * a + x) t ht (c * b * a) points in
    let order : c * b * a ≡ a * b * c =
      mul_comm (c * b) a ∙ ap (λ (m : ℕ). a * m) (mul_comm c b) ∙ sym (mul_assoc a b c) in
    rw (← order) floats

-- The point of the grid in the file, for a time step.
abbrev pub field_of : {R : Type 0} → Params → Buffer R → ℕ → Cube R
field_of p file t gx gy gz = file (((gz * p.ny + gy) * p.nx + gx) * p.nc + t)

set_same :
    {R : Type 0} (x y z x' y' z' : ℕ) {v w : R} (c : Cube R)
    → (x ≡ x' → y ≡ y' → z ≡ z' → v ≡ w)
    → c x' y' z' ≡ w
    → set_cell x y z v c x' y' z' ≡ w
set_same x y z x' y' z' c h same = elim (ℕ_discrete x x') [
  | no ne ↦ ground arith
  | yes ex ↦ elim (ℕ_discrete y y') [
    | no ne ↦ ground arith
    | yes ey ↦ elim (ℕ_discrete z z') [
      | no ne ↦ ground arith
      | yes ez ↦ let v_w = h ex ey ez in ground arith
    ]
  ]
]

pub BlocksFit-block_floats :
    (p : Params) (rank : ℕ) → BlocksFit p → block_floats p (compute_decomposition p rank) < 2 ^ 31
unfolding compute_decomposition
BlocksFit-block_floats p rank fits = fits

module _ {R : Type 0} (p : Params) (zero_value : R) (d : Decomposition) (t : ℕ) where
  fill_lem :
      (local_buffer : Buffer R) (x y z : ℕ)
      → Within d.sub_nx x
      → Within d.sub_ny y
      → Within d.sub_nz z
      → fill p zero_value d local_buffer t x y z ≡ local_buffer (flat_index p d t x y z)
  unfolding fill
  fill_lem local_buffer x y z wx wy wz =
      for_3d_reach (λ c. c x y z ≡ local_buffer (flat_index p d t x y z)) d.sub_nx d.sub_ny d.sub_nz
        (λ u v w. set_cell u v w (local_buffer (flat_index p d t u v w))) x y z wx wy wz
        (λ c. ground arith)
        (λ u v w c wu wv ww same. set_same u v w x y z c (λ ex ey ez. cc (ex, ey, ez)) same)
        (λ u v w. zero_value)

  pub fill-HoldsBlock :
      (mpi : Mpi R)
      → Reads mpi
      → block_floats p d < 2 ^ 31
      → (file : Buffer R) → t < p.nc
      → HoldsBlock
          (field_of p file t)
          d
          (fill p zero_value d (mpi.read_all (view p d) (local_size p d) file) t)
  fill-HoldsBlock mpi mpi_ok fits file h x y z wx wy wz =
      let inside =
        block_index d.sub_nx d.sub_ny d.sub_nz p.nc (z - 1) (y - 1) (x - 1) t (omega arith)
          (omega arith) (omega arith) h in
      let buffer = mpi.read_all (view p d) (local_size p d) file in
      let size : local_size p d ≡ block_floats p d = mod-eq_of_lt (omega arith) in
      let index : flat_index p d t x y z
          ≡ (((z - 1) * d.sub_ny + (y - 1)) * d.sub_nx + (x - 1)) * p.nc + t =
        mod-eq_of_lt (omega arith) in
      fill_lem buffer x y z wx wy wz
      ∙ ap buffer index
      ∙ mpi_ok.reads (view p d) (local_size p d) file (z - 1) (y - 1) (x - 1) t
          (omega (arith, size)) (omega (arith, size, inside)) (omega arith) (omega arith)
          (omega arith) h
