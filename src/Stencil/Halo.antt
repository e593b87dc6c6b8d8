-- ===== src/Stencil/Halo.antt =====
-- After the exchange, the ghost cells hold the points of the neighbours' blocks.
use mtech.Prelude.{ℕ, ◌+◌, ◌-◌, ◌<◌, ◌≡◌, refl, ◌∙◌, some, arith}
use mtech.Stencil.Decomposition.{Params, Decomposition, compute_decomposition, Check, check}
use mtech.Stencil.Loops.{Within}
use mtech.Stencil.Cube.{Cube, Buffer, flat}
use mtech.Stencil.Exchange.{
  Direction, x_direction, y_direction, z_direction, cell, layers, rows, width, low, high, Call, Mpi,
  pack, down_call, up_call, exchange_direction, exchange_boundary_data, first_layers, last_layers,
}
use mtech.Stencil.Links.{start, row_start, width_start, high-link, low-link}
use mtech.Stencil.Faces.{flat-lt, pack_lem, unpack-low, unpack-high, unpack-inside}

-- What MPI documents of MPI_Sendrecv: where the source of one process's call names a process whose
-- call names it as the destination, the receive buffer gets the send buffer's entries.
pub record Delivers {R : Type 0} (mpi : Mpi R) : Type 0 where
  pub delivers :
      (calls : ℕ → Call R) (r s i : ℕ)
      → (calls r).source ≡ some s
      → (calls s).dest ≡ some r
      → i < (calls s).count
      → mpi.sendrecv calls r i ≡ (calls s).send i

-- The real points of a process are those of the global field in its block.
abbrev pub HoldsBlock : {R : Type 0} → Cube R → Decomposition → Cube R → Type 0
HoldsBlock field d c =
    (x y z : ℕ)
    → Within d.sub_nx x
    → Within d.sub_ny y
    → Within d.sub_nz z
    → c x y z ≡ field (d.start_x + (x - 1)) (d.start_y + (y - 1)) (d.start_z + (z - 1))

-- A cell of layer `a` is the point of the global field `g` layers from where the axis starts.
abbrev pub Shows :
    {R : Type 0} → Direction → Cube R → Decomposition → Cube R → ℕ → ℕ → ℕ → ℕ → Type 0
Shows dir field d c a g u v =
    cell dir c a u v ≡ cell dir field g (row_start dir d + (u - 1)) (width_start dir d + (v - 1))

module _ {R : Type 0} (field : Cube R) (d : Decomposition) (c : Cube R) where
  pub HoldsBlock-Shows :
      HoldsBlock field d c
      → (dir : Direction) (a u v : ℕ) → Within (layers dir d) a
      → Within (rows dir d) u
      → Within (width dir d) v
      → Shows dir field d c a (start dir d + (a - 1)) u v
  HoldsBlock-Shows h x_direction a u v wa wu wv = h a u v wa wu wv
  HoldsBlock-Shows h y_direction a u v wa wu wv = h u a v wu wa wv
  HoldsBlock-Shows h z_direction a u v wa wu wv = h u v a wu wv wa

module _ {R : Type 0} (p : Params) (mpi : Mpi R) (size : ℕ) (passed : check p size ≡ Check.passed)
    (mpi_ok : Delivers mpi) (blank : Buffer R) (field : Cube R) (world : ℕ → Cube R)
    (blocks : (r : ℕ) → r < size → HoldsBlock field (compute_decomposition p r) (world r)) where
  abbrev D : ℕ → Decomposition
  D = compute_decomposition p

  -- All blocks have the same size.
  same_faces :
      (dir : Direction) (r s : ℕ)
      → (rows dir (D r) ≡ rows dir (D s))
        × (width dir (D r) ≡ width dir (D s))
        × (layers dir (D r) ≡ layers dir (D s))
  unfolding compute_decomposition
  same_faces x_direction r s = (refl, refl, refl)
  same_faces y_direction r s = (refl, refl, refl)
  same_faces z_direction r s = (refl, refl, refl)

  module _ (dir : Direction) (r : ℕ) (inside : r < size) (u v : ℕ) (wu : Within (rows dir (D r)) u)
      (wv : Within (width dir (D r)) v) (some_layer : 0 < layers dir (D r)) where
    -- What a packed layer of a process with the same faces holds.
    packed :
        (s layer : ℕ)
        → s < size
        → Within (layers dir (D r)) layer
        → pack p mpi dir (D s) layer (world s) blank (flat (width dir (D r)) u v)
          ≡ cell dir field
              (start dir (D s) + (layer - 1))
              (row_start dir (D s) + (u - 1))
              (width_start dir (D s) + (v - 1))
    packed s layer h w =
        let (er, ew, el) = same_faces dir r s in
        let at_s =
          pack_lem p mpi dir (D s) layer (world s) blank u v (rw (← er) wu) (rw (← ew) wv) in
        rw ew (
          at_s
          ∙ HoldsBlock-Shows field (D s) (world s) (blocks s h) dir layer u v (rw (← el) w)
              (rw (← er) wu) (rw (← ew) wv))

    exchange_direction-low :
        (w : ℕ → Cube R) {s : ℕ}
        → low dir (D r) ≡ some s
        → Shows dir field
            (D r)
            (exchange_direction p mpi dir
              (first_layers p mpi blank world dir)
              (last_layers p mpi blank world dir)
              w
              r)
            0
            (start dir (D r) - 1)
            u
            v
    unfolding exchange_direction last_layers
    exchange_direction-low w {s} l =
        let (there, back, f) = low-link p size passed r s dir inside l in
        let (er, ew, el) = same_faces dir r s in
        let n = layers dir (D s) in
        let calls = up_call p mpi dir (last_layers p mpi blank world dir) in
        let reach : start dir (D s) + (n - 1) ≡ start dir (D r) - 1 = omega (arith, f.start, el) in
        unpack-low p mpi dir (D r) (mpi.sendrecv calls r)
          (mpi.sendrecv (down_call p mpi dir (first_layers p mpi blank world dir)) r) (w r) u v l wu
          wv
        ∙ (mpi_ok.delivers calls r s (flat (width dir (D r)) u v) l back
              (rw (← er) (rw (← ew) (flat-lt _ _ u v wu wv)))
            ∙ (packed s n there (omega (arith, el)) ∙ cc (reach, f.row_start, f.width_start)))

    exchange_direction-high :
        (w : ℕ → Cube R) {s : ℕ}
        → high dir (D r) ≡ some s
        → Shows dir field
            (D r)
            (exchange_direction p mpi dir
              (first_layers p mpi blank world dir)
              (last_layers p mpi blank world dir)
              w
              r)
            (layers dir (D r) + 1)
            (start dir (D r) + layers dir (D r))
            u
            v
    unfolding exchange_direction first_layers
    exchange_direction-high w {s} l =
        let (there, back, f) = high-link p size passed r s dir inside l in
        let (er, ew, el) = same_faces dir r s in
        let calls = down_call p mpi dir (first_layers p mpi blank world dir) in
        let reach : start dir (D s) + 0 ≡ start dir (D r) + layers dir (D r) =
          omega (arith, f.start) in
        unpack-high p mpi dir (D r)
          (mpi.sendrecv (up_call p mpi dir (last_layers p mpi blank world dir)) r)
          (mpi.sendrecv calls r) (w r) u v l wu wv
        ∙ (mpi_ok.delivers calls r s (flat (width dir (D r)) u v) l back
              (rw (← er) (rw (← ew) (flat-lt _ _ u v wu wv)))
            ∙ (packed s 1 there (omega arith) ∙ cc (reach, f.row_start, f.width_start)))

  exchange_direction-inside :
      (dir : Direction) (first last : ℕ → Buffer R) (w : ℕ → Cube R) (r a u v : ℕ)
      → Within (layers dir (D r)) a
      → cell dir (exchange_direction p mpi dir first last w r) a u v ≡ cell dir (w r) a u v
  unfolding exchange_direction
  exchange_direction-inside dir first last w r a u v =
      unpack-inside p mpi dir (D r) (mpi.sendrecv (up_call p mpi dir last) r)
        (mpi.sendrecv (down_call p mpi dir first) r) (w r) u v a

  abbrev first : Direction → ℕ → Buffer R
  first = first_layers p mpi blank world

  abbrev last : Direction → ℕ → Buffer R
  last = last_layers p mpi blank world

  -- The arrays before the second and the third direction.
  abbrev after_x : ℕ → Cube R
  after_x = exchange_direction p mpi x_direction (first x_direction) (last x_direction) world

  abbrev after_y : ℕ → Cube R
  after_y = exchange_direction p mpi y_direction (first y_direction) (last y_direction) after_x

  module _ (r u v : ℕ) where
    inside_x : (a : ℕ) → Within (layers x_direction (D r)) a → after_x r a u v ≡ world r a u v
    inside_x a =
        exchange_direction-inside x_direction (first x_direction) (last x_direction) world r a u v

    inside_y : (a : ℕ) → Within (layers y_direction (D r)) a → after_y r u a v ≡ after_x r u a v
    inside_y a =
        exchange_direction-inside y_direction (first y_direction) (last y_direction) after_x r a u v

    inside_z :
        (a : ℕ)
        → Within (layers z_direction (D r)) a
        → exchange_boundary_data p mpi blank world r u v a ≡ after_y r u v a
    unfolding exchange_boundary_data
    inside_z a =
        exchange_direction-inside z_direction (first z_direction) (last z_direction) after_y r a u v

  module _ (r : ℕ) (inside : r < size) where
    abbrev E : Cube R
    E = exchange_boundary_data p mpi blank world r

    -- The real points stay, in every direction of the exchange.
    pub exchange-HoldsBlock : HoldsBlock field (D r) E
    exchange-HoldsBlock x y z wx wy wz =
        inside_z r x y z wz
        ∙ (inside_y r x z y wy ∙ (inside_x r y z x wx ∙ blocks r inside x y z wx wy wz))

    module _ (u v : ℕ) where
      pub exchange-low :
          (dir : Direction) {s : ℕ}
          → 0 < layers dir (D r)
          → Within (rows dir (D r)) u
          → Within (width dir (D r)) v
          → low dir (D r) ≡ some s
          → Shows dir field (D r) E 0 (start dir (D r) - 1) u v
      unfolding exchange_boundary_data
      exchange-low x_direction some_layer wu wv l =
          inside_z r 0 u v wv
          ∙ (inside_y r 0 v u wu
              ∙ exchange_direction-low x_direction r inside u v wu wv some_layer world l)
      exchange-low y_direction some_layer wu wv l =
          inside_z r u 0 v wv
          ∙ exchange_direction-low y_direction r inside u v wu wv some_layer after_x l
      exchange-low z_direction some_layer wu wv l =
          exchange_direction-low z_direction r inside u v wu wv some_layer after_y l

      pub exchange-high :
          (dir : Direction) {s : ℕ}
          → 0 < layers dir (D r)
          → Within (rows dir (D r)) u
          → Within (width dir (D r)) v
          → high dir (D r) ≡ some s
          → Shows dir field (D r) E (layers dir (D r) + 1) (start dir (D r) + layers dir (D r)) u v
      unfolding exchange_boundary_data
      exchange-high x_direction some_layer wu wv l =
          inside_z r (layers x_direction (D r) + 1) u v wv
          ∙ (inside_y r (layers x_direction (D r) + 1) v u wu
              ∙ exchange_direction-high x_direction r inside u v wu wv some_layer world l)
      exchange-high y_direction some_layer wu wv l =
          inside_z r u (layers y_direction (D r) + 1) v wv
          ∙ exchange_direction-high y_direction r inside u v wu wv some_layer after_x l
      exchange-high z_direction some_layer wu wv l =
          exchange_direction-high z_direction r inside u v wu wv some_layer after_y l
