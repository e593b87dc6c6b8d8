-- ===== src/Stencil/Exchange.antt =====
-- `exchange_boundary_data`, run by all the processes together.
use mtech.Prelude.{ℕ, ◌+◌, ◌*◌, Bool, true, false, Option, none, some, if◌then◌else◌}
use mtech.Prelude.Family.{update}
use mtech.Stencil.Decomposition.{Params, Decomposition, compute_decomposition}
use mtech.Stencil.Loops.{for_2d}
use mtech.Stencil.Cube.{Cube, Buffer, set_cell, flat}

-- The X-, Y- and Z-direction.
pub data Direction : Type 0 where
  x_direction y_direction z_direction : Direction

-- A cell by its coordinate in a direction and the other two, in the order of the loops.
abbrev pub cell : {R : Type 0} → Direction → Cube R → ℕ → ℕ → ℕ → R
cell x_direction c a u v = c a u v
cell y_direction c a u v = c u a v
cell z_direction c a u v = c u v a

abbrev pub put : {R : Type 0} → Direction → ℕ → ℕ → ℕ → R → Cube R → Cube R
put x_direction a u v = set_cell a u v
put y_direction a u v = set_cell u a v
put z_direction a u v = set_cell u v a

-- How many layers a block has in a direction, and the two sizes of its faces.
abbrev pub layers : Direction → Decomposition → ℕ
layers x_direction d = d.sub_nx
layers y_direction d = d.sub_ny
layers z_direction d = d.sub_nz

abbrev pub rows : Direction → Decomposition → ℕ
rows x_direction d = d.sub_ny
rows y_direction d = d.sub_nx
rows z_direction d = d.sub_nx

abbrev pub width : Direction → Decomposition → ℕ
width x_direction d = d.sub_nz
width y_direction d = d.sub_nz
width z_direction d = d.sub_ny

-- neighbors[0], [2] and [4], and neighbors[1], [3] and [5].
abbrev pub low : Direction → Decomposition → Option ℕ
low x_direction d = d.left
low y_direction d = d.down
low z_direction d = d.front

abbrev pub high : Direction → Decomposition → Option ℕ
high x_direction d = d.right
high y_direction d = d.up
high z_direction d = d.back

-- One call of MPI_Sendrecv.
pub record Call (R : Type 0) : Type 0 where
  pub send : Buffer R
  pub count : ℕ
  pub dest : Option ℕ
  pub source : Option ℕ

-- What the calls for the file view are given: the shape of the file, in blocks of `nc` floats, and the
-- part of it that the process reads.
pub record View : Type 0 where
  pub sizes : ℕ × ℕ × ℕ
  pub subsizes : ℕ × ℕ × ℕ
  pub starts : ℕ × ℕ × ℕ
  pub nc : ℕ

-- What MPI does: `read_all view count file` is the buffer into which a process reads `count` floats through its view; `sendrecv calls r` is the buffer that process `r` receives when every process makes
-- its call; `reduce_sum n f`, `reduce_min n f` and `reduce_max n f` are what the root gets of the
-- numbers of `n` processes under MPI_SUM, MPI_MIN and MPI_MAX.
pub record Mpi (R : Type 0) : Type 0 where
  pub read_all : View → ℕ → Buffer R → Buffer R
  pub sendrecv : (ℕ → Call R) → ℕ → Buffer R
  pub reduce_sum : ℕ → (ℕ → ℕ) → ℕ
  pub reduce_min : ℕ → (ℕ → R) → R
  pub reduce_max : ℕ → (ℕ → R) → R

abbrev pub is_process : Option ℕ → Bool
is_process none = false
is_process (some r) = true

module _ {R : Type 0} (p : Params) (mpi : Mpi R) where
  -- The first or the last real layer, packed into the buffer that `malloc` gave.
  unfoldable pub pack : Direction → Decomposition → ℕ → Cube R → Buffer R → Buffer R
  unfolding for_2d flat
  pack dir d layer c blank =
      for_2d (rows dir d) (width dir d)
        (λ u v buffer. update buffer (flat (width dir d) u v) (cell dir c layer u v)) blank

  -- What was received for one cell of a face goes into the ghost cells, where there is a neighbour.
  unfoldable pub fill_ghosts :
      Direction → Decomposition → Buffer R → Buffer R → ℕ → ℕ → Cube R → Cube R
  unfolding flat
  fill_ghosts dir d recv_low recv_high u v c =
      let c' =
        if is_process (low dir d) then put dir 0 u v (recv_low (flat (width dir d) u v)) c else c in
      if is_process (high dir d)
      then put dir (layers dir d + 1) u v (recv_high (flat (width dir d) u v)) c'
      else c'

  unfoldable pub unpack : Direction → Decomposition → Buffer R → Buffer R → Cube R → Cube R
  unfolding for_2d fill_ghosts
  unpack dir d recv_low recv_high =
      for_2d (rows dir d) (width dir d) (fill_ghosts dir d recv_low recv_high)

  -- The two calls of a direction.
  abbrev pub down_call : Direction → (ℕ → Buffer R) → ℕ → Call R
  down_call dir sent r =
      let d = compute_decomposition p r in
      record {
        send = sent r;
        count = rows dir d * width dir d;
        dest = low dir d;
        source = high dir d;
      }

  abbrev pub up_call : Direction → (ℕ → Buffer R) → ℕ → Call R
  up_call dir sent r =
      let d = compute_decomposition p r in
      record {
        send = sent r;
        count = rows dir d * width dir d;
        dest = high dir d;
        source = low dir d;
      }

  -- The exchange in one direction, of the packed first and last layers.
  unfoldable pub exchange_direction :
      Direction → (ℕ → Buffer R) → (ℕ → Buffer R) → (ℕ → Cube R) → ℕ → Cube R
  unfolding unpack
  exchange_direction dir first_layer last_layer world r =
      unpack dir (compute_decomposition p r) (mpi.sendrecv (up_call dir last_layer) r)
        (mpi.sendrecv (down_call dir first_layer) r) (world r)

  -- send_left, send_down and send_front, and send_right, send_up and send_back.
  unfoldable pub first_layers : Buffer R → (ℕ → Cube R) → Direction → ℕ → Buffer R
  unfolding pack
  first_layers blank world dir r = pack dir (compute_decomposition p r) 1 (world r) blank

  unfoldable pub last_layers : Buffer R → (ℕ → Cube R) → Direction → ℕ → Buffer R
  unfolding pack
  last_layers blank world dir r =
      let d = compute_decomposition p r in pack dir d (layers dir d) (world r) blank

  -- All faces are packed before the first exchange.
  unfoldable pub exchange_boundary_data : Buffer R → (ℕ → Cube R) → ℕ → Cube R
  unfolding pack exchange_direction first_layers last_layers
  exchange_boundary_data blank world =
      let first = first_layers blank world in
      let last = last_layers blank world in
      let after_x = exchange_direction x_direction (first x_direction) (last x_direction) world in
      let after_y = exchange_direction y_direction (first y_direction) (last y_direction) after_x in
      exchange_direction z_direction (first z_direction) (last z_direction) after_y
