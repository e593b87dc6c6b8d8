-- ===== src/Hook/Sysfs.antt =====
-- The attributes, the log file, and the loading of the module. `kstrtoint` is not modelled: a store
-- takes the number that it converted, `none` where it converted none.
use mtech.Prelude.{true, false, not, Option, none, some, List, [], ℕ, if◌then◌else◌}
use mtech.Prelude.Int.{ℤ, pos, negsuc, eqb_ℤ}
use mtech.Hook.State.{LogLine, State, FuncTimer}

-- The result of a store: `count` bytes taken, or `-EINVAL`.
pub data Stored : Type 0 where
  taken : ℕ → Stored
  invalid : Stored

unfoldable pub read_pid : State → ℤ
read_pid s = s.tracked_pid

-- A new process starts with an empty stack and an empty log.
unfoldable pub set_pid : Option ℤ → ℕ → State → State × Stored
set_pid none count s = (s, invalid)
set_pid (some (negsuc n)) count s = (s, invalid)
set_pid (some (pos n)) count s =
    (record s { tracked_pid = pos n; stack = []; log = []; log_offset = 0 }, taken count)

unfoldable pub opt_store : Option ℤ → ℕ → State → State × Stored
opt_store none count s = (s, invalid)
opt_store (some v) count s =
    if eqb_ℤ v (pos 0)
    then (record s { optimization_on = false }, taken count)
    else (if eqb_ℤ v (pos 1)
        then (record s { optimization_on = true }, taken count)
        else (s, invalid))

-- `seq_write(m, log_buffer, log_offset)`
unfoldable pub log_show : State → List LogLine
log_show s = s.log

-- `sysfs_create_group` answers with `ret`.
unfoldable pub exechook_init : ℤ → State → State × ℤ
exechook_init ret s =
    if not (eqb_ℤ ret (pos 0)) then (s, ret) else (record s { hooked = true }, pos 0)

-- The hooks are taken out and the frames that are left are printed, top first.
unfoldable pub exechook_exit : State → State × List FuncTimer
exechook_exit s = (record s { hooked = false; stack = [] }, s.stack)
