-- ===== src/Teardown/Sysfs.antt =====
-- The attributes of /sys/kernel/time. `sscanf` is not modelled: a store takes what it converted, and
-- `none` where it converted nothing.
use mtech.Prelude.{ℕ, Option, none, some, not, ltb, if◌then◌else◌, ◌<◌, arith}
use mtech.Prelude.Int.{ℤ, pos, eqb_ℤ}
use mtech.Teardown.State.{Tunables}

-- The result of a store: `count` bytes taken, or `-EINVAL`.
pub data Stored : Type 0 where
  taken : ℕ → Stored
  invalid : Stored

unfoldable pub pid_store : Option ℤ → ℕ → Tunables → Tunables × Stored
pid_store none count t = (t, invalid)
pid_store (some v) count t = (record t { target_pid = v }, taken count)

-- `enabled = !!enabled`
unfoldable pub enabled_store : Option ℤ → ℕ → Tunables → Tunables × Stored
enabled_store none count t = (t, invalid)
enabled_store (some v) count t = (record t { enabled = not (eqb_ℤ v (pos 0)) }, taken count)

unfoldable pub oom_threshold_store : Option ℕ → ℕ → Tunables → Tunables × Stored
oom_threshold_store none count t = (t, invalid)
oom_threshold_store (some v) count t = (record t { oom_threshold_kb = v }, taken count)

unfoldable pub min_vm_pages_store : Option ℕ → ℕ → Tunables → Tunables × Stored
min_vm_pages_store none count t = (t, invalid)
min_vm_pages_store (some v) count t = (record t { min_vm_pages = v }, taken count)

unfoldable pub batch_size_store : Option ℕ → ℕ → Tunables → Tunables × Stored
batch_size_store none count t = (t, invalid)
batch_size_store (some v) count t =
    (record t { batch_size = if ltb v 1 then 1 else v }, taken count)

-- A store through one of the attributes.
pub data Store (t : Tunables) : Tunables → Type 0 where
  pid : (v : Option ℤ) (count : ℕ) → Store t (pid_store v count t).0
  enabled : (v : Option ℤ) (count : ℕ) → Store t (enabled_store v count t).0
  oom_threshold : (v : Option ℕ) (count : ℕ) → Store t (oom_threshold_store v count t).0
  min_vm_pages : (v : Option ℕ) (count : ℕ) → Store t (min_vm_pages_store v count t).0
  batch_size : (v : Option ℕ) (count : ℕ) → Store t (batch_size_store v count t).0

-- No store leaves a batch size of 0, so the batches of the worker are never empty.
pub Store-batch_size : {t t' : Tunables} → Store t t' → 0 < t.batch_size → 0 < t'.batch_size
unfolding pid_store enabled_store oom_threshold_store min_vm_pages_store batch_size_store
Store-batch_size (pid none c) h = h
Store-batch_size (pid (some v) c) h = h
Store-batch_size (enabled none c) h = h
Store-batch_size (enabled (some v) c) h = h
Store-batch_size (oom_threshold none c) h = h
Store-batch_size (oom_threshold (some v) c) h = h
Store-batch_size (min_vm_pages none c) h = h
Store-batch_size (min_vm_pages (some v) c) h = h
Store-batch_size (batch_size none c) h = h
Store-batch_size (batch_size (some v) c) h = ground arith
