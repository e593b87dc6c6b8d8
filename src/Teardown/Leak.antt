-- ===== src/Teardown/Leak.antt =====
-- An address space that goes through the list, against one that `mmput` tears down itself.
use mtech.Prelude.{List}
use mtech.Teardown.State.{State}
