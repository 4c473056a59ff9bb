-- ===== src/Kernel/Invariant/Booted.antt =====
-- The kernel from its start on.
use peps_os.Pipes.{Pipes}
use peps_os.Kernel.{Kernel, Memory}
