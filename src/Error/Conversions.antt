-- ===== src/Error/Conversions.antt =====
-- The conversions of durian/src/error.rs and the two signals that end a contract normally.
use durian.Base.{◌≢◌, arith}
use durian.Error.{Error, TrapKind, from_trap}

-- A converted trap is never one of the two signals by which a contract ends normally.
pub from_trap-ne-signal :
    (k : TrapKind) → (from_trap k ≢ Error.return) × (from_trap k ≢ Error.suicide)
unfolding from_trap
from_trap-ne-signal TrapKind.unreachable = ground arith
from_trap-ne-signal _ = ground arith
