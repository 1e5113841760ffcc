-- ===== src/Database/Errors.antt =====
-- packages/cemp-database/src/errors.ts: the codes that the repositories throw.
pub data DatabaseError : Type 0 where
  not_found illegal_state_transition constraint_violation adapter_error : DatabaseError
