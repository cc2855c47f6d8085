-- ===== src/BigInt/Status.antt =====
-- include/dnml_status.h: the statuses that the modelled operations return.
pub data Status : Type 0 where
  success : Status
  null : Status
  err_inval : Status
  err_sinval : Status
  err_store_in : Status
  err_range : Status
  err_aliased : Status
  alloc_oom : Status
