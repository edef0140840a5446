-- ===== src/Compare.antt =====
-- libchimp/include/chimp/class.h: what a comparison says.
pub data CmpResult : Type 0 where
  cmp_error not_impl lt eq gt : CmpResult
