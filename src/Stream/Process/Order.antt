-- ===== src/Stream/Process/Order.antt =====
-- `_write_postgres` of src/processing/stream_processor.py on a frame, whose rows have no order.
use mathlib.Core.List.Perm
use mathlib.Core.List.{Perm}
use aiops_distributed_log.Prelude.{List, string_eq, option_eq, nat_eq, pair_eq}
