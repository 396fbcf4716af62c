-- ===== src/Immutability/Protects.antt =====
-- What the triggers guarantee against every client of the database.
use edgar_moe.Common.{string_eq, nat_eq}
use edgar_moe.Registry.Records.{run_type_eq, run_status_eq}
