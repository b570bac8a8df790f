-- ===== src/Parsers/Gps103/Clock/Fields.antt =====
-- The two time fields of a GPS103 report, and the timestamp that `resolve_utc_timestamp` of
-- parsers/gps103_parser.py makes of them.
use shalotrack_gateway.Shared.Text.{Text}
