-- ===== src/Parsers/Replies/Clean.antt =====
-- parsers/command_response_parser.py: the text of a reply, and which replies are refused.
use shalotrack_gateway.Shared.{ℕ, Bool, not, ◌&&◌, ltb}
use shalotrack_gateway.Shared.Bytes.{Bytes}
use shalotrack_gateway.Shared.Text.{Text}
use shalotrack_gateway.Shared.Attempt.{Attempt}
use shalotrack_gateway.Parsers.Replies.{is_control}

-- What text columns take: ASCII with no control character but tabs and line breaks.
abbrev pub is_storable : ℕ → Bool
is_storable c = ltb c 128 && not (is_control c)
