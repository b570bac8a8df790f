-- ===== src/Tests/Replies.antt =====
-- Replies of GT06 devices to commands, and settings.
use shalotrack_gateway.Shared.{◌≡◌, refl, none, some, ◌∷◌, [], ◌++◌}
use shalotrack_gateway.Shared.Bytes.{Bytes}
use shalotrack_gateway.Shared.Text.{Text, codes}
use shalotrack_gateway.Shared.Int.{pos, neg}
use shalotrack_gateway.Shared.Attempt.{returns}
use shalotrack_gateway.Parsers.V5.{payload_of}
use shalotrack_gateway.Parsers.Replies.{
  Reply, position, text_of, search, float_of, parse_command_response,
}
use shalotrack_gateway.Tests.Fixtures.{no_time}

abbrev where_text : Text
where_text = codes "Last position! Lat:S6.92,Lon:E79.8,Course:180,Speed:42,DateTime:?"

-- A short packet with two control characters before the text.
abbrev where_reply : Bytes
where_reply =
    0x78 ∷ 0x78 ∷ 0x4C ∷ 0x21 ∷ 1 ∷ 1 ∷ (where_text ++ (0 ∷ 1 ∷ 0xD9 ∷ 0xDC ∷ 0x0D ∷ 0x0A ∷ []))

abbrev where_read : Reply
where_read = record {
  raw_text = where_text;
  content = position (record {
    latitude = some (record { num = neg (pos 692); scale = 100 });
    longitude = some (record { num = pos 798; scale = 10 });
    course = some 180;
    speed = some 42;
    timestamp = none;
  });
}

where_parsed : parse_command_response no_time where_reply ≡ returns where_read
unfolding parse_command_response text_of payload_of search float_of
where_parsed = refl
