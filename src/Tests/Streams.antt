-- ===== src/Tests/Streams.antt =====
-- The framers and the checksums at concrete bytes.
use shalotrack_gateway.Shared.{◌≡◌, ◌≢◌, refl, [], ◌∷◌, ◌++◌, arith, some, take, drop}
use shalotrack_gateway.Shared.Bytes.{Bytes}
use shalotrack_gateway.Registry.{gt06, gps103}
use shalotrack_gateway.Checksum.{crc16_ibm, crc16_x25}
use shalotrack_gateway.Checksum.Detects.{crc16_ibm_detects, crc16_x25_detects}
use shalotrack_gateway.Framing.Splitter.{done, prefixed, extract, split}
use shalotrack_gateway.Framing.Chunks.{feed_all, joined, concat}
use shalotrack_gateway.Framing.Gt06.{extract_packets, gt06_framer}
use shalotrack_gateway.Framing.Teltonika.{extract_frames, teltonika_framer}
use shalotrack_gateway.Framing.Gps103.{extract_messages, message_turn}
use shalotrack_gateway.Framing.Streams.{
  extract_packets_reads, extract_frames_reads, extract_packets-resync, extract_frames-concat,
  IsPacket, IsTeltonikaFrame,
}
use shalotrack_gateway.Framing.Gps103.{extract_messages-append}
use shalotrack_gateway.Detect.{detect_protocol}
use shalotrack_gateway.Detect.Frames.{detect_protocol-IsPacket}
use shalotrack_gateway.Tests.Fixtures.{gt06_login, gt06_status, teltonika_login, avl_packet}

abbrev status_start : Bytes
status_start = take 5 gt06_status

abbrev status_end : Bytes
status_end = drop 5 gt06_status

status_IsPacket : IsPacket gt06_status
status_IsPacket = IsPacket.short (omega arith) refl refl

login_IsPacket : IsPacket gt06_login
login_IsPacket = IsPacket.short (omega arith) refl refl

login_IsTeltonikaFrame : IsTeltonikaFrame 1280 teltonika_login
login_IsTeltonikaFrame = IsTeltonikaFrame.login refl refl refl

avl_IsTeltonikaFrame : IsTeltonikaFrame 1280 avl_packet
avl_IsTeltonikaFrame = IsTeltonikaFrame.avl (omega arith) refl refl (omega arith) (omega arith) refl

-- "imei:1;loa" splits into one message and the start of the next.
imei_message :
    extract_messages 2048 (b'i' ∷ b'1' ∷ b';' ∷ b'l' ∷ [])
    ≡ done ((b'i' ∷ b'1' ∷ []) ∷ []) (b'l' ∷ [])
unfolding extract_messages extract message_turn split
imei_message = refl

extract_packets_reads_example :
    feed_all gt06_framer (status_end ∷ gt06_login ∷ []) (extract_packets status_start)
    ≡ extract_packets (joined gt06_framer status_start (status_end ∷ gt06_login ∷ []))
extract_packets_reads_example = extract_packets_reads status_start (status_end ∷ gt06_login ∷ [])

extract_frames_reads_example :
    feed_all (teltonika_framer 1280) (avl_packet ∷ []) (extract_frames 1280 teltonika_login)
    ≡ extract_frames 1280 (joined (teltonika_framer 1280) teltonika_login (avl_packet ∷ []))
extract_frames_reads_example = extract_frames_reads 1280 teltonika_login (avl_packet ∷ [])

extract_packets-resync_example :
    extract_packets (0x00 ∷ concat gt06_framer (gt06_login ∷ gt06_status ∷ []) (0x78 ∷ []))
    ≡ prefixed (gt06_login ∷ gt06_status ∷ []) (extract_packets (0x78 ∷ []))
extract_packets-resync_example =
    extract_packets-resync (0x00 ∷ []) gt06_login (gt06_status ∷ []) (0x78 ∷ [])
      ((omega arith, omega arith), tt) (login_IsPacket, (status_IsPacket, tt))

extract_frames-concat_example :
    extract_frames 1280 (concat (teltonika_framer 1280) (teltonika_login ∷ avl_packet ∷ []) [])
    ≡ prefixed (teltonika_login ∷ avl_packet ∷ []) (extract_frames 1280 [])
extract_frames-concat_example =
    extract_frames-concat 1280 (teltonika_login ∷ avl_packet ∷ []) []
      (login_IsTeltonikaFrame, (avl_IsTeltonikaFrame, tt))

extract_messages-append_example :
    extract_messages 2048 ((b'i' ∷ b'1' ∷ b';' ∷ b'l' ∷ []) ++ (b';' ∷ []))
    ≡ prefixed ((b'i' ∷ b'1' ∷ []) ∷ []) (extract_messages 2048 ((b'l' ∷ []) ++ (b';' ∷ [])))
extract_messages-append_example =
    extract_messages-append 2048 (b'i' ∷ b'1' ∷ b';' ∷ b'l' ∷ []) (b';' ∷ [])
      ((b'i' ∷ b'1' ∷ []) ∷ []) (b'l' ∷ []) imei_message

crc16_ibm_detects_example :
    crc16_ibm ((0x08 ∷ []) ++ 0x01 ∷ 0x02 ∷ []) ≢ crc16_ibm ((0x08 ∷ []) ++ 0x03 ∷ 0x02 ∷ [])
crc16_ibm_detects_example =
    crc16_ibm_detects (0x08 ∷ []) (0x02 ∷ []) 0x01 0x03 (omega arith, tt) (omega arith, tt)
      (omega arith) (omega arith) (omega arith)

crc16_x25_detects_example :
    crc16_x25 ((0x05 ∷ []) ++ 0x13 ∷ 0x00 ∷ []) ≢ crc16_x25 ((0x05 ∷ []) ++ 0x12 ∷ 0x00 ∷ [])
crc16_x25_detects_example =
    crc16_x25_detects (0x05 ∷ []) (0x00 ∷ []) 0x13 0x12 (omega arith, tt) (omega arith, tt)
      (omega arith) (omega arith) (omega arith)

detect_protocol-IsPacket_example :
    detect_protocol (gps103 ∷ gt06 ∷ []) (gt06_login ++ gt06_status) ≡ some gt06
detect_protocol-IsPacket_example =
    detect_protocol-IsPacket (gps103 ∷ gt06 ∷ []) gt06_login gt06_status login_IsPacket
