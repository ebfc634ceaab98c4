-- ===== src/Crc/Tests.antt =====
-- The checksum's theorems on short buffers.
use iron_ledger.Common.{◌≡◌, ◌≢◌, [], ◌∷◌, arith}
use iron_ledger.Crc.{crc32c}
use iron_ledger.Crc.Compose.{crc32c-append}
use iron_ledger.Crc.Detect.{crc32c-detects_byte}

crc32c-append_example :
    crc32c (0x33 ∷ []) (crc32c (0x31 ∷ 0x32 ∷ []) 0) ≡ crc32c (0x31 ∷ 0x32 ∷ 0x33 ∷ []) 0
crc32c-append_example = crc32c-append (0x31 ∷ 0x32 ∷ []) (0x33 ∷ []) 0

crc32c-detects_byte_example :
    crc32c (0x31 ∷ 0x32 ∷ 0x33 ∷ []) 0 ≢ crc32c (0x31 ∷ 0xff ∷ 0x33 ∷ []) 0
crc32c-detects_byte_example =
    crc32c-detects_byte (0x31 ∷ []) (0x33 ∷ []) 0x32 0xff 0 (omega arith) (omega arith)
      (omega arith, tt) (omega arith)
