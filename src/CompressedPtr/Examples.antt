-- ===== src/CompressedPtr/Examples.antt =====
-- A packed pointer with a flag.
use asyncplusplus_1_1_annota.Base.{◌≡◌, arith}
use asyncplusplus_1_1_annota.CompressedPtr.{PackedPtr, pack, set_ptr, set_flags}
use asyncplusplus_1_1_annota.CompressedPtr.Packed.{unpack, packed_roundtrip}

abbrev word : PackedPtr
word = record { data_word = 4098 }

packed_roundtrip_example :
    (unpack (pack 64 2) ≡ record { ptr = 64; flags = 2 })
    × (unpack (set_ptr word 64) ≡ record (unpack word) { ptr = 64 })
    × (unpack (set_flags word 2) ≡ record (unpack word) { flags = 2 })
packed_roundtrip_example =
    packed_roundtrip word 64 2 (omega arith) (omega arith) (omega arith) (omega arith)
