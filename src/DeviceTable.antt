-- ===== src/DeviceTable.antt =====
-- managed_components/device-table/device-table.c: who is who on the network, and the two look-ups.
pub mod Lookup
use tol103m_assignment_p.Base.{ℕ, List, [], ◌∷◌, Bool, true, false, ◌==◌, bytes_eq, if◌then◌else◌}

-- lownet_identifier_t.
pub record Identifier : Type 0 where
  pub mac : List ℕ
  pub node : ℕ

abbrev pub identifier : List ℕ → ℕ → Identifier
identifier m n = record { mac = m; node = n }

-- device_table[0], the dead identifier.
abbrev pub reserved : Identifier
reserved = identifier (0 ∷ 0 ∷ 0 ∷ 0 ∷ 0 ∷ 0 ∷ []) 0

abbrev pub device_table : List Identifier
device_table =
    reserved
    ∷ identifier (0xf0 ∷ 0x24 ∷ 0xf9 ∷ 0x0c ∷ 0xd6 ∷ 0x0c ∷ []) 0x95
    ∷ identifier (0xf0 ∷ 0x24 ∷ 0xf9 ∷ 0x0d ∷ 0xff ∷ 0xac ∷ []) 0x96
    ∷ identifier (0xf0 ∷ 0x24 ∷ 0xf9 ∷ 0x0c ∷ 0xd6 ∷ 0xdc ∷ []) 0x97
    ∷ identifier (0xf0 ∷ 0x24 ∷ 0xf9 ∷ 0x0e ∷ 0x4c ∷ 0x44 ∷ []) 0x98
    ∷ identifier (0xf0 ∷ 0x24 ∷ 0xf9 ∷ 0x0e ∷ 0x42 ∷ 0xd0 ∷ []) 0x99
    ∷ identifier (0xf0 ∷ 0x24 ∷ 0xf9 ∷ 0x0e ∷ 0x01 ∷ 0xe8 ∷ []) 0x9a
    ∷ identifier (0xf0 ∷ 0x24 ∷ 0xf9 ∷ 0x0d ∷ 0x61 ∷ 0x0c ∷ []) 0x9b
    ∷ identifier (0xf0 ∷ 0x24 ∷ 0xf9 ∷ 0x0c ∷ 0xd5 ∷ 0x40 ∷ []) 0x9c
    ∷ identifier (0xf0 ∷ 0x24 ∷ 0xf9 ∷ 0x0e ∷ 0x41 ∷ 0x08 ∷ []) 0x9d
    ∷ identifier (0xf0 ∷ 0x24 ∷ 0xf9 ∷ 0x0e ∷ 0x95 ∷ 0x0c ∷ []) 0x9e
    ∷ identifier (0xf0 ∷ 0x24 ∷ 0xf9 ∷ 0x0d ∷ 0xfd ∷ 0xa8 ∷ []) 0x9f
    ∷ identifier (0xf0 ∷ 0x24 ∷ 0xf9 ∷ 0x0e ∷ 0x4b ∷ 0xb4 ∷ []) 0xa0
    ∷ identifier (0xf0 ∷ 0x24 ∷ 0xf9 ∷ 0x0d ∷ 0xfb ∷ 0xbc ∷ []) 0xa1
    ∷ identifier (0x00 ∷ 0x4b ∷ 0x12 ∷ 0x9b ∷ 0x88 ∷ 0x30 ∷ []) 0xa2
    ∷ identifier (0xf0 ∷ 0x24 ∷ 0xf9 ∷ 0x0e ∷ 0x94 ∷ 0xf8 ∷ []) 0xa3
    ∷ identifier (0xf0 ∷ 0x24 ∷ 0xf9 ∷ 0x0e ∷ 0x43 ∷ 0x48 ∷ []) 0xa4
    ∷ identifier (0x00 ∷ 0x4b ∷ 0x12 ∷ 0x9b ∷ 0x84 ∷ 0x40 ∷ []) 0xa5
    ∷ identifier (0xf0 ∷ 0x24 ∷ 0xf9 ∷ 0x0e ∷ 0x95 ∷ 0x10 ∷ []) 0xa6
    ∷ identifier (0x28 ∷ 0x56 ∷ 0x2f ∷ 0x4a ∷ 0x60 ∷ 0xb8 ∷ []) 0xa7
    ∷ identifier (0x28 ∷ 0x56 ∷ 0x2f ∷ 0x77 ∷ 0x9a ∷ 0xd0 ∷ []) 0xa8
    ∷ identifier (0xf0 ∷ 0x24 ∷ 0xf9 ∷ 0x0d ∷ 0xdb ∷ 0x68 ∷ []) 0xa9
    ∷ identifier (0x00 ∷ 0x4b ∷ 0x12 ∷ 0x9b ∷ 0x4b ∷ 0xf4 ∷ []) 0xaa
    ∷ identifier (0xf0 ∷ 0x24 ∷ 0xf9 ∷ 0x0e ∷ 0x00 ∷ 0xb0 ∷ []) 0xab
    ∷ identifier (0xf0 ∷ 0x24 ∷ 0xf9 ∷ 0x0c ∷ 0xc3 ∷ 0x7c ∷ []) 0xac
    ∷ identifier (0x28 ∷ 0x56 ∷ 0x2f ∷ 0x4b ∷ 0x45 ∷ 0x7c ∷ []) 0xad
    ∷ identifier (0xf0 ∷ 0x24 ∷ 0xf9 ∷ 0x0e ∷ 0x07 ∷ 0x08 ∷ []) 0xae
    ∷ identifier (0x28 ∷ 0x56 ∷ 0x2f ∷ 0x4a ∷ 0x09 ∷ 0x24 ∷ []) 0xaf
    ∷ identifier (0xf0 ∷ 0x24 ∷ 0xf9 ∷ 0x0c ∷ 0xd5 ∷ 0xfc ∷ []) 0xb0
    ∷ identifier (0x28 ∷ 0x56 ∷ 0x2f ∷ 0x4a ∷ 0xd6 ∷ 0x64 ∷ []) 0xb1
    ∷ identifier (0x28 ∷ 0x56 ∷ 0x2f ∷ 0x4a ∷ 0x18 ∷ 0x14 ∷ []) 0xb2
    ∷ identifier (0x28 ∷ 0x56 ∷ 0x2f ∷ 0x4b ∷ 0x49 ∷ 0x98 ∷ []) 0xb3
    ∷ identifier (0xf0 ∷ 0x24 ∷ 0xf9 ∷ 0x0e ∷ 0x49 ∷ 0x30 ∷ []) 0xb4
    ∷ identifier (0xf0 ∷ 0x24 ∷ 0xf9 ∷ 0x0e ∷ 0x0d ∷ 0x1c ∷ []) 0xb5
    ∷ identifier (0xf0 ∷ 0x24 ∷ 0xf9 ∷ 0x0c ∷ 0xd4 ∷ 0xb8 ∷ []) 0xb6
    ∷ identifier (0xf0 ∷ 0x24 ∷ 0xf9 ∷ 0x0e ∷ 0xbc ∷ 0x90 ∷ []) 0xb7
    ∷ identifier (0xf0 ∷ 0x24 ∷ 0xf9 ∷ 0x0e ∷ 0xc5 ∷ 0x60 ∷ []) 0xb8
    ∷ identifier (0xf0 ∷ 0x24 ∷ 0xf9 ∷ 0x0e ∷ 0x43 ∷ 0xf0 ∷ []) 0xb9
    ∷ identifier (0xf0 ∷ 0x24 ∷ 0xf9 ∷ 0x0d ∷ 0x60 ∷ 0x1c ∷ []) 0xba
    ∷ identifier (0xf0 ∷ 0x24 ∷ 0xf9 ∷ 0x0e ∷ 0x95 ∷ 0x50 ∷ []) 0xbb
    ∷ identifier (0xf0 ∷ 0x24 ∷ 0xf9 ∷ 0x0c ∷ 0xc3 ∷ 0xf8 ∷ []) 0xbc
    ∷ identifier (0xf0 ∷ 0x24 ∷ 0xf9 ∷ 0x0e ∷ 0x9d ∷ 0x38 ∷ []) 0xbd
    ∷ identifier (0xf0 ∷ 0x24 ∷ 0xf9 ∷ 0x0e ∷ 0x72 ∷ 0xac ∷ []) 0xbe
    ∷ identifier (0xf0 ∷ 0x24 ∷ 0xf9 ∷ 0x0e ∷ 0x07 ∷ 0x18 ∷ []) 0xbf
    ∷ identifier (0xf0 ∷ 0x24 ∷ 0xf9 ∷ 0x0d ∷ 0xf7 ∷ 0x8c ∷ []) 0xc0
    ∷ identifier (0xf0 ∷ 0x24 ∷ 0xf9 ∷ 0x0d ∷ 0x0d ∷ 0x6c ∷ []) 0xc1
    ∷ identifier (0xf0 ∷ 0x24 ∷ 0xf9 ∷ 0x0c ∷ 0xc3 ∷ 0xf4 ∷ []) 0xc2
    ∷ identifier (0x48 ∷ 0xe7 ∷ 0x29 ∷ 0x98 ∷ 0xe9 ∷ 0x30 ∷ []) 0xc3
    ∷ identifier (0xf0 ∷ 0x24 ∷ 0xf9 ∷ 0x0e ∷ 0x49 ∷ 0xa0 ∷ []) 0xc4
    ∷ identifier (0x48 ∷ 0xe7 ∷ 0x29 ∷ 0x99 ∷ 0x22 ∷ 0x14 ∷ []) 0xc5
    ∷ identifier (0xf0 ∷ 0x24 ∷ 0xf9 ∷ 0x0e ∷ 0x10 ∷ 0x54 ∷ []) 0xc6
    ∷ identifier (0xb0 ∷ 0xa7 ∷ 0x32 ∷ 0xdb ∷ 0x44 ∷ 0xac ∷ []) 0xf0
    ∷ identifier (0x48 ∷ 0xe7 ∷ 0x29 ∷ 0x99 ∷ 0x4d ∷ 0x20 ∷ []) 0xee
    ∷ identifier (0x24 ∷ 0x0a ∷ 0xc4 ∷ 0x60 ∷ 0xa5 ∷ 0xfc ∷ []) 0xef
    ∷ identifier (0xf0 ∷ 0x24 ∷ 0xf9 ∷ 0x0c ∷ 0xcc ∷ 0xfc ∷ []) 0xfe
    ∷ identifier (0xff ∷ 0xff ∷ 0xff ∷ 0xff ∷ 0xff ∷ 0xff ∷ []) 0xff
    ∷ []

-- The loop of lownet_lookup over the entries left.
pub lookup_from : ℕ → List Identifier → Identifier
lookup_from id [] = reserved
lookup_from id (e ∷ es) = if e.node == id then e else lookup_from id es

unfoldable pub lownet_lookup : ℕ → Identifier
unfolding lookup_from
lownet_lookup id = lookup_from id device_table

-- The inner loop of lownet_lookup_mac keeps going after a mismatch: `match` is what it has so far.
pub mac_matches : List ℕ → List ℕ → Bool → Bool
mac_matches [] ms match = match
mac_matches (x ∷ xs) [] match = false
mac_matches (x ∷ xs) (m ∷ ms) match = mac_matches xs ms (if x == m then match else false)

pub lookup_mac_from : List ℕ → List Identifier → Identifier
lookup_mac_from m [] = reserved
lookup_mac_from m (e ∷ es) = if mac_matches e.mac m true then e else lookup_mac_from m es

unfoldable pub lownet_lookup_mac : List ℕ → Identifier
unfolding lookup_mac_from mac_matches
lownet_lookup_mac m = lookup_mac_from m device_table
