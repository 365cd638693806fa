-- ===== src/Utility.antt =====
-- managed_components/utility/utility.c, with what the C library's tolower does in the C locale, and
-- the node ids of lownet_util.c's format_id. A C string is the list of its bytes up to the zero.
pub mod Compare
pub mod Hex
pub mod Text
use tol103m_assignment_p.Base.{
  ℕ, zero, suc, ◌+◌, ◌-◌, ◌*◌, ◌/◌, ◌%◌, List, [], ◌∷◌, ◌++◌, Bool, ◌&&◌, Option, none, some, ltb,
  leb, ◌==◌, if◌then◌else◌, u32, bytes_eq, drop, u8,
}

unfoldable pub util_printable : ℕ → ℕ
util_printable c = if leb b' ' c && ltb c 127 then 1 else 0

unfoldable pub min : ℕ → ℕ → ℕ
min a b = if leb a b then a else b

abbrev pub tolower : ℕ → ℕ
tolower c = if leb b'A' c && leb c b'Z' then c + 32 else c

-- "0123456789abcdef".
abbrev pub hex_map : List ℕ
hex_map =
    b'0' ∷ b'1' ∷ b'2' ∷ b'3' ∷ b'4' ∷ b'5' ∷ b'6' ∷ b'7' ∷ b'8' ∷ b'9' ∷ b'a' ∷ b'b' ∷ b'c' ∷ b'd'
    ∷ b'e' ∷ b'f' ∷ []

-- The inner loop of hex_to_dec from index `j`; 0x10 is its sentinel.
unfoldable pub find_digit : ℕ → List ℕ → ℕ → ℕ
find_digit c [] j = 0x10
find_digit c (m ∷ ms) j = if tolower c == m then j else find_digit c ms (j + 1)

-- The outer loop, over the digits left.
unfoldable pub hex_loop : List ℕ → ℕ → ℕ
hex_loop [] acc = acc
hex_loop (c ∷ cs) acc =
    let addend = find_digit c hex_map 0 in
    let rest = hex_loop cs (u32 (u32 (acc * 16) + addend)) in if ltb 0x0F addend then 0 else rest

unfoldable pub hex_to_dec : List ℕ → ℕ
unfolding hex_loop find_digit
hex_to_dec hex_digits = hex_loop hex_digits 0

-- memcmp(a, b, size) == 0 for buffers of `size` bytes.
unfoldable pub buffers_equal : List ℕ → List ℕ → Bool
buffers_equal a b = bytes_eq a b

-- One digit of "%x".
abbrev pub hex_char : ℕ → ℕ
hex_char d = if ltb d 10 then b'0' + d else b'a' + (d - 10)

-- sprintf(buffer, "0x%x", id) for a byte.
unfoldable pub format_id : ℕ → List ℕ
format_id id =
    b'0'
    ∷ b'x'
    ∷ (if ltb id 16 then hex_char id ∷ [] else hex_char (id / 16) ∷ hex_char (id % 16) ∷ [])

-- What "%s" prints of a buffer: the bytes before the first zero.
abbrev pub c_string : List ℕ → List ℕ
c_string [] = []
c_string (c ∷ cs) = let rest = c ∷ c_string cs in if c == 0 then [] else rest

-- The node in `id + 2` of tell_command and crane_command, for a token and the text behind it: the token's terminating zero is read like any byte.
abbrev pub node_argument : List ℕ → List ℕ → ℕ
node_argument token rest = u8 (hex_to_dec (c_string (drop 2 (token ++ (0 ∷ rest)))))
