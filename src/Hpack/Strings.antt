-- ===== src/Hpack/Strings.antt =====
-- `hpack_encode_string` and `hpack_decode_string`. `malloc` is taken to succeed.
pub mod RoundTrip
pub mod Bounds
use smartdns_ui.Prelude.{
  ℕ, ◌+◌, ◌-◌, ◌*◌, ◌/◌, ◌^◌, ◌||◌, Bool, List, [], ◌∷◌, ◌++◌, length, take, drop, ltb, ◌==◌, not,
  if◌then◌else◌, bit_and, Outcome, ok, fail, ◌>>=◌, ◌>>◌, fail_if,
}
use smartdns_ui.Hpack.Integer.{encode_integer, decode_integer}
use smartdns_ui.Hpack.Huffman.{decode_huffman}

-- A buffer read as a C string: what stands in front of the first NUL.
unfoldable pub c_string : List ℕ → List ℕ
c_string [] = []
c_string (b ∷ bs) = if b == 0 then [] else b ∷ c_string bs

abbrev pub int_max : ℕ
int_max = 2 ^ 31 - 1

abbrev pub size_max : ℕ
size_max = 2 ^ 64 - 1

-- The bytes written from the start of the buffer on.
unfoldable pub encode_string : List ℕ → ℕ → Outcome (List ℕ)
encode_string str buf_size = do
  fail_if (ltb buf_size 1)
  bytes ← encode_integer (length str) 7 0 buf_size
  fail_if (ltb buf_size (length bytes + length str))
  ok (bytes ++ str)

-- the branch `huffman`: at most two symbols come from a byte
pub decode_coded : List ℕ → Outcome (List ℕ)
decode_coded coded = do
  fail_if (ltb ((int_max - 1) / 2) (length coded) || ltb ((size_max - 1) / 2) (length coded))
  decoded ← decode_huffman coded (length coded * 2)
  ok (c_string decoded)

-- what follows the length, at `offset`
pub decode_body : Bool → List ℕ → ℕ → ℕ → Outcome (List ℕ × ℕ)
decode_body huffman bytes offset len = do
  fail_if (ltb (length bytes) offset || ltb (length bytes - offset) len || ltb (size_max - 1) len)
  let body = take len (drop offset bytes)
  str ← if huffman then decode_coded body else ok (c_string body)
  ok (str, offset + len)

-- The string and the number of bytes read.
unfoldable pub decode_string : List ℕ → Outcome (List ℕ × ℕ)
unfolding decode_body
decode_string [] = fail
decode_string (byte ∷ rest) = do
  let huffman = not (bit_and byte 0x80 == 0)
  (len, ret) ← decode_integer (byte ∷ rest) 7
  decode_body huffman (byte ∷ rest) ret len
