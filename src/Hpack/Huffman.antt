-- ===== src/Hpack/Huffman.antt =====
-- `hpack_decode_huffman`. `bits` is the 64-bit buffer and `nbits` the number of bits in it; `dst` is
-- what was stored of `dst_len` bytes.
pub mod Codes
pub mod Bounds
use smartdns_ui.Prelude.{
  ℕ, zero, suc, ◌+◌, ◌-◌, ◌*◌, ◌/◌, ◌%◌, ◌^◌, ◌&&◌, ◌||◌, Bool, List, [], ◌∷◌, ◌++◌, length, ltb,
  leb, not, ◌==◌, if◌then◌else◌, bit_or, min, Option, none, some, Outcome, ok, fail, stuck, ◌>>=◌,
  ◌>>◌, fail_if,
}
use smartdns_ui.Hpack.Huffman.Codes.{HuffmanEntry, huffman_table}

-- `for (j = 0; j < HUFFMAN_TABLE_SIZE; j++)`
pub find_symbol : List HuffmanEntry → ℕ → ℕ → Option ℕ
find_symbol [] len code = none
find_symbol (e ∷ table) len code =
    if e.nbits == len && e.bits == code then some e.symbol else find_symbol table len code

-- `for (len = ...; len >= 5; len--)`: the symbol and the length of its code
pub try_lengths : ℕ → ℕ → ℕ → Option (ℕ × ℕ)
try_lengths zero bits nbits = none
try_lengths (suc n) bits nbits =
    let shorter = try_lengths n bits nbits in
    let code = bits / 2 ^ (nbits - suc n) % 2 ^ suc n in
    if ltb (suc n) 5 then none else elim (find_symbol huffman_table (suc n) code) [
      | some symbol ↦ some (symbol, suc n)
      | none ↦ shorter
    ]

pub record Buffer : Type 0 where
  pub bits : ℕ
  pub nbits : ℕ
  pub dst : List ℕ

-- `while (nbits >= 5)`
pub take_symbols : ℕ → ℕ → Buffer → Outcome Buffer
take_symbols zero dst_len b = stuck
take_symbols (suc fuel) dst_len b =
    if ltb b.nbits 5 then ok b else elim (try_lengths (min b.nbits 30) b.bits b.nbits) [
      | none ↦ ok b
      | some (symbol, len) ↦
          if leb dst_len (length b.dst)
          then fail
          else take_symbols fuel dst_len (record {
            bits = b.bits % 2 ^ (b.nbits - len);
            nbits = b.nbits - len;
            dst = b.dst ++ symbol ∷ [];
          })
    ]

-- `for (i = 0; i < src_len; i++)`; a round takes a symbol of five bits at least from `nbits`.
pub decode_bytes : List ℕ → ℕ → Buffer → Outcome Buffer
decode_bytes [] dst_len b = ok b
decode_bytes (byte ∷ src) dst_len b = do
  fail_if (ltb 56 b.nbits)
  let b' = record b { bits = bit_or (b.bits * 2 ^ 8 % 2 ^ 64) byte; nbits = b.nbits + 8 }
  c ← take_symbols (b'.nbits + 1) dst_len b'
  decode_bytes src dst_len c

unfoldable pub decode_huffman : List ℕ → ℕ → Outcome (List ℕ)
unfolding find_symbol try_lengths take_symbols decode_bytes huffman_table
decode_huffman src dst_len = do
  b ← decode_bytes src dst_len (record { bits = 0; nbits = 0; dst = [] })
  fail_if (ltb 7 b.nbits || not (b.bits == 2 ^ b.nbits - 1))
  ok b.dst
