-- ===== src/Hpack/Huffman/Bounds.antt =====
-- The decoder of coded strings on any bytes.
use smartdns_ui.Prelude.{
  ℕ, zero, suc, ◌+◌, ◌-◌, ◌*◌, ◌/◌, ◌%◌, ◌^◌, ◌≤◌, ◌<◌, ◌≡◌, inl, inr, arith, ◌||◌, Bool, true,
  false, Bool-cases, List, [], ◌∷◌, ◌++◌, length, length-append, ltb, leb, not, ◌==◌, if◌then◌else◌,
  bit_or, min, Option, none, some, Outcome, ok, fail, ◌>>◌, fail_if, Ensures, Ensures-bind,
}
use smartdns_ui.Hpack.Huffman.Codes.{huffman_table}
use smartdns_ui.Hpack.Huffman.{
  find_symbol, try_lengths, Buffer, take_symbols, decode_bytes, decode_huffman,
}

-- A code that is found has five bits at least, and no more than asked for.
abbrev Found : ℕ → Option (ℕ × ℕ) → Type 0
Found n none = Unit {0}
Found n (some (symbol, len)) = (5 ≤ len) × (len ≤ n)

Found-mono : (n : ℕ) (o : Option (ℕ × ℕ)) → Found n o → Found (suc n) o
Found-mono n none f = tt
Found-mono n (some (symbol, len)) f = (f.0, omega (arith, f.1))

Found-either :
    (n : ℕ) (o : Option ℕ) (shorter : Option (ℕ × ℕ))
    → ltb (suc n) 5 ≡ false
    → Found n shorter
    → Found (suc n) (elim o [ none ↦ shorter | some symbol ↦ some (symbol, suc n) ])
Found-either n none shorter l f = Found-mono n shorter f
Found-either n (some symbol) shorter l f = (ground arith, omega arith)

try_lengths-Found : (n bits nbits : ℕ) → Found n (try_lengths n bits nbits)
unfolding try_lengths
try_lengths-Found zero bits nbits = tt
try_lengths-Found (suc n) bits nbits = elim (Bool-cases (ltb (suc n) 5)) [
  | inl l ↦ rw l tt
  | inr l ↦ rw l (
      Found-either n (find_symbol huffman_table (suc n) (bits / 2 ^ (nbits - suc n) % 2 ^ suc n))
        (try_lengths n bits nbits) l (try_lengths-Found n bits nbits))
]

module _ (dst_len : ℕ) where
  -- The output is inside of the buffer.
  abbrev IsInside : Buffer → Type 0
  IsInside b = length b.dst ≤ dst_len

  -- One round that has enough bits, with the rest of the loop by `loop`.
  put_symbol :
      (b : Buffer)
      → IsInside b
      → (loop : Buffer → Outcome Buffer) → ltb b.nbits 5 ≡ false
      → (o : Option (ℕ × ℕ)) → Found (min b.nbits 30) o
      → ((c : Buffer) → c.nbits < b.nbits → IsInside c → Ensures IsInside (loop c))
      → Ensures IsInside (elim o [
        | none ↦ ok b
        | some (symbol, len) ↦
            if leb dst_len (length b.dst)
            then fail
            else loop (record {
              bits = b.bits % 2 ^ (b.nbits - len);
              nbits = b.nbits - len;
              dst = b.dst ++ symbol ∷ [];
            })
      ])
  put_symbol b i loop many none f rest = i
  put_symbol b i loop many (some (symbol, len)) f rest =
      elim (Bool-cases (leb dst_len (length b.dst))) [
        | inl full ↦ rw full tt
        | inr room ↦
            rw room
              (rest _ (ground (arith, f, many)) (ground (arith, length-append b.dst (symbol ∷ []))))
      ]

  take_symbols-IsInside :
      (fuel : ℕ) (b : Buffer)
      → b.nbits < fuel
      → IsInside b
      → Ensures IsInside (take_symbols fuel dst_len b)
  unfolding take_symbols
  take_symbols-IsInside zero b l i = absurd (omega arith)
  take_symbols-IsInside (suc fuel) b l i = elim (Bool-cases (ltb b.nbits 5)) [
    | inl few ↦ rw few i
    | inr many ↦ rw many (
        put_symbol b i (λ c. take_symbols fuel dst_len c) many
          (try_lengths (min b.nbits 30) b.bits b.nbits)
          (try_lengths-Found (min b.nbits 30) b.bits b.nbits)
          (λ c shorter. take_symbols-IsInside fuel c (omega arith)))
  ]

  decode_bytes-IsInside :
      (src : List ℕ) (b : Buffer) → IsInside b → Ensures IsInside (decode_bytes src dst_len b)
  unfolding decode_bytes
  decode_bytes-IsInside [] b i = i
  decode_bytes-IsInside (byte ∷ src) b i =
      let b' = record b { bits = bit_or (b.bits * 2 ^ 8 % 2 ^ 64) byte; nbits = b.nbits + 8 } in
      elim (Bool-cases (ltb 56 b.nbits)) [
        | inl full ↦ rw full tt
        | inr room ↦ rw room (
            Ensures-bind IsInside IsInside (take_symbols (b'.nbits + 1) dst_len b') _
              (take_symbols-IsInside (b'.nbits + 1) b' (omega arith) i) (decode_bytes-IsInside src))
      ]

-- `hpack_decode_huffman` ends on any bytes, and what it writes fits the buffer.
pub decode_huffman-Ensures :
    (src : List ℕ) (dst_len : ℕ)
    → Ensures (λ dst. length dst ≤ dst_len) (decode_huffman src dst_len)
unfolding decode_huffman
decode_huffman-Ensures src dst_len =
    Ensures-bind (IsInside dst_len) (λ dst. length dst ≤ dst_len) (decode_bytes src dst_len _) _
      (decode_bytes-IsInside dst_len src _ (omega arith))
      (λ b i. padded (ltb 7 b.nbits || not (b.bits == 2 ^ b.nbits - 1)) b i)
  where
    padded :
        (t : Bool) (b : Buffer)
        → IsInside dst_len b
        → Ensures (λ dst. length dst ≤ dst_len) (fail_if t >> ok b.dst)
    padded true b i = tt
    padded false b i = i
