-- ===== src/Hpack/Strings/Bounds.antt =====
-- The readers of integers and strings on any bytes.
use smartdns_ui.Prelude.{
  ℕ, suc, ◌+◌, ◌-◌, ◌*◌, ◌/◌, ◌^◌, ◌≤◌, ◌<◌, inl, inr, arith, ◌||◌, Bool, true, false, Bool-cases,
  List, [], ◌∷◌, length, take, drop, ltb, leb, ◌==◌, if◌then◌else◌, bit_and, ok, Ensures,
  Ensures-bind, Ensures-mono,
}
use smartdns_ui.Hpack.Integer.{decode_groups, decode_integer}
use smartdns_ui.Hpack.Huffman.{decode_huffman}
use smartdns_ui.Hpack.Huffman.Bounds.{decode_huffman-Ensures}
use smartdns_ui.Hpack.Strings.{
  c_string, int_max, size_max, decode_coded, decode_body, decode_string,
}

-- What was read lies behind `from` and ends by `to`.
abbrev pub Reads {ℓ} : {A : Type ℓ} → ℕ → ℕ → A × ℕ → Type 0
Reads from to r = (from < r.1) × (r.1 ≤ to)

decode_groups-Reads :
    (bytes : List ℕ) (offset result shift : ℕ)
    → Ensures (Reads offset (offset + length bytes)) (decode_groups bytes offset result shift)
unfolding decode_groups
decode_groups-Reads [] offset result shift = tt
decode_groups-Reads (byte ∷ rest) offset result shift =
    let chunk : ℕ = bit_and byte 0x7F in
    let result' : ℕ = result + chunk * 2 ^ shift in
    elim (Bool-cases (leb 64 shift || ltb ((2 ^ 64 - 1 - result) / 2 ^ shift) chunk)) [
      | inl e ↦ rw e tt
      | inr e ↦ elim (Bool-cases (bit_and byte 0x80 == 0)) [
        | inl f ↦ rw (e, f) (omega arith, omega arith)
        | inr f ↦
            rw (e, f)
              (Ensures-mono (Reads (offset + 1) (offset + 1 + length rest)) _
                (decode_groups rest (offset + 1) result' (shift + 7))
                (decode_groups-Reads rest (offset + 1) result' (shift + 7))
                (λ r p. (omega (arith, p), omega (arith, p))))
      ]
    ]

-- `hpack_decode_integer` reads a byte at least, and no more than there are.
pub decode_integer-Reads :
    (bytes : List ℕ) (prefix_bits : ℕ)
    → Ensures (Reads 0 (length bytes)) (decode_integer bytes prefix_bits)
unfolding decode_integer
decode_integer-Reads [] prefix_bits = tt
decode_integer-Reads (byte ∷ rest) prefix_bits =
    let max_prefix : ℕ = 2 ^ prefix_bits - 1 in
    let result : ℕ = bit_and byte max_prefix in
    elim (Bool-cases (ltb result max_prefix)) [
      | inl e ↦ rw e (omega arith, omega arith)
      | inr e ↦ rw e (
          Ensures-mono (Reads 1 (1 + length rest)) _ (decode_groups rest 1 result 0)
            (decode_groups-Reads rest 1 result 0) (λ r p. (omega (arith, p), omega (arith, p))))
    ]

decode_coded-Ensures : (coded : List ℕ) → Ensures (λ _. Unit {0}) (decode_coded coded)
unfolding decode_coded
decode_coded-Ensures coded =
    elim (Bool-cases
      (ltb ((int_max - 1) / 2) (length coded) || ltb ((size_max - 1) / 2) (length coded))) [
        | inl e ↦ rw e tt
        | inr e ↦ rw e (
            Ensures-bind (λ dst. length dst ≤ length coded * 2) (λ _. Unit {0})
              (decode_huffman coded (length coded * 2)) (λ d. ok (c_string d))
              (decode_huffman-Ensures coded (length coded * 2)) (λ _ _. tt))
      ]

decode_body-Reads :
    (huffman : Bool) (bytes : List ℕ) (offset len : ℕ)
    → 0 < offset
    → Ensures (Reads 0 (length bytes)) (decode_body huffman bytes offset len)
unfolding decode_body
decode_body-Reads huffman bytes offset len some_read =
    elim (Bool-cases
      (ltb (length bytes) offset || ltb (length bytes - offset) len || ltb (size_max - 1) len)) [
        | inl e ↦ rw e tt
        | inr e ↦ rw e (
            Ensures-bind (λ _. Unit {0}) _
              (if huffman
                then decode_coded (take len (drop offset bytes))
                else ok (c_string (take len (drop offset bytes))))
              (λ str. ok (str, offset + len)) (body huffman)
              (λ _ _. (omega arith, ground (arith, e))))
      ]
  where
    body :
        (b : Bool)
        → Ensures
            (λ _. Unit {0})
            (if b
              then decode_coded (take len (drop offset bytes))
              else ok (c_string (take len (drop offset bytes))))
    body true = decode_coded-Ensures (take len (drop offset bytes))
    body false = tt

-- `hpack_decode_string` ends on any bytes, and reads one at least and no more than there are.
pub decode_string-Reads : (bytes : List ℕ) → Ensures (Reads 0 (length bytes)) (decode_string bytes)
unfolding decode_string
decode_string-Reads [] = tt
decode_string-Reads (byte ∷ rest) =
    Ensures-bind (Reads 0 (suc (length rest))) (Reads 0 (suc (length rest)))
      (decode_integer (byte ∷ rest) 7) _ (decode_integer-Reads (byte ∷ rest) 7)
      (λ r p. decode_body-Reads _ (byte ∷ rest) r.1 r.0 (omega (arith, p)))
