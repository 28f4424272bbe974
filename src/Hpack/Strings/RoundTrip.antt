-- ===== src/Hpack/Strings/RoundTrip.antt =====
-- `hpack_decode_string` reads back what `hpack_encode_string` wrote.
use mathlib.Core.Path.{subst}
use smartdns_ui.Prelude.{
  ℕ, ◌+◌, ◌-◌, ◌^◌, ◌≤◌, ◌<◌, ◌≡◌, refl, sym, ◌∙◌, List, [], ◌∷◌, ◌++◌, append_assoc, length,
  length-append, drop-append_length, take-append_length, All, ltb, ltb-false, bit_and, and_top,
  false, Outcome, ok, fail_if, ◌>>=◌, ◌>>◌, arith,
}
use smartdns_ui.Hpack.Integer.{encode_integer, decode_integer}
use smartdns_ui.Hpack.Integer.RoundTrip.{
  encoding, encoding-head, length-encoding, encode_integer-encoding, encode_integer-eq-ok,
  decode_integer-encoding,
}
use smartdns_ui.Hpack.Strings.{c_string, encode_string, decode_body, decode_string, size_max}

-- A C string: no byte of it is a NUL.
abbrev pub IsText : List ℕ → Type 0
IsText = All (λ b. 0 < b)

pub c_string-text : (s : List ℕ) → IsText s → c_string s ≡ s
unfolding c_string
c_string-text [] t = refl
c_string-text (b ∷ s) t = ground (arith, c_string-text s t.1)

-- What the encoder writes for a string.
pub wire : List ℕ → List ℕ
wire s = encoding 7 0 (length s) ++ s

pub length-wire : (s : List ℕ) → length (wire s) ≤ 11 + length s
unfolding wire
length-wire s =
    omega (arith, length-append (encoding 7 0 (length s)) s, length-encoding 7 0 (length s))

-- A first byte without its top bit announces a plain string.
decode_string_plain :
    (b : ℕ) (bytes : List ℕ) (len ret : ℕ)
    → b < 128
    → decode_integer (b ∷ bytes) 7 ≡ ok (len, ret)
    → decode_string (b ∷ bytes) ≡ decode_body false (b ∷ bytes) ret len
unfolding decode_string
decode_string_plain b bytes len ret h e =
    let top : bit_and b 0x80 ≡ 0 = and_top b (omega arith) ∙ omega arith in rw (top, e)

module _ (s : List ℕ) (short : length s < 2 ^ 31) where
  pub encode_string-wire :
      (buf_size : ℕ) → 11 + length s ≤ buf_size → encode_string s buf_size ≡ ok (wire s)
  unfolding encode_string wire
  encode_string-wire buf_size room =
      let l = length-encoding 7 0 (length s) in
      rw (
        ltb-false buf_size 1 (omega arith),
        encode_integer-encoding 7 0 (omega arith) (refl, omega arith) (length s) buf_size
            (omega arith) (omega arith),
        ltb-false buf_size (length (encoding 7 0 (length s)) + length s) (omega arith),
      )

  pub encode_string-eq-ok :
      (buf_size : ℕ) (bytes : List ℕ) → encode_string s buf_size ≡ ok bytes → bytes ≡ wire s
  unfolding encode_string wire
  encode_string-eq-ok buf_size bytes e =
      go (encode_integer (length s) 7 0 buf_size)
        (λ t.
          encode_integer-eq-ok 7 0 (length s) buf_size t (omega arith) (refl, omega arith)
            (omega arith))
        e
    where
      go :
          (r : Outcome (List ℕ))
          → ((t : List ℕ) → r ≡ ok t → t ≡ encoding 7 0 (length s))
          → (fail_if (ltb buf_size 1)
              >> (r >>= λ t. fail_if (ltb buf_size (length t + length s)) >> ok (t ++ s)))
            ≡ ok bytes
          → bytes ≡ encoding 7 0 (length s) ++ s
      go (ok t) h e = ground (arith, h t refl)
      go r h e = ground arith

  plain_body :
      (front rest : List ℕ)
      → IsText s
      → decode_body false (front ++ (s ++ rest)) (length front) (length s)
        ≡ ok (s, length front + length s)
  unfolding decode_body
  plain_body front rest t =
      let l = length-append front (s ++ rest) in
      let m = length-append s rest in
      rw (
        ltb-false (length (front ++ (s ++ rest))) (length front) (omega arith),
        ltb-false (length (front ++ (s ++ rest)) - length front) (length s) (omega arith),
        ltb-false (size_max - 1) (length s) (omega arith),
        drop-append_length front (s ++ rest),
        take-append_length s rest,
        c_string-text s t,
      )

  pub decode_string-wire :
      (rest : List ℕ) → IsText s → decode_string (wire s ++ rest) ≡ ok (s, length (wire s))
  unfolding wire
  decode_string-wire rest t =
      let enc : List ℕ = encoding 7 0 (length s) in
      let (b, bytes, e, low, high) = encoding-head 7 0 (length s) in
      let number : decode_integer ((b ∷ bytes) ++ (s ++ rest)) 7
          ≡ ok (length s, length (b ∷ bytes)) =
        subst (λ c. decode_integer (c ++ (s ++ rest)) 7 ≡ ok (length s, length c)) e
          (decode_integer-encoding 7 0 (omega arith) (refl, omega arith) (length s) (s ++ rest)
            (omega arith)) in
      let whole : decode_string ((b ∷ bytes) ++ (s ++ rest))
          ≡ ok (s, length (b ∷ bytes) + length s) =
        decode_string_plain b (bytes ++ (s ++ rest)) _ _ high number
        ∙ plain_body (b ∷ bytes) rest t in
      rw (append_assoc enc s rest, length-append enc s)
        (subst (λ c. decode_string (c ++ (s ++ rest)) ≡ ok (s, length c + length s)) (sym e) whole)

-- A string of less than 2 ^ 31 bytes and no NUL, encoded into a buffer with eleven bytes to spare,
-- is decoded to itself, whatever follows it, and the decoder reads just what was written.
pub decode_string-encode_string :
    (s rest : List ℕ) (buf_size : ℕ)
    → length s < 2 ^ 31
    → IsText s
    → 11 + length s ≤ buf_size
    → (bytes : List ℕ) × (encode_string s buf_size ≡ ok bytes)
      × (decode_string (bytes ++ rest) ≡ ok (s, length bytes))
decode_string-encode_string s rest buf_size short t room =
    (wire s, encode_string-wire s short buf_size room, decode_string-wire s short rest t)
