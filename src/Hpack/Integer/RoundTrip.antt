-- ===== src/Hpack/Integer/RoundTrip.antt =====
-- `hpack_decode_integer` reads back what `hpack_encode_integer` wrote.
use native.Mathlib.Nat.{
  le-div_iff_mul-le, one-le-pow, pow-le-pow_right, div-add-mod, mod-eq_of_lt,
  add-mul-mod_self_right,
}
use native.Mathlib.Numerals.{towards_suc}
use mathlib.Core.Path.{ap₂}
use smartdns_ui.Prelude.{
  ℕ, zero, suc, ◌+◌, ◌-◌, ◌*◌, ◌/◌, ◌%◌, ◌^◌, ◌≤◌, ◌<◌, ◌≡◌, refl, ap, sym, ltb→lt, ◌∙◌, List, [],
  ◌∷◌, ◌++◌, false, length, ltb, leb, if◌then◌else◌, bit_and, bit_or, and_ones, and_top, or_top,
  or_disjoint, Bool-cases, ltb-false, leb-false, inl, inr, Outcome, ok, fail_if, ◌>>=◌, ◌>>◌, arith,
}
use smartdns_ui.Hpack.Integer.{encode_groups, encode_integer, decode_groups, decode_integer}

-- Seven bits a byte, the lowest first, the top bit set on all but the last.
groups : ℕ → ℕ → List ℕ
groups zero v = v ∷ []
groups (suc k) v =
    let rest = groups k (v / 128) in if leb 128 v then (v % 128 + 128) ∷ rest else v ∷ []

-- The whole encoding of `v` behind a byte whose bits from `p` on are `first`.
pub encoding : ℕ → ℕ → ℕ → List ℕ
encoding p first v =
    if ltb v (2 ^ p - 1)
    then (first + v) ∷ []
    else (first + (2 ^ p - 1)) ∷ groups 9 (v - (2 ^ p - 1))

group_byte : (v : ℕ) → bit_or (bit_and v 0x7F) 0x80 % 256 ≡ v % 128 + 128
group_byte v =
    let low : bit_and v 0x7F ≡ v % 128 = and_ones 7 v in
    rw (low, or_top (v % 128) (omega arith)) (omega arith)

encode_groups-groups :
    (k v offset buf_size : ℕ)
    → v < 128 ^ suc k
    → offset + length (groups k v) ≤ buf_size
    → encode_groups (suc k) v offset buf_size ≡ ok (groups k v)
unfolding encode_groups groups
encode_groups-groups zero v offset buf_size h room =
    rw (leb-false 128 v (omega arith), leb-false buf_size offset (omega arith))
      (ap (λ t. ok (t ∷ [])) (omega arith))
encode_groups-groups (suc k) v offset buf_size h room = elim (Bool-cases (leb 128 v)) [
  | inl e ↦
      let r : offset + suc (length (groups k (v / 128))) ≤ buf_size = rw e at room in
      rw (
        e,
        leb-false buf_size offset (omega arith),
        encode_groups-groups k (v / 2 ^ 7) (offset + 1) buf_size (omega arith) (omega arith),
        group_byte v,
      )
  | inr e ↦
      let r : offset + 1 ≤ buf_size = rw e at room in
      rw (e, leb-false buf_size offset (omega arith)) (ap (λ t. ok (t ∷ [])) (ground arith))
]

-- Whatever the buffer, a loop that succeeds wrote the groups.
encode_groups-eq-ok :
    (k v offset buf_size : ℕ) (g : List ℕ)
    → v < 128 ^ suc k
    → encode_groups (suc k) v offset buf_size ≡ ok g
    → g ≡ groups k v
unfolding encode_groups groups
encode_groups-eq-ok zero v offset buf_size g h e = ground arith
encode_groups-eq-ok (suc k) v offset buf_size g h e = elim (Bool-cases (leb 128 v)) [
  | inr l ↦ rw l (last l (rw l at e))
  | inl l ↦ rw l (
      more (encode_groups (suc k) (v / 2 ^ 7) (offset + 1) buf_size)
        (encode_groups-eq-ok k (v / 2 ^ 7) (offset + 1) buf_size) (rw l at e))
]
  where
    last :
        leb 128 v ≡ false → (fail_if (leb buf_size offset) >> ok (v % 256 ∷ [])) ≡ ok g → g ≡ v ∷ []
    last l e = ground arith

    more :
        (r : Outcome (List ℕ))
        → ((t : List ℕ) → v / 2 ^ 7 < 128 ^ suc k → r ≡ ok t → t ≡ groups k (v / 2 ^ 7))
        → (fail_if (leb buf_size offset)
            >> (r >>= λ t. ok (bit_or (bit_and v 0x7F) 0x80 % 256 ∷ t)))
          ≡ ok g
        → g ≡ (v % 128 + 128) ∷ groups k (v / 128)
    more (ok t) ih e = ground (arith, ih t (omega arith) refl, group_byte v)
    more r ih e = ground arith

module _ (rest : List ℕ) (offset result shift : ℕ) (small : shift < 64) where
  chunk_fits :
      (g : ℕ) → result + g * 2 ^ shift < 2 ^ 64 → ltb ((2 ^ 64 - 1 - result) / 2 ^ shift) g ≡ false
  chunk_fits g fits =
      ltb-false ((2 ^ 64 - 1 - result) / 2 ^ shift) g
        ((le-div_iff_mul-le (one-le-pow shift 2 (omega arith))).1 (omega arith))

  decode_last :
      (v : ℕ)
      → v < 128
      → result + v * 2 ^ shift < 2 ^ 64
      → decode_groups (v ∷ rest) offset result shift ≡ ok (result + v * 2 ^ shift, offset + 1)
  unfolding decode_groups
  decode_last v h fits =
      let low : bit_and v 0x7F ≡ v = and_ones 7 v ∙ omega arith in
      let top : bit_and v 0x80 ≡ 0 = and_top v (omega arith) ∙ omega arith in
      rw (low, leb-false 64 shift small, chunk_fits v fits, top)

  decode_more :
      (g : ℕ)
      → g < 128
      → result + g * 2 ^ shift < 2 ^ 64
      → decode_groups ((g + 128) ∷ rest) offset result shift
        ≡ decode_groups rest (offset + 1) (result + g * 2 ^ shift) (shift + 7)
  unfolding decode_groups
  decode_more g h fits =
      let low : bit_and (g + 128) 0x7F ≡ g = and_ones 7 (g + 128) ∙ omega arith in
      let top : bit_and (g + 128) 0x80 ≡ 128 = and_top (g + 128) (omega arith) ∙ omega arith in
      rw (low, leb-false 64 shift small, chunk_fits g fits, top)

-- What is left to read, cut into its lowest group and the rest.
split_group : (w s : ℕ) → w * 2 ^ s ≡ w % 128 * 2 ^ s + w / 128 * 2 ^ (s + 7)
split_group w s =
    let cut : w ≡ 128 * (w / 128) + w % 128 = omega arith in
    let seven : 2 ^ (s + 7) ≡ 2 ^ s * 128 = simp towards_suc (omega arith) in
    omega (arith, ap (λ (t : ℕ). t * 2 ^ s) cut, ap (λ (t : ℕ). w / 128 * t) seven)

product_large : (v p q : ℕ) → 0 < v → q ≤ p → q ≤ v * p
product_large v p q h l = grind arith

-- A positive number that is still in 64 bits after the shift was not shifted out.
shift_small : (v s : ℕ) → 0 < v → v * 2 ^ s < 2 ^ 64 → s < 64
shift_small v s pos fits = elim (Bool-cases (ltb s 64)) [
  | inl e ↦ ltb→lt s 64 e
  | inr e ↦
      let big : 2 ^ 64 ≤ 2 ^ s =
        pow-le-pow_right {n = 2} (omega arith) {i = 64} {j = s} (ground arith) in
      absurd (omega (arith, product_large v (2 ^ s) (2 ^ 64) pos big))
]

decode_groups-groups :
    (k v : ℕ) (rest : List ℕ) (offset result shift : ℕ)
    → shift < 64
    → v < 128 ^ suc k
    → result + v * 2 ^ shift < 2 ^ 64
    → decode_groups (groups k v ++ rest) offset result shift
      ≡ ok (result + v * 2 ^ shift, offset + length (groups k v))
unfolding groups
decode_groups-groups zero v rest offset result shift small h fits =
    decode_last rest offset result shift small v h fits
decode_groups-groups (suc k) v rest offset result shift small h fits =
    elim (Bool-cases (leb 128 v)) [
      | inr e ↦ rw e (decode_last rest offset result shift small v (ground arith) fits)
      | inl e ↦
          let q = v / 128 in
          let g = v % 128 in
          let cut = split_group v shift in
          let small' : shift + 7 < 64 =
            shift_small q (shift + 7) (ground arith) (omega (arith, cut)) in
          let whole : result + g * 2 ^ shift + q * 2 ^ (shift + 7) ≡ result + v * 2 ^ shift =
            omega (arith, cut) in
          let count : offset + 1 + length (groups k q) ≡ offset + suc (length (groups k q)) =
            omega arith in
          rw e (
            decode_more (groups k q ++ rest) offset result shift small g (omega arith)
              (omega (arith, cut))
            ∙ decode_groups-groups k q rest (offset + 1) (result + g * 2 ^ shift) (shift + 7) small'
                (omega arith) (omega (arith, whole))
            ∙ ap₂ (λ a b. ok (a, b)) whole count)
    ]

length-groups : (k v : ℕ) → length (groups k v) ≤ k + 1
unfolding groups
length-groups zero v = omega arith
length-groups (suc k) v = ground (arith, length-groups k (v / 128))

pub length-encoding : (p first v : ℕ) → length (encoding p first v) ≤ 11
unfolding encoding
length-encoding p first v = ground (arith, length-groups 9 (v - (2 ^ p - 1)))

-- The bits that stand in front of a prefix of `p` bits.
abbrev pub IsFlags : ℕ → ℕ → Type 0
IsFlags p first = (first % 2 ^ p ≡ 0) × (first < 256)

module _ (p first : ℕ) (low : p ≤ 8) (flags : IsFlags p first) where
  bounds : (0 < 2 ^ p) × (2 ^ p ≤ 256)
  bounds = (one-le-pow p 2 (omega arith), pow-le-pow_right {n = 2} (omega arith) low)

  or_prefix : (v : ℕ) → v < 2 ^ p → bit_or first v ≡ first + v
  or_prefix v h =
      let e : first ≡ first / 2 ^ p * 2 ^ p = omega (arith, div-add-mod first (2 ^ p), flags.0) in
      ap (λ f. bit_or f v) e ∙ or_disjoint p (first / 2 ^ p) v h ∙ ap (λ f. f + v) (sym e)

  low_prefix : (v : ℕ) → v < 2 ^ p → bit_and (first + v) (2 ^ p - 1) ≡ v
  low_prefix v h =
      let e : first + v ≡ v + first / 2 ^ p * 2 ^ p =
        omega (arith, div-add-mod first (2 ^ p), flags.0) in
      and_ones p (first + v)
      ∙ ap (λ t. t % 2 ^ p) e
      ∙ add-mul-mod_self_right v (first / 2 ^ p) (2 ^ p)
      ∙ mod-eq_of_lt h

  pub encode_integer-encoding :
      (v buf_size : ℕ)
      → v < 2 ^ 64
      → length (encoding p first v) ≤ buf_size
      → encode_integer v p first buf_size ≡ ok (encoding p first v)
  unfolding encode_integer encoding
  encode_integer-encoding v buf_size h room = elim (Bool-cases (ltb v (2 ^ p - 1))) [
    | inl e ↦
        let r : 1 ≤ buf_size = rw e at room in
        let byte : v % 256 ≡ v = mod-eq_of_lt (ground (arith, bounds.1)) in
        rw (e, ltb-false buf_size 1 r, byte, or_prefix v (ground arith))
    | inr e ↦
        let m = 2 ^ p - 1 in
        let r : suc (length (groups 9 (v - m))) ≤ buf_size = rw e at room in
        let byte : m % 256 ≡ m = mod-eq_of_lt (omega (arith, bounds.0, bounds.1)) in
        rw (
          e,
          ltb-false buf_size 1 (omega arith),
          encode_groups-groups 9 (v - m) 1 buf_size (omega arith) (omega arith),
          byte,
          or_prefix m (omega (arith, bounds.0)),
        )
  ]

  pub decode_integer-encoding :
      (v : ℕ) (rest : List ℕ)
      → v < 2 ^ 64
      → decode_integer (encoding p first v ++ rest) p ≡ ok (v, length (encoding p first v))
  unfolding decode_integer encoding
  decode_integer-encoding v rest h = elim (Bool-cases (ltb v (2 ^ p - 1))) [
    | inl e ↦ rw (e, low_prefix v (ground arith), e)
    | inr e ↦
        let m = 2 ^ p - 1 in
        let back : m + (v - m) * 2 ^ 0 ≡ v = ground arith in
        rw
          (
            e,
            low_prefix m (omega (arith, bounds.0)),
            ltb-false m m (omega arith),
            decode_groups-groups 9 (v - m) rest 1 m 0 (omega arith) (omega arith)
                (omega (arith, back)),
            back,
          )
          (ap (λ n. ok (v, n)) (omega arith))
  ]

-- The first byte carries the flags, and the value below them.
pub encoding-head :
    (p first v : ℕ)
    → (b : ℕ) × (bytes : List ℕ) × (encoding p first v ≡ b ∷ bytes)
      × (first ≤ b)
      × (b < first + 2 ^ p)
unfolding encoding
encoding-head p first v =
    let pos : 0 < 2 ^ p = one-le-pow p 2 (omega arith) in
    elim (Bool-cases (ltb v (2 ^ p - 1))) [
      | inl e ↦ (first + v, [], rw e, omega arith, ground arith)
      | inr e ↦ (first + (2 ^ p - 1), groups 9 (v - (2 ^ p - 1)), rw e, omega arith, omega arith)
    ]

-- Whatever the buffer, a call that succeeds wrote the encoding.
pub encode_integer-eq-ok :
    (p first v buf_size : ℕ) (bytes : List ℕ)
    → p ≤ 8
    → IsFlags p first
    → v < 2 ^ 64
    → encode_integer v p first buf_size ≡ ok bytes
    → bytes ≡ encoding p first v
unfolding encode_integer encoding
encode_integer-eq-ok p first v buf_size bytes low flags h e =
    let m = 2 ^ p - 1 in
    elim (Bool-cases (ltb v m)) [
      | inl l ↦
          let byte : v % 256 ≡ v = mod-eq_of_lt (ground (arith, (bounds p first low flags).1)) in
          rw l (first_byte v byte (or_prefix p first low flags v (ground arith)) (rw l at e))
      | inr l ↦
          let pos = bounds p first low flags in
          let byte : m % 256 ≡ m = mod-eq_of_lt (omega (arith, pos.0, pos.1)) in
          rw l (
            two_parts m byte (or_prefix p first low flags m (omega (arith, pos.0)))
              (encode_groups 10 (v - m) 1 buf_size) (encode_groups-eq-ok 9 (v - m) 1 buf_size)
              (rw l at e))
    ]
  where
    first_byte :
        (w : ℕ)
        → w % 256 ≡ w
        → bit_or first w ≡ first + w
        → (fail_if (ltb buf_size 1) >> ok (bit_or first (w % 256) ∷ [])) ≡ ok bytes
        → bytes ≡ (first + w) ∷ []
    first_byte w b o e = ground arith

    two_parts :
        (m : ℕ)
        → m % 256 ≡ m
        → bit_or first m ≡ first + m
        → (r : Outcome (List ℕ))
        → ((t : List ℕ) → v - m < 128 ^ 10 → r ≡ ok t → t ≡ groups 9 (v - m))
        → (fail_if (ltb buf_size 1) >> (r >>= λ t. ok (bit_or first (m % 256) ∷ t))) ≡ ok bytes
        → bytes ≡ (first + m) ∷ groups 9 (v - m)
    two_parts m b o (ok t) ih e = ground (arith, ih t (omega arith) refl)
    two_parts m b o r ih e = ground arith

-- For each prefix of 1 to 8 bits, whatever flags stand in front of it, and each `uint64_t`:
-- `hpack_encode_integer` succeeds in any buffer of eleven bytes, and `hpack_decode_integer` on the
-- bytes written, with anything behind them, returns the value and their number.
pub decode_integer-encode_integer :
    (v p first buf_size : ℕ) (rest : List ℕ)
    → v < 2 ^ 64
    → p ≤ 8
    → IsFlags p first
    → 11 ≤ buf_size
    → (bytes : List ℕ) × (encode_integer v p first buf_size ≡ ok bytes)
      × (length bytes ≤ 11)
      × (decode_integer (bytes ++ rest) p ≡ ok (v, length bytes))
decode_integer-encode_integer v p first buf_size rest h low flags room =
    let l = length-encoding p first v in
    (
      encoding p first v,
      encode_integer-encoding p first low flags v buf_size h (omega arith),
      l,
      decode_integer-encoding p first low flags v rest h,
    )
