-- ===== src/Hpack/Header/Fields.antt =====
-- One field: the bytes and the context that `hpack_encode_header` leaves, and what the decoder makes
-- of those bytes.
use mathlib.Core.Path.{subst}
use smartdns_ui.Prelude.{
  ℕ, suc, ◌+◌, ◌-◌, ◌^◌, ◌≤◌, ◌<◌, ◌≡◌, refl, ap, ◌∙◌, inl, inr, Bool, true, List, [], ◌∷◌, ◌++◌,
  append_assoc, length, length-append, drop, drop-append_length, ltb, ltb→lt, lt→ltb, if◌then◌else◌,
  Bool-cases, bit_and, and_top, and_field, ok, bind-eq-ok, fail_if-eq-ok, arith,
}
use smartdns_ui.Hpack.Integer.{encode_integer, decode_integer}
use smartdns_ui.Hpack.Integer.RoundTrip.{
  encoding, encoding-head, encode_integer-eq-ok, decode_integer-encoding,
}
use smartdns_ui.Hpack.Strings.{encode_string, decode_string}
use smartdns_ui.Hpack.Strings.RoundTrip.{IsText, wire, encode_string-eq-ok, decode_string-wire}
use smartdns_ui.Hpack.Table.Static.{Field}
use smartdns_ui.Hpack.Table.{HpackContext, add_dynamic_entry, find_index, get_entry}
use smartdns_ui.Hpack.Table.Invariant.{IsBounded, length-le, add_dynamic_entry-IsBounded}
use smartdns_ui.Hpack.Table.Lookup.{pair, find_index-get_entry, get_entry-lt}
use smartdns_ui.Hpack.Header.{
  encode_header, Step, decode_name, decode_field, hpack_max_dynamic_table_size,
}

-- A field of two C strings whose lengths an `int` holds.
pub record IsField (f : Field) : Type 0 where
  pub name_text : IsText f.name
  pub name_short : length f.name < 2 ^ 31
  pub value_text : IsText f.value
  pub value_short : length f.value < 2 ^ 31

-- What both sides keep: the counters are right, and the limit is within the one advertised.
pub record IsReady (h : HpackContext) : Type 0 where
  pub bounded : IsBounded h
  pub limited : h.max_dynamic_table_size ≤ hpack_max_dynamic_table_size

-- The bytes of a field, in the three forms of `hpack_encode_header`.
pub field_bytes : HpackContext → Field → List ℕ
field_bytes h f =
    let (index, name_only) = find_index h f.name f.value in
    if ltb 0 index
    then encoding 7 0x80 index
    else if ltb 0 name_only
    then encoding 6 0x40 name_only ++ wire f.value
    else 0x40 ∷ wire f.name ++ wire f.value

-- The context behind it: the dynamic table has the field in front, unless a table had it.
pub field_context : HpackContext → Field → HpackContext
field_context h f =
    if ltb 0 (find_index h f.name f.value).0 then h else add_dynamic_entry h f.name f.value

pub field_context-IsReady : (h : HpackContext) (f : Field) → IsReady h → IsReady (field_context h f)
unfolding field_context
field_context-IsReady h f r = elim (Bool-cases (ltb 0 (find_index h f.name f.value).0)) [
  | inl e ↦ rw e r
  | inr e ↦
      let a = add_dynamic_entry-IsBounded h f.name f.value r.bounded.consistent in
      rw e (record { bounded = a.0; limited = omega (arith, a.1, r.limited) })
]

module _ (h : HpackContext) (f : Field) (ready : IsReady h) (fits : IsField f) where
  abbrev index : ℕ
  index = (find_index h f.name f.value).0

  abbrev name_only : ℕ
  name_only = (find_index h f.name f.value).1

  index_entry : 0 < index → get_entry h index ≡ ok f
  index_entry p = elim (find_index-get_entry h f.name f.value).0 [
    | inl z ↦ absurd (omega arith)
    | inr e ↦ e
  ]

  name_only_entry : 0 < name_only → (v : List ℕ) × (get_entry h name_only ≡ ok (pair f.name v))
  name_only_entry p = elim (find_index-get_entry h f.name f.value).1 [
    | inl z ↦ absurd (omega arith)
    | inr e ↦ e
  ]

  entry_small : (k : ℕ) (g : Field) → get_entry h k ≡ ok g → k < 2 ^ 64
  entry_small k g e = omega (arith, get_entry-lt h k g e, length-le h ready.bounded, ready.limited)

  index_small : index < 2 ^ 64
  index_small = elim (find_index-get_entry h f.name f.value).0 [
    | inl z ↦ omega arith
    | inr e ↦ entry_small index f e
  ]

  name_only_small : name_only < 2 ^ 64
  name_only_small = elim (find_index-get_entry h f.name f.value).1 [
    | inl z ↦ omega arith
    | inr (v, e) ↦ entry_small name_only (pair f.name v) e
  ]

  pub encode_header-eq-ok :
      (buf_size : ℕ) (bytes : List ℕ) (h' : HpackContext)
      → encode_header h f.name f.value buf_size ≡ ok (bytes, h')
      → (bytes ≡ field_bytes h f) × (h' ≡ field_context h f)
  unfolding encode_header field_bytes field_context
  encode_header-eq-ok buf_size bytes h' e = elim (Bool-cases (ltb 0 index)) [
    | inl p ↦
        let (t, q, r) =
          bind-eq-ok (encode_integer index 7 0x80 buf_size) _
            (fail_if-eq-ok (ltb buf_size 1) _ (rw p at e)) in
        let w =
          encode_integer-eq-ok 7 0x80 index buf_size t (omega arith) (refl, omega arith) index_small
            q in
        rw p (cc (r, w), cc r)
    | inr p ↦ elim (Bool-cases (ltb 0 name_only)) [
      | inl n ↦
          let (t, q, r) =
            bind-eq-ok (encode_integer name_only 6 0x40 buf_size) _
              (fail_if-eq-ok (ltb buf_size 1) _ (rw (p, n) at e)) in
          let (u, q', r') = bind-eq-ok (encode_string f.value (buf_size - length t)) _ r in
          let w =
            encode_integer-eq-ok 6 0x40 name_only buf_size t (omega arith) (refl, omega arith)
              name_only_small q in
          let w' = encode_string-eq-ok f.value fits.value_short _ u q' in
          rw (p, n) (cc (r', w, w'), cc r')
      | inr n ↦
          let (t, q, r) =
            bind-eq-ok (encode_string f.name (buf_size - 1)) _
              (fail_if-eq-ok (ltb buf_size 1) _ (rw (p, n) at e)) in
          let (u, q', r') = bind-eq-ok (encode_string f.value (buf_size - 1 - length t)) _ r in
          let w = encode_string-eq-ok f.name fits.name_short _ t q in
          let w' = encode_string-eq-ok f.value fits.value_short _ u q' in
          rw (p, n) (cc (r', w, w'), cc r')
    ]
  ]

  -- the step that the decoder takes over `n` bytes
  abbrev field_step : ℕ → HpackContext → Step
  field_step n h' = record { read = n; hpack = h'; seen = true; header = f ∷ [] }

  decode_indexed-bytes :
      (seen : Bool) (b : ℕ) (t rest : List ℕ)
      → 0 < index
      → encoding 7 0x80 index ≡ b ∷ t
      → 128 ≤ b
      → b < 256
      → decode_field h seen b ((b ∷ t) ++ rest) ≡ ok (field_step (length (b ∷ t)) h)
  unfolding decode_field
  decode_indexed-bytes seen b t rest p e low high =
      let top : bit_and b 0x80 ≡ 128 = and_top b high ∙ omega arith in
      let number : decode_integer ((b ∷ t) ++ rest) 7 ≡ ok (index, length (b ∷ t)) =
        subst (λ c. decode_integer (c ++ rest) 7 ≡ ok (index, length c)) e
          (decode_integer-encoding 7 0x80 (omega arith) (refl, omega arith) index rest
            index_small) in
      rw (top, number, index_entry p)

  -- A literal field with its name by the number behind the first bits, or as a string.
  decode_literal :
      (seen : Bool) (b : ℕ) (bytes : List ℕ) (k r₁ r₂ r₃ : ℕ)
      → 64 ≤ b
      → b < 128
      → decode_integer (b ∷ bytes) 6 ≡ ok (k, r₁)
      → decode_name h k (drop r₁ (b ∷ bytes)) ≡ ok (f.name, r₂)
      → decode_string (drop (r₁ + r₂) (b ∷ bytes)) ≡ ok (f.value, r₃)
      → decode_field h seen b (b ∷ bytes)
        ≡ ok (field_step (r₁ + r₂ + r₃) (add_dynamic_entry h f.name f.value))
  unfolding decode_field
  decode_literal seen b bytes k r₁ r₂ r₃ low high number name value =
      let top : bit_and b 0x80 ≡ 0 = and_top b (omega arith) ∙ omega arith in
      let next : bit_and b 0x40 ≡ 64 = and_field 6 1 b ∙ omega arith in
      rw (top, next, number, name, value)

  decode_indexed_name-bytes :
      (seen : Bool) (b : ℕ) (t rest : List ℕ)
      → 0 < name_only
      → encoding 6 0x40 name_only ≡ b ∷ t
      → 64 ≤ b
      → b < 128
      → decode_field h seen b ((b ∷ t) ++ (wire f.value ++ rest))
        ≡ ok (
            field_step
              (length (b ∷ t) + 0 + length (wire f.value))
              (add_dynamic_entry h f.name f.value))
  decode_indexed_name-bytes seen b t rest p e low high =
      let tail : List ℕ = wire f.value ++ rest in
      let number : decode_integer ((b ∷ t) ++ tail) 6 ≡ ok (name_only, length (b ∷ t)) =
        subst (λ c. decode_integer (c ++ tail) 6 ≡ ok (name_only, length c)) e
          (decode_integer-encoding 6 0x40 (omega arith) (refl, omega arith) name_only tail
            name_only_small) in
      let (v, found) = name_only_entry p in
      let none_read : length (b ∷ t) + 0 ≡ length (b ∷ t) = omega arith in
      decode_literal seen b (t ++ tail) name_only (length (b ∷ t)) 0 (length (wire f.value)) low
        high number (unfold decode_field in rw (lt→ltb 0 name_only p, found))
        (rw (none_read, drop-append_length (b ∷ t) tail)
          (decode_string-wire f.value fits.value_short rest fits.value_text))

  decode_new_name-bytes :
      (seen : Bool) (rest : List ℕ)
      → decode_field h seen 0x40 ((0x40 ∷ []) ++ (wire f.name ++ (wire f.value ++ rest)))
        ≡ ok (
            field_step
              (1 + length (wire f.name) + length (wire f.value))
              (add_dynamic_entry h f.name f.value))
  decode_new_name-bytes seen rest =
      let tail : List ℕ = wire f.value ++ rest in
      let next : 1 + length (wire f.name) ≡ suc (length (wire f.name)) = omega arith in
      decode_literal seen 0x40 (wire f.name ++ tail) 0 1 (length (wire f.name))
        (length (wire f.value)) (omega arith) (omega arith) (unfold decode_integer in refl)
        (unfold decode_field in decode_string-wire f.name fits.name_short tail fits.name_text)
        (rw (next, drop-append_length (wire f.name) tail)
          (decode_string-wire f.value fits.value_short rest fits.value_text))

  pub decode_field-bytes :
      (seen : Bool) (rest : List ℕ)
      → (b : ℕ) × (t : List ℕ) × (field_bytes h f ≡ b ∷ t)
        × (decode_field h seen b ((b ∷ t) ++ rest)
            ≡ ok (field_step (length (b ∷ t)) (field_context h f)))
  unfolding field_bytes field_context
  decode_field-bytes seen rest = elim (Bool-cases (ltb 0 index)) [
    | inl p ↦
        let (b, t, e, low, high) = encoding-head 7 0x80 index in
        rw p (b, t, e, decode_indexed-bytes seen b t rest (ltb→lt _ _ p) e low high)
    | inr p ↦ elim (Bool-cases (ltb 0 name_only)) [
      | inl n ↦
          let (b, t, e, low, high) = encoding-head 6 0x40 name_only in
          let count : length (b ∷ t) + 0 + length (wire f.value)
              ≡ length (b ∷ (t ++ wire f.value)) =
            omega (arith, length-append t (wire f.value)) in
          rw (p, n)
            (
              b,
              t ++ wire f.value,
              ap (λ c. c ++ wire f.value) e,
              rw (append_assoc t (wire f.value) rest) (
                  decode_indexed_name-bytes seen b t rest (ltb→lt _ _ n) e low high
                  ∙ ap (λ c. ok (field_step c (add_dynamic_entry h f.name f.value))) count),
            )
      | inr n ↦
          let count : 1 + length (wire f.name) + length (wire f.value)
              ≡ length (0x40 ∷ (wire f.name ++ wire f.value)) =
            omega (arith, length-append (wire f.name) (wire f.value)) in
          rw (p, n)
            (
              0x40,
              wire f.name ++ wire f.value,
              refl,
              rw (append_assoc (wire f.name) (wire f.value) rest) (
                  decode_new_name-bytes seen rest
                  ∙ ap (λ c. ok (field_step c (add_dynamic_entry h f.name f.value))) count),
            )
    ]
  ]
