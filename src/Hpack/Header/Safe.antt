-- ===== src/Hpack/Header/Safe.antt =====
-- The decoder on any bytes.
use smartdns_ui.Prelude.{
  ℕ, zero, suc, ◌+◌, ◌-◌, ◌≤◌, ◌<◌, ◌≡◌, refl, inl, inr, arith, Bool, true, false, Bool-cases, List,
  [], ◌∷◌, length, length-drop, get_elem?, get_elem?-IsSome, drop, ltb, leb, ◌==◌, bit_and, Option,
  none, some, Outcome, ok, fail, ◌>>=◌, Ensures, Ensures-bind, Ensures-mono,
}
use smartdns_ui.Hpack.Integer.{decode_integer}
use smartdns_ui.Hpack.Strings.{decode_string}
use smartdns_ui.Hpack.Strings.Bounds.{Reads, decode_integer-Reads, decode_string-Reads}
use smartdns_ui.Hpack.Table.Static.{Field, hpack_static_table}
use smartdns_ui.Hpack.Table.{
  Entry, HpackContext, add_dynamic_entry, get_entry, static_table_size, field_of,
}
use smartdns_ui.Hpack.Table.Invariant.{
  IsBounded, add_dynamic_entry-IsBounded, resize_dynamic_table-IsBounded,
}
use smartdns_ui.Hpack.Header.{
  decode_name, Step, decode_indexed, decode_incremental, hpack_max_dynamic_table_size,
  decode_size_update, decode_plain, decode_field, report, decode_loop, decode_headers,
}

-- The dynamic table is in order and within the limit that the program advertises.
abbrev pub IsLimited : HpackContext → Type 0
IsLimited h = IsBounded h × (h.max_dynamic_table_size ≤ hpack_max_dynamic_table_size)

abbrev Returns {ℓ} : {A : Type ℓ} → Outcome A → Type 0
Returns o = Ensures (λ _. Unit {0}) o

length-hpack_static_table : length hpack_static_table ≡ static_table_size
unfolding hpack_static_table
length-hpack_static_table = refl

get_entry-Returns : (h : HpackContext) (index : ℕ) → Returns (get_entry h index)
unfolding get_entry
get_entry-Returns h index = elim (Bool-cases (index == 0)) [
  | inl z ↦ rw z tt
  | inr z ↦ elim (Bool-cases (leb index static_table_size)) [
    | inl l ↦
        let (f, e) =
          get_elem?-IsSome hpack_static_table (index - 1)
            (ground (arith, length-hpack_static_table)) in
        rw (z, l, e) tt
    | inr l ↦ rw (z, l) (dynamic (get_elem? h.dynamic_table (index - static_table_size - 1)))
  ]
]
  where
    dynamic : (o : Option Entry) → Returns (elim o [ none ↦ fail | some e ↦ ok (field_of e) ])
    dynamic none = tt
    dynamic (some e) = tt

decode_name-Returns :
    (h : HpackContext) (index : ℕ) (bytes : List ℕ) → Returns (decode_name h index bytes)
unfolding decode_name
decode_name-Returns h index bytes = elim (Bool-cases (ltb 0 index)) [
  | inl l ↦
      rw l (
        Ensures-bind (λ _. Unit {0}) _ (get_entry h index) _ (get_entry-Returns h index)
          (λ _ _. tt))
  | inr l ↦ rw l (Ensures-mono _ _ (decode_string bytes) (decode_string-Reads bytes) (λ _ _. tt))
]

-- A field takes a byte at least and leaves the table within its limit.
abbrev pub IsStep : Step → Type 0
IsStep s = (0 < s.read) × IsLimited s.hpack

add_dynamic_entry-IsLimited :
    (h : HpackContext) (name value : List ℕ)
    → IsLimited h
    → IsLimited (add_dynamic_entry h name value)
add_dynamic_entry-IsLimited h name value (b, m) =
    let (b', same, _) = add_dynamic_entry-IsBounded h name value b.consistent in
    (b', omega (arith, m, same))

module _ (h : HpackContext) (lim : IsLimited h) (bytes : List ℕ) where
  decode_indexed-IsStep : Ensures IsStep (decode_indexed h bytes)
  unfolding decode_indexed
  decode_indexed-IsStep =
      Ensures-bind (Reads 0 (length bytes)) IsStep (decode_integer bytes 7) _
        (decode_integer-Reads bytes 7)
        (λ r p.
          Ensures-bind (λ _. Unit {0}) IsStep (get_entry h r.0) _ (get_entry-Returns h r.0)
            (λ f _. (omega (arith, p), lim)))

  -- The two kinds of field with a string of their own.
  literal-IsStep :
      (prefix_bits : ℕ) (next : List ℕ → List ℕ → HpackContext)
      → ((name value : List ℕ) → IsLimited (next name value))
      → Ensures IsStep (do
        (index, r₁) ← decode_integer bytes prefix_bits
        (name, r₂) ← decode_name h index (drop r₁ bytes)
        (value, r₃) ← decode_string (drop (r₁ + r₂) bytes)
        ok (record {
          read = r₁ + r₂ + r₃;
          hpack = next name value;
          seen = true;
          header = record { name = name; value = value } ∷ [];
        }))
  literal-IsStep prefix_bits next k =
      Ensures-bind (Reads 0 (length bytes)) IsStep (decode_integer bytes prefix_bits) _
        (decode_integer-Reads bytes prefix_bits)
        (λ i p.
          Ensures-bind (λ _. Unit {0}) IsStep (decode_name h i.0 (drop i.1 bytes)) _
            (decode_name-Returns h i.0 (drop i.1 bytes))
            (λ n _.
              Ensures-bind (Reads 0 (length (drop (i.1 + n.1) bytes))) IsStep
                (decode_string (drop (i.1 + n.1) bytes)) _
                (decode_string-Reads (drop (i.1 + n.1) bytes))
                (λ v q. (omega (arith, p), k n.0 v.0))))

  decode_incremental-IsStep : Ensures IsStep (decode_incremental h bytes)
  unfolding decode_incremental
  decode_incremental-IsStep =
      literal-IsStep 6 (add_dynamic_entry h)
        (λ name value. add_dynamic_entry-IsLimited h name value lim)

  decode_plain-IsStep : Ensures IsStep (decode_plain h bytes)
  unfolding decode_plain
  decode_plain-IsStep = literal-IsStep 4 (λ name value. h) (λ name value. lim)

  decode_size_update-IsStep : (seen : Bool) → Ensures IsStep (decode_size_update h seen bytes)
  unfolding decode_size_update
  decode_size_update-IsStep true = tt
  decode_size_update-IsStep false =
      Ensures-bind (Reads 0 (length bytes)) IsStep (decode_integer bytes 5) _
        (decode_integer-Reads bytes 5)
        (λ r p. elim (Bool-cases (ltb hpack_max_dynamic_table_size r.0)) [
          | inl l ↦ rw l tt
          | inr l ↦
              let (b, same, _) = resize_dynamic_table-IsBounded h r.0 lim.0.consistent in
              rw l (omega (arith, p), (b, ground (arith, l, same)))
        ])

  pub decode_field-IsStep :
      (seen : Bool) (byte : ℕ) → Ensures IsStep (decode_field h seen byte bytes)
  unfolding decode_field
  decode_field-IsStep seen byte = elim (Bool-cases (bit_and byte 0x80 == 0)) [
    | inr a ↦ rw a decode_indexed-IsStep
    | inl a ↦ elim (Bool-cases (bit_and byte 0x40 == 0)) [
      | inr b ↦ rw (a, b) decode_incremental-IsStep
      | inl b ↦ elim (Bool-cases (bit_and byte 0x20 == 0)) [
        | inr c ↦ rw (a, b, c) (decode_size_update-IsStep seen)
        | inl c ↦ rw (a, b, c) decode_plain-IsStep
      ]
    ]
  ]

module _ {S : Type 0} (on_header : S → List ℕ → List ℕ → Outcome S)
    (total : (ctx : S) (name value : List ℕ) → Returns (on_header ctx name value)) where
  report-Returns : (fs : List Field) (ctx : S) → Returns (report on_header fs ctx)
  unfolding report
  report-Returns [] ctx = tt
  report-Returns (f ∷ fs) ctx = total ctx f.name f.value

  decode_loop-IsLimited :
      (fuel : ℕ) (h : HpackContext) (seen : Bool) (bytes : List ℕ) (ctx : S)
      → IsLimited h
      → length bytes ≤ fuel
      → Ensures (λ r. IsLimited r.0) (decode_loop on_header fuel h seen bytes ctx)
  unfolding decode_loop
  decode_loop-IsLimited fuel h seen [] ctx lim l = lim
  decode_loop-IsLimited zero h seen (byte ∷ rest) ctx lim l = absurd (omega arith)
  decode_loop-IsLimited (suc fuel) h seen (byte ∷ rest) ctx lim l =
      Ensures-bind IsStep (λ r. IsLimited r.0) (decode_field h seen byte (byte ∷ rest)) _
        (decode_field-IsStep h lim (byte ∷ rest) seen byte)
        (λ step p.
          Ensures-bind (λ _. Unit {0}) (λ r. IsLimited r.0) (report on_header step.header ctx) _
            (report-Returns step.header ctx)
            (λ ctx' _.
              decode_loop-IsLimited fuel step.hpack step.seen (drop step.read (byte ∷ rest)) ctx'
                p.1 (omega (arith, p.0, length-drop step.read (byte ∷ rest)))))

-- Whatever bytes a peer sends, and for a caller's function that always returns:
-- `hpack_decode_headers` returns. It takes no entry that is not there and its loop ends, and on
-- success the dynamic table is in order and within the limit that the program advertises, if it
-- was before.
pub decode_headers-IsLimited :
    {S : Type 0} (on_header : S → List ℕ → List ℕ → Outcome S) (h : HpackContext) (bytes : List ℕ)
    (ctx : S)
    → ((ctx : S) (name value : List ℕ) → Ensures (λ _. Unit {0}) (on_header ctx name value))
    → IsLimited h
    → Ensures (λ r. IsLimited r.0) (decode_headers on_header h bytes ctx)
unfolding decode_headers
decode_headers-IsLimited on_header h bytes ctx total lim =
    decode_loop-IsLimited on_header total (length bytes) h false bytes ctx lim (omega arith)
