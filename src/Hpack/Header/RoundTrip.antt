-- ===== src/Hpack/Header/RoundTrip.antt =====
-- A decoder keeps in step with the encoder: for every field it reports what was encoded, and its
-- dynamic table goes the way of the encoder's.
use mathlib.Core.Path.{subst}
use smartdns_ui.Prelude.{
  ℕ, zero, suc, ◌+◌, ◌≤◌, ◌≡◌, refl, sym, ap, ◌∙◌, Bool, true, false, List, [], ◌∷◌, ◌++◌, length,
  length-append, drop-append_length, All, Outcome, ok, fail, fault, stuck, ◌>>=◌, arith,
}
use smartdns_ui.Hpack.Table.Static.{Field}
use smartdns_ui.Hpack.Table.{HpackContext}
use smartdns_ui.Hpack.Header.{encode_header, decode_field, report, decode_loop, decode_headers}
use smartdns_ui.Hpack.Header.Fields.{
  IsField, IsReady, field_context-IsReady, encode_header-eq-ok, decode_field-bytes,
}

-- A run of successful calls of `hpack_encode_header`, each in whatever buffer it has: the fields,
-- the bytes that they left one after the other, and the context behind the last.
pub data Encodes : HpackContext → List Field → List ℕ → HpackContext → Type 0 where
  done : (h : HpackContext) → Encodes h [] [] h
  next :
      (h h₁ h₂ : HpackContext) (f : Field) (fs : List Field) (b bytes : List ℕ) (buf_size : ℕ)
      → encode_header h f.name f.value buf_size ≡ ok (b, h₁)
      → Encodes h₁ fs bytes h₂
      → Encodes h (f ∷ fs) (b ++ bytes) h₂

-- The caller's function on each field in turn.
abbrev pub report_all :
    {S : Type 0} → (S → List ℕ → List ℕ → Outcome S) → List Field → S → Outcome S
report_all on_header [] ctx = ok ctx
report_all on_header (f ∷ fs) ctx = on_header ctx f.name f.value >>= report_all on_header fs

module _ {S : Type 0} (on_header : S → List ℕ → List ℕ → Outcome S) where
  decode_loop-field :
      (fuel : ℕ) (h h' : HpackContext) (f : Field) (seen : Bool) (b : ℕ) (t rest : List ℕ) (ctx : S)
      → decode_field h seen b ((b ∷ t) ++ rest)
        ≡ ok (record { read = length (b ∷ t); hpack = h'; seen = true; header = f ∷ [] })
      → decode_loop on_header (suc fuel) h seen ((b ∷ t) ++ rest) ctx
        ≡ (on_header ctx f.name f.value >>= λ c. decode_loop on_header fuel h' true rest c)
  unfolding decode_loop report
  decode_loop-field fuel h h' f seen b t rest ctx e = rw (e, drop-append_length (b ∷ t) rest)

  decode_loop-next :
      (fuel : ℕ) (h h₁ h₂ : HpackContext) (f : Field) (fs : List Field) (seen : Bool) (b : ℕ)
      (t rest : List ℕ) (ctx : S)
      → decode_field h seen b ((b ∷ t) ++ rest)
        ≡ ok (record { read = length (b ∷ t); hpack = h₁; seen = true; header = f ∷ [] })
      → ((fuel' : ℕ) (c : S)
          → length rest ≤ fuel'
          → decode_loop on_header fuel' h₁ true rest c
            ≡ (report_all on_header fs c >>= λ d. ok (h₂, d)))
      → length (b ∷ t) + length rest ≤ fuel
      → decode_loop on_header fuel h seen ((b ∷ t) ++ rest) ctx
        ≡ (report_all on_header (f ∷ fs) ctx >>= λ c. ok (h₂, c))
  decode_loop-next zero h h₁ h₂ f fs seen b t rest ctx e ih l = absurd (omega arith)
  decode_loop-next (suc fuel) h h₁ h₂ f fs seen b t rest ctx e ih l =
      decode_loop-field fuel h h₁ f seen b t rest ctx e ∙ go (on_header ctx f.name f.value)
    where
      go :
          (r : Outcome S)
          → (r >>= λ c. decode_loop on_header fuel h₁ true rest c)
            ≡ ((r >>= report_all on_header fs) >>= λ c. ok (h₂, c))
      go (ok c) = ih fuel c (omega arith)
      go fail = refl
      go fault = refl
      go stuck = refl

  decode_loop-Encodes :
      {h h' : HpackContext} {fs : List Field} {bytes : List ℕ}
      → Encodes h fs bytes h'
      → (fuel : ℕ) (seen : Bool) (ctx : S) → IsReady h
      → All IsField fs
      → length bytes ≤ fuel
      → decode_loop on_header fuel h seen bytes ctx
        ≡ (report_all on_header fs ctx >>= λ c. ok (h', c))
  decode_loop-Encodes (done h) fuel seen ctx r a l = unfold decode_loop in refl
  decode_loop-Encodes (next h h₁ h₂ f fs b bytes n e run) fuel seen ctx r a l =
      let (b_eq, h_eq) = encode_header-eq-ok h f r a.0 n b h₁ e in
      let (x, t, f_eq, step) = decode_field-bytes h f r a.0 seen bytes in
      let r₁ : IsReady h₁ = subst IsReady (sym h_eq) (field_context-IsReady h f r) in
      let split : b ≡ x ∷ t = b_eq ∙ f_eq in
      let step₁ =
        subst
          (λ c.
            decode_field h seen x ((x ∷ t) ++ bytes)
            ≡ ok (record { read = length (x ∷ t); hpack = c; seen = true; header = f ∷ [] }))
          (sym h_eq) step in
      rw split (
        decode_loop-next fuel h h₁ h₂ f fs seen x t bytes ctx step₁
          (λ fuel' c l'. decode_loop-Encodes run fuel' true c r₁ a.1 l')
          (omega (arith, ap length split, length-append b bytes)))

-- Let an encoder and a decoder have equal contexts that are in order. After any run of successful calls of
-- `hpack_encode_header` on fields of C strings, `hpack_decode_headers` on all the bytes reports the
-- same fields, in order, to the caller's function, ends with its result or its error, and leaves
-- the decoder with the very context that the encoder has. It never faults nor runs without end.
pub decode_headers-Encodes :
    {S : Type 0} (on_header : S → List ℕ → List ℕ → Outcome S) (ctx : S) (h h' : HpackContext)
    (fs : List Field) (bytes : List ℕ)
    → IsReady h
    → All IsField fs
    → Encodes h fs bytes h'
    → decode_headers on_header h bytes ctx ≡ (report_all on_header fs ctx >>= λ c. ok (h', c))
unfolding decode_headers
decode_headers-Encodes on_header ctx h h' fs bytes r a run =
    decode_loop-Encodes on_header run (length bytes) false ctx r a (omega arith)
