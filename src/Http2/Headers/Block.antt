-- ===== src/Http2/Headers/Block.antt =====
-- A header block of src/http_parse/http2.c: its buffer, and its decoding against
-- `hpack_decode_headers` of src/http_parse/hpack.c.
use smartdns_ui.Prelude.{
  ℕ, zero, suc, ◌+◌, ◌*◌, ◌^◌, ◌≤◌, ◌<◌, ◌≡◌, refl, ap, sym, ◌∙◌, min, Bool, true, false, none,
  some, List, [], ◌∷◌, ◌++◌, append-nil, length, length-drop, take, drop, ltb, ◌==◌, Bool-cases,
  ◌⊎◌, inl, inr, ltb→lt, ltb-false, leb-false, if◌then◌else◌, if_cases, Outcome, ok, fail, fault,
  stuck, ◌>>=◌, Ensures, arith,
}
use mathlib.Core.Path.{subst}
use native.Mathlib.Nat.{pow-suc, mul_comm, mul_assoc, one-le-pow}
use smartdns_ui.Hpack.Table.Static.{Field}
use smartdns_ui.Hpack.Table.{HpackContext}
use smartdns_ui.Hpack.Header.{Step, decode_field, report, decode_loop, decode_headers}
use smartdns_ui.Hpack.Header.Safe.{IsLimited, IsStep, decode_field-IsStep}
use smartdns_ui.Http2.Output.Growth.{ltb-false→le}
use smartdns_ui.Http2.State.{Ctx}
use smartdns_ui.Http2.Headers.{
  grow_block, block_capacity, max_header_block_size, append_header_block, decode_block,
}

times : (t a m p needed : ℕ) → (t ≡ a) ⊎ (t ≡ m) → needed ≤ a * p → needed ≤ m * p → needed ≤ t * p
times t a m p needed (inl e) h k = rw e h
times t a m p needed (inr e) h k = rw e k

-- The loop that doubles the capacity of the block's buffer, up to the limit
grow_block_enough :
    (fuel capacity needed : ℕ)
    → 0 < capacity
    → capacity ≤ max_header_block_size
    → needed ≤ max_header_block_size
    → needed ≤ capacity * 2 ^ fuel
    → (n : ℕ) × (grow_block (suc fuel) capacity needed ≡ some n)
      × (needed ≤ n)
      × (n ≤ max_header_block_size)
unfolding grow_block
grow_block_enough zero capacity needed h₀ h₁ h₂ h₃ =
    rw (ltb-false capacity needed (omega arith)) (capacity, refl, omega arith, h₁)
grow_block_enough (suc fuel) capacity needed h₀ h₁ h₂ h₃ =
    let temp : ℕ = min (capacity * 2) max_header_block_size in
    elim (Bool-cases (ltb capacity needed)) [
      | inl e ↦
          let small : capacity < needed = ltb→lt capacity needed e in
          let twice : capacity * 2 * 2 ^ fuel ≡ capacity * 2 ^ suc fuel =
            mul_assoc capacity 2 (2 ^ fuel)
            ∙ ap (λ (t : ℕ). capacity * t) (sym (pow-suc 2 fuel ∙ mul_comm (2 ^ fuel) 2)) in
          let most : needed ≤ max_header_block_size * 2 ^ fuel =
            omega (arith, one-le-pow fuel 2 (omega arith)) in
          let which : (temp ≡ capacity * 2) ⊎ (temp ≡ max_header_block_size) = ground arith in
          rw (e, leb-false temp capacity (omega arith))
            (grow_block_enough fuel temp needed (omega arith) (omega arith) h₂ (
              times temp (capacity * 2) max_header_block_size (2 ^ fuel) needed which
                (omega (arith, twice)) most))
      | inr e ↦ rw e (capacity, refl, ltb-false→le capacity needed e, h₁)
    ]

block_capacity_enough :
    (capacity needed : ℕ)
    → capacity ≤ max_header_block_size
    → needed ≤ max_header_block_size
    → (n : ℕ) × (block_capacity capacity needed ≡ some n)
      × (needed ≤ n)
      × (n ≤ max_header_block_size)
unfolding block_capacity
block_capacity_enough capacity needed h k =
    let initial : ℕ = if capacity == 0 then 4096 else capacity in
    let pos : 0 < initial =
      if_cases (λ n. 0 < n) (capacity == 0) 4096 capacity (λ e. omega arith) (λ e. ground arith) in
    let most : initial ≤ max_header_block_size =
      if_cases (λ n. n ≤ max_header_block_size) (capacity == 0) 4096 capacity (λ e. omega arith)
        (λ e. h) in
    elim (Bool-cases (ltb capacity needed)) [
      | inl e ↦ rw e (grow_block_enough 31 initial needed pos most k (omega arith))
      | inr e ↦ rw e (capacity, refl, ltb-false→le capacity needed e, h)
    ]

-- A buffer of up to 64 KiB takes bytes as long as the block has at most 64 KiB with them: they follow
-- the block, and the buffer has room for them and no more than 64 KiB. It refuses what is longer.
pub append_header_block-HasRoom :
    (c : Ctx) (bytes : List ℕ)
    → c.header_block_capacity ≤ max_header_block_size
    → (length c.header_block + length bytes ≤ max_header_block_size
        × ((n : ℕ) × (append_header_block c bytes
              ≡ some
                  (record c { header_block = c.header_block ++ bytes; header_block_capacity = n }))
            × (length c.header_block + length bytes ≤ n)
            × (n ≤ max_header_block_size)))
      ⊎ (max_header_block_size < length c.header_block + length bytes
          × (append_header_block c bytes ≡ none))
unfolding append_header_block
append_header_block-HasRoom c bytes h =
    let needed : ℕ = length c.header_block + length bytes in
    elim (Bool-cases (ltb max_header_block_size needed)) [
      | inl e ↦ inr (ltb→lt _ _ e, rw e refl)
      | inr e ↦
          let fits : needed ≤ max_header_block_size = ltb-false→le _ _ e in
          let (n, found, room, most) =
            block_capacity_enough c.header_block_capacity needed h fits in
          inl (fits, (n, rw (e, found) refl, room, most))
    ]

abbrev pub Decoded : Type 0
Decoded = Bool × (HpackContext × List Field)

step_result :
    (h : HpackContext) (headers : List Field) (next : Step → Outcome Decoded) (o : Outcome Step)
    → IsLimited h
    → Ensures IsStep o
    → ((step : Step) → IsStep step → Ensures (λ r. IsLimited r.1.0) (next step))
    → Ensures
        (λ r. IsLimited r.1.0)
        (elim o [
          | ok step ↦ next step
          | fail ↦ ok (false, (h, headers))
          | fault ↦ fault
          | stuck ↦ stuck
        ])
step_result h headers next (ok step) lim e k = k step e
step_result h headers next fail lim e k = lim
step_result h headers next fault lim e k = e
step_result h headers next stuck lim e k = e

-- A block of any bytes is decoded to its end or to a field that is wrong, and either way the
-- decoder's table is in order and within its limit.
pub decode_block-IsLimited :
    (fuel : ℕ) (h : HpackContext) (seen : Bool) (bytes : List ℕ) (headers : List Field)
    → IsLimited h
    → length bytes ≤ fuel
    → Ensures (λ r. IsLimited r.1.0) (decode_block fuel h seen bytes headers)
unfolding decode_block
decode_block-IsLimited fuel h seen [] headers lim l = lim
decode_block-IsLimited zero h seen (byte ∷ rest) headers lim l = absurd (omega arith)
decode_block-IsLimited (suc fuel) h seen (byte ∷ rest) headers lim l =
    step_result h headers
      (λ step.
        decode_block fuel step.hpack step.seen (drop step.read (byte ∷ rest))
          (headers ++ take 1 step.header))
      (decode_field h seen byte (byte ∷ rest)) lim
      (decode_field-IsStep h lim (byte ∷ rest) seen byte)
      (λ step p.
        decode_block-IsLimited fuel step.hpack step.seen (drop step.read (byte ∷ rest))
          (headers ++ take 1 step.header) p.1
          (omega (arith, p.0, length-drop step.read (byte ∷ rest))))

-- `_http2_on_header`
abbrev pub on_header : List Field → List ℕ → List ℕ → Outcome (List Field)
on_header headers name value = ok (headers ++ record { name = name; value = value } ∷ [])

-- The first result is that of `hpack_decode_headers`, the second has the state after an error too.
abbrev pub Agrees : Outcome (HpackContext × List Field) → Outcome Decoded → Type 0
Agrees (ok r) o = o ≡ ok (true, r)
Agrees fail o = (r : HpackContext × List Field) × (o ≡ ok (false, r))
Agrees fault o = o ≡ fault
Agrees stuck o = o ≡ stuck

step-Agrees :
    (h : HpackContext) (headers : List Field) (next : Step → Outcome (HpackContext × List Field))
    (next' : Step → Outcome Decoded) (o : Outcome Step)
    → ((step : Step) → Agrees (next step) (next' step))
    → Agrees (o >>= next) (elim o [
      | ok step ↦ next' step
      | fail ↦ ok (false, (h, headers))
      | fault ↦ fault
      | stuck ↦ stuck
    ])
step-Agrees h headers next next' (ok step) k = k step
step-Agrees h headers next next' fail k = ((h, headers), refl)
step-Agrees h headers next next' fault k = refl
step-Agrees h headers next next' stuck k = refl

report-Agrees :
    (fs headers : List Field) (next : List Field → Outcome (HpackContext × List Field))
    (o : Outcome Decoded)
    → Agrees (next (headers ++ take 1 fs)) o
    → Agrees (report on_header fs headers >>= next) o
unfolding report
report-Agrees [] headers next o k = subst (λ t. Agrees (next t) o) (append-nil headers) k
report-Agrees (f ∷ fs) headers next o k = k

decode_loop-Agrees :
    (fuel : ℕ) (h : HpackContext) (seen : Bool) (bytes : List ℕ) (headers : List Field)
    → Agrees
        (decode_loop on_header fuel h seen bytes headers)
        (decode_block fuel h seen bytes headers)
unfolding decode_loop decode_block
decode_loop-Agrees fuel h seen [] headers = refl
decode_loop-Agrees zero h seen (byte ∷ rest) headers = refl
decode_loop-Agrees (suc fuel) h seen (byte ∷ rest) headers =
    step-Agrees h headers _ _ (decode_field h seen byte (byte ∷ rest)) (λ step.
      report-Agrees step.header headers
        (λ headers'.
          decode_loop on_header fuel step.hpack step.seen (drop step.read (byte ∷ rest)) headers')
        _
        (decode_loop-Agrees fuel step.hpack step.seen (drop step.read (byte ∷ rest))
          (headers ++ take 1 step.header)))

-- The decoding of a block, which keeps the state at an error, gives what `hpack_decode_headers`
-- gives when that succeeds, and fails just when that fails.
decode_block-decode_headers :
    (h : HpackContext) (bytes : List ℕ) (headers : List Field)
    → Agrees
        (decode_headers on_header h bytes headers)
        (decode_block (length bytes) h false bytes headers)
unfolding decode_headers
decode_block-decode_headers h bytes headers =
    decode_loop-Agrees (length bytes) h false bytes headers
