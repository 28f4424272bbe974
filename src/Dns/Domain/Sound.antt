-- ===== src/Dns/Domain/Sound.antt =====
-- What `get_domain_from_packet` returns, against the format of a name as the code reads it. That is
-- the one of RFC 1035, 4.1.4, but wider: a length below 0xC0 is a label's, where the RFC has labels
-- of 63 bytes at most, and a pointer may lead forward.
use smartdns_ui.Prelude.{
  ℕ, zero, suc, ◌+◌, ◌-◌, ◌*◌, ◌%◌, ◌≤◌, ◌<◌, ◌≡◌, refl, sym, ap, ◌∙◌, le→leb, suc-eq-zero, ◌⊎◌,
  inl, inr, List, [], ◌∷◌, ◌++◌, length, take, drop, length-append, get_elem?, get_elem?-IsSome,
  some, arith, Ensures, Ensures-bind, Ensures-and, Ensures-mono, lt→ltb, fail, ltb, leb, Bool-cases,
  append_assoc, if◌then◌else◌,
}
use mathlib.Core.Path.{subst, ap₂}
use smartdns_ui.Dns.Domain.Bounds.{IsSafe, After, measure, stops, round-safe}
use smartdns_ui.Dns.Wire.{read_short}
use smartdns_ui.Dns.Domain.{
  Cursor, Round, break, continue, terminate, follow, put_dot, copy_label, read_label, dispatch,
  round, finish, decode_loop, decode_fuel, start_cursor, get_domain_from_packet,
}

-- `NameAt packet p labels e`: the name that starts at `p` has these labels, and its encoding at
-- `p`, without what its pointers lead to, ends in front of `e`.
pub data NameAt (packet : List ℕ) : ℕ → List (List ℕ) → ℕ → Type 0 where
  root : (p e : ℕ) → get_elem? packet p ≡ some 0 → e ≡ p + 1 → NameAt packet p [] e
  label :
      (p e len : ℕ) (ls : List (List ℕ))
      → get_elem? packet p ≡ some len
      → 0 < len
      → len < 0xC0
      → p + 1 + len ≤ length packet
      → NameAt packet (p + 1 + len) ls e
      → NameAt packet p (take len (drop (p + 1) packet) ∷ ls) e
  pointer :
      (p e q e' hi lo : ℕ) (ls : List (List ℕ))
      → get_elem? packet p ≡ some hi
      → get_elem? packet (p + 1) ≡ some lo
      → 0xC0 ≤ hi
      → q ≡ (hi * 256 + lo) % 0x4000
      → e ≡ p + 2
      → NameAt packet q ls e'
      → NameAt packet p ls e

-- The text of a name, behind what is there of it already: labels joined by dots.
abbrev pub join : List ℕ → List (List ℕ) → List ℕ
join out [] = out
join [] (l ∷ ls) = join l ls
join (x ∷ xs) (l ∷ ls) = join ((x ∷ xs) ++ b'.' ∷ l) ls

join-dotted :
    (out l : List ℕ) (ls : List (List ℕ))
    → 0 < length out
    → join out (l ∷ ls) ≡ join ((out ++ b'.' ∷ []) ++ l) ls
join-dotted [] l ls h = absurd (omega arith)
join-dotted (x ∷ xs) l ls h = ap (λ t. join (x ∷ t) ls) (sym (append_assoc xs (b'.' ∷ []) l))

join-empty :
    (out l : List ℕ) (ls : List (List ℕ)) → length out ≡ 0 → join out (l ∷ ls) ≡ join (out ++ l) ls
join-empty [] l ls h = refl
join-empty (x ∷ xs) l ls h = absurd (omega arith)

-- What `put_dot` leaves for the label's bytes.
record Dotted (c d : Cursor) : Type 0 where
  same_ptr : d.ptr ≡ c.ptr
  same_domain_ptr : d.domain_ptr ≡ c.domain_ptr
  same_compressed : d.is_compressed ≡ c.is_compressed
  stored : length d.output ≡ d.output_len
  joins : (l : List ℕ) (ls : List (List ℕ)) → join c.output (l ∷ ls) ≡ join (d.output ++ l) ls

-- What `copy_label` does at `d`: it copies the whole label, or the output is full behind it.
record Copied (packet : List ℕ) (packet_size size len : ℕ) (d d' : Cursor) : Type 0 where
  same_ptr : d'.ptr ≡ d.ptr
  same_domain_ptr : d'.domain_ptr ≡ d.domain_ptr
  same_compressed : d'.is_compressed ≡ d.is_compressed
  same_len : d'.output_len ≡ d.output_len
  copied :
      (size ≤ d.output_len + len + 1)
      ⊎ ((d'.output ≡ d.output ++ take len (drop d.ptr packet)) × (d.ptr + len ≤ packet_size))

module _ (packet : List ℕ) (packet_size size : ℕ) (inside : packet_size ≤ length packet) where
  -- `r` is the answer for a name that starts where `c` is.
  abbrev pub Meets : Cursor → List ℕ × ℕ → Type 0
  Meets c r =
      (ls : List (List ℕ)) × (e : ℕ) × NameAt packet c.ptr ls e
      × (r.0 ≡ join c.output ls)
      × (r.1 ≡ (if c.is_compressed then c.domain_ptr else e))

  abbrev Leads : Cursor → Round → Type 0
  Leads c (break c') = Meets c (finish packet packet_size size c')
  Leads c (continue c') = (size ≤ c'.output_len + 1) ⊎ ((r : List ℕ × ℕ) → Meets c' r → Meets c r)

  copy_label-Copied :
      (len : ℕ) (c : Cursor)
      → Ensures (Copied packet packet_size size len c) (copy_label packet packet_size size len c)
  unfolding copy_label
  copy_label-Copied len c = ground arith

  module _ (c : Cursor) (start : c.ptr < packet_size) where
    terminate-Leads :
        get_elem? packet c.ptr ≡ some 0
        → c.output_len < size
        → Ensures (Leads c) (terminate packet packet_size size c)
    unfolding terminate finish
    terminate-Leads z h =
        rw (lt→ltb c.output_len size h) ([], c.ptr + 1, NameAt.root _ _ z refl, refl, refl)

    follow-Leads :
        (hi : ℕ)
        → get_elem? packet c.ptr ≡ some hi
        → 0xC0 ≤ hi
        → Ensures (Leads c) (follow packet packet_size size c)
    unfolding follow read_short
    follow-Leads hi eh top = elim (Bool-cases (ltb packet_size (c.ptr + 2))) [
      | inl e ↦ rw e tt
      | inr e ↦
          let (lo, el) = get_elem?-IsSome packet (c.ptr + 1) (ground arith) in
          let q = (hi * 256 + lo) % 0x4000 in
          rw (e, eh, el)
            (elim (Bool-cases (ltb packet_size q)) [
              | inl f ↦ rw f tt
              | inr f ↦ rw f (
                  inr (λ r m. (
                    m.0,
                    c.ptr + 2,
                    NameAt.pointer _ _ q m.1 hi lo m.0 eh el top refl refl m.2,
                    m.3,
                    m.4,
                  )))
            ])
    ]

    put_dot-Dotted :
        length c.output ≡ c.output_len
        → c.output_len < size
        → Ensures (Dotted c) (put_dot packet packet_size size (record c { ptr_jump = 0 }))
    unfolding put_dot
    put_dot-Dotted h room = elim (Bool-cases (ltb 0 c.output_len)) [
      | inl e ↦
          rw (e, lt→ltb c.output_len size room)
            (record {
              same_ptr = refl;
              same_domain_ptr = refl;
              same_compressed = refl;
              stored = omega (arith, length-append c.output (b'.' ∷ []));
              joins = λ l ls. join-dotted c.output l ls (ground arith);
            })
      | inr e ↦ rw e (record {
        same_ptr = refl;
        same_domain_ptr = refl;
        same_compressed = refl;
        stored = h;
        joins = λ l ls. join-empty c.output l ls (ground arith);
      })
    ]

    -- the answer for the name behind a label gives the answer for the label and that name
    label-Meets :
        (len : ℕ) (d d' : Cursor)
        → get_elem? packet c.ptr ≡ some len
        → 0 < len
        → len < 0xC0
        → Dotted c d
        → Copied packet packet_size size len (record d { ptr = d.ptr + 1 }) d'
        → Leads c (continue (record d' { ptr = d'.ptr + len; output_len = d'.output_len + len }))
    label-Meets len d d' el pos small dd cd = elim cd.copied [
      | inl full ↦ inl (omega (arith, cd.same_len))
      | inr (copied, fits) ↦
          let l : List ℕ = take len (drop (c.ptr + 1) packet) in
          let moved : d'.ptr + len ≡ c.ptr + 1 + len = omega (arith, cd.same_ptr, dd.same_ptr) in
          let same : d'.output ≡ d.output ++ l =
            copied ∙ ap (λ p. d.output ++ take len (drop (p + 1) packet)) dd.same_ptr in
          let room : c.ptr + 1 + len ≤ length packet = omega (arith, cd.same_ptr, dd.same_ptr) in
          inr (λ r m. (
            l ∷ m.0,
            m.1,
            NameAt.label _ _ len m.0 el pos small room
                (subst (λ p. NameAt packet p m.0 m.1) moved m.2),
            m.3 ∙ ap (λ o. join o m.0) same ∙ sym (dd.joins l m.0),
            m.4
                ∙ ap₂ (λ b p. if b then p else m.1) (cd.same_compressed ∙ dd.same_compressed)
                    (cd.same_domain_ptr ∙ dd.same_domain_ptr),
          ))
    ]

    read_label-Leads :
        (len : ℕ)
        → get_elem? packet c.ptr ≡ some len
        → 0 < len
        → len < 0xC0
        → length c.output ≡ c.output_len
        → c.output_len < size
        → Ensures (Leads c) (read_label packet packet_size size len c)
    unfolding read_label
    read_label-Leads len el pos small h room =
        Ensures-bind (Dotted c) (Leads c) (put_dot packet packet_size size _) _
          (put_dot-Dotted h room)
          (λ d dd. elim (Bool-cases (ltb packet_size d.ptr)) [
            | inl e ↦ rw e tt
            | inr e ↦ rw e (
                Ensures-bind (Copied packet packet_size size len (record d { ptr = d.ptr + 1 }))
                  (Leads c) (copy_label packet packet_size size len _) _
                  (copy_label-Copied len (record d { ptr = d.ptr + 1 }))
                  (λ d' cd. label-Meets len d d' el pos small dd cd))
          ])

    dispatch-Leads :
        (len : ℕ)
        → get_elem? packet c.ptr ≡ some len
        → length c.output ≡ c.output_len
        → c.output_len < size
        → Ensures (Leads c) (dispatch packet packet_size size len c)
    unfolding dispatch
    dispatch-Leads zero el h room = terminate-Leads el room
    dispatch-Leads (suc n) el h room = elim (Bool-cases (leb 0xC0 (suc n))) [
      | inl e ↦ rw (suc-eq-zero n, e) (follow-Leads (suc n) el (ground arith))
      | inr e ↦
          rw (suc-eq-zero n, e) (read_label-Leads (suc n) el (omega arith) (ground arith) h room)
    ]

  round-Leads :
      (c : Cursor)
      → IsSafe packet packet_size size inside c
      → Ensures (Leads c) (round packet packet_size size c)
  unfolding round
  round-Leads c s = elim (Bool-cases (stops packet_size size c)) [
    | inl e ↦ rw e tt
    | inr e ↦
        let (len, el) = get_elem?-IsSome packet c.ptr (ground arith) in
        rw (e, el) (dispatch-Leads c (ground arith) len el (ground arith) (ground arith))
  ]

  -- A full output buffer ends the loop with an error.
  decode_loop-full :
      (fuel : ℕ) (c : Cursor)
      → 0 < fuel
      → size ≤ c.output_len + 1
      → decode_loop packet packet_size size fuel c ≡ fail
  unfolding decode_loop round
  decode_loop-full zero c p h = absurd (omega arith)
  decode_loop-full (suc fuel) c p h = elim (Bool-cases (leb packet_size c.ptr)) [
    | inl e ↦ rw e
    | inr e ↦ rw (e, le→leb (size - 1) c.output_len (omega arith))
  ]

  decode_loop-Meets :
      (fuel : ℕ) (c : Cursor)
      → IsSafe packet packet_size size inside c
      → measure size c < fuel
      → Ensures (Meets c) (decode_loop packet packet_size size fuel c)
  unfolding decode_loop
  decode_loop-Meets zero c s h = absurd (omega arith)
  decode_loop-Meets (suc fuel) c s h =
      Ensures-bind (λ r. After packet packet_size size inside c r × Leads c r) (Meets c)
        (round packet packet_size size c) _
        (Ensures-and (After packet packet_size size inside c) (Leads c) _
          (round-safe packet packet_size size inside c s) (round-Leads c s))
        (elim [
          | break c' ↦ λ a. a.1
          | continue c' ↦ λ a. go c' a (decode_loop-Meets fuel c' a.0.0 (omega arith))
        ])
    where
      go :
          (c' : Cursor)
          → After packet packet_size size inside c (continue c') × Leads c (continue c')
          → Ensures (Meets c') (decode_loop packet packet_size size fuel c')
          → Ensures (Meets c) (decode_loop packet packet_size size fuel c')
      go c' (a, inl full) m = rw (decode_loop-full fuel c' (omega arith) full) tt
      go c' (a, inr lead) m = Ensures-mono (Meets c') (Meets c) _ m lead

-- Every name that `_dns_get_domain_from_packet` returns is one that the packet has at the pointer:
-- labels, each of 1 to 191 bytes behind its length, up to the root, and compression pointers to any
-- place in the packet. Its labels, joined by dots, are the text returned, and the pointer that is
-- left stands behind the name's own bytes. Beside it the call neither faults nor runs without end.
pub get_domain_from_packet_sound :
    (packet : List ℕ) (packet_size ptr size : ℕ)
    → packet_size ≤ length packet
    → Ensures
        (λ r. (ls : List (List ℕ)) × NameAt packet ptr ls r.1 × (r.0 ≡ join [] ls))
        (get_domain_from_packet packet packet_size ptr size)
unfolding get_domain_from_packet
get_domain_from_packet_sound packet packet_size ptr size inside =
    Ensures-mono (Meets packet packet_size size inside (start_cursor ptr)) _ _
      (decode_loop-Meets packet packet_size size inside (decode_fuel size) (start_cursor ptr)
        (ground arith) (omega arith))
      (λ r m. (m.0, subst (λ e. NameAt packet ptr m.0 e) (sym m.4) m.2, m.3))
