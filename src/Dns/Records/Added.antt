-- ===== src/Dns/Records/Added.antt =====
-- `_dns_rr_add_end` against the sections as five lists of records.
use smartdns_ui.Prelude.{
  ℕ, suc, ◌+◌, ◌*◌, ◌%◌, ◌^◌, ◌≤◌, ◌<◌, ◌≡◌, ◌≢◌, refl, sym, ap, ◌∙◌, ◌⊎◌, inl, inr, arith, true,
  false, Bool-cases, List, [], ◌∷◌, ◌++◌, length, length-append, All, All-append, ltb, ◌==◌,
  if◌then◌else◌, ok, ==_iff,
}
use mathlib.Core.Path.{subst}
use smartdns_ui.Dns.Records.{
  Rrs, Section, Packet, dns_rr_end, packet_head, rrs_head, dns_rrs_opt, set_next, last_record,
  link_record, rr_add_end,
}
use smartdns_ui.Dns.Records.Chain.{
  Mem, Chain, Rising, last_of, Chain-mono, last_record-Chain, Chain-extend, linked, linked-other,
  set_next-fresh, record_at-append, record_at-fresh, last_of-Mem, All-Mem,
}

-- The sections of a packet hold the records at these offsets, in this order.
pub record IsLinked (p : Packet) (chains : ℕ → List ℕ) : Type 0 where
  pub chain : (t : ℕ) → Chain p.rrs (p.sections t).start (chains t)
  pub rising : (t : ℕ) → Rising (chains t)
  pub below : (t : ℕ) → All (λ o. o < p.len) (chains t)
  pub apart : (t u o : ℕ) → Mem o (chains t) → Mem o (chains u) → t ≡ u
  pub counted : (t : ℕ) → (p.sections t).count ≡ length (chains t)
  pub heads : All (λ r. r.pos < p.len) p.rrs
  pub enough : (t : ℕ) → length (chains t) ≤ length p.rrs
  pub room : length p.rrs * rrs_head ≤ p.len
  pub fits : p.len + packet_head ≤ p.size
  pub small : p.size < dns_rr_end

-- The lists with one more record at the end of one.
abbrev pub with_record : (ℕ → List ℕ) → ℕ → ℕ → ℕ → List ℕ
with_record chains type pos t = if t == type then chains t ++ pos ∷ [] else chains t

All-mono : (a b : ℕ) → a ≤ b → (os : List ℕ) → All (λ o. o < a) os → All (λ o. o < b) os
All-mono a b l [] h = tt
All-mono a b l (o ∷ os) h = (omega (arith, h.0), All-mono a b l os h.1)

Rising-append : (os : List ℕ) (n : ℕ) → All (λ o. o < n) os → Rising os → Rising (os ++ n ∷ [])
Rising-append [] n b r = (tt, tt)
Rising-append (o ∷ os) n b r =
    (All-append (λ p. o < p) os (n ∷ []) r.0 (b.0, tt), Rising-append os n b.1 r.1)

Mem-append : (o n : ℕ) (os : List ℕ) → Mem o (os ++ n ∷ []) → Mem o os ⊎ (o ≡ n)
Mem-append o n [] (inl e) = inr e
Mem-append o n [] (inr m) = elim m [ ]
Mem-append o n (x ∷ os) (inl e) = inl (inl e)
Mem-append o n (x ∷ os) (inr m) = elim (Mem-append o n os m) [ inl k ↦ inl (inr k) | inr e ↦ inr e ]

heads_mono : (a b : ℕ) → a ≤ b → (rs : List Rrs) → All (λ r. r.pos < a) rs → All (λ r. r.pos < b) rs
heads_mono a b l [] h = tt
heads_mono a b l (r ∷ rs) h = (omega (arith, h.0), heads_mono a b l rs h.1)

module _ (p : Packet) (chains : ℕ → List ℕ) (k : IsLinked p chains) (type rtype len : ℕ) where
  abbrev new : Rrs
  new = record { pos = p.len; next = dns_rr_end; len = len % 2 ^ 16; rtype = rtype }

  -- A packet with the record added, of which the parts have been shown.
  abbrev added : List Rrs → Section → Packet
  added rrs s = record p {
    sections = λ t. if t == type then record s { count = (s.count + 1) % 2 ^ 16 } else p.sections t;
    len = p.len + len + rrs_head;
    rrs = rrs ++ new ∷ [];
  }

  Mem-with_record :
      (t o : ℕ)
      → Mem o (with_record chains type p.len t)
      → (Mem o (chains t) × (o < p.len)) ⊎ ((t ≡ type) × (o ≡ p.len))
  Mem-with_record t o m = elim (Bool-cases (t == type)) [
    | inl e ↦ elim (Mem-append o p.len (chains t) (rw e at m)) [
      | inl h ↦ inl (h, All-Mem (λ o. o < p.len) o (chains t) (k.below t) h)
      | inr h ↦ inr ((==_iff t type).0 e, h)
    ]
    | inr e ↦ inl (rw e at m, All-Mem (λ o. o < p.len) o (chains t) (k.below t) (rw e at m))
  ]

  added-IsLinked :
      (rrs : List Rrs) (s : Section)
      → length rrs ≡ length p.rrs
      → All (λ r. r.pos < p.len) rrs
      → Chain (rrs ++ new ∷ []) s.start (chains type ++ p.len ∷ [])
      → ((t : ℕ) → t ≢ type → Chain (rrs ++ new ∷ []) (p.sections t).start (chains t))
      → s.count ≡ length (chains type)
      → p.len + len + packet_head + rrs_head ≤ p.size
      → IsLinked (added rrs s) (with_record chains type p.len)
  added-IsLinked rrs s same heads mine others count fits = record {
    chain = λ t. elim (Bool-cases (t == type)) [
      | inl e ↦ rw e (
          subst (λ x. Chain (rrs ++ new ∷ []) s.start (chains x ++ p.len ∷ []))
            (sym ((==_iff t type).0 e)) mine)
      | inr e ↦ rw e (others t (λ q. ground (arith, e, q)))
    ];
    rising = λ t. elim (Bool-cases (t == type)) [
      | inl e ↦ rw e (Rising-append (chains t) p.len (k.below t) (k.rising t))
      | inr e ↦ rw e (k.rising t)
    ];
    below = λ t. elim (Bool-cases (t == type)) [
      | inl e ↦ rw e (
          All-append _ (chains t) _ (All-mono p.len _ (omega arith) (chains t) (k.below t))
            (omega arith, tt))
      | inr e ↦ rw e (All-mono p.len _ (omega arith) (chains t) (k.below t))
    ];
    apart = λ t u o m n. elim (Mem-with_record t o m) [
      | inl (a, x) ↦ elim (Mem-with_record u o n) [
        | inl (b, y) ↦ k.apart t u o a b
        | inr (b, y) ↦ absurd (omega (arith, x, y))
      ]
      | inr (a, x) ↦ elim (Mem-with_record u o n) [
        | inl (b, y) ↦ absurd (omega (arith, x, y))
        | inr (b, y) ↦ a ∙ sym b
      ]
    ];
    counted = λ t. elim (Bool-cases (t == type)) [
      | inl e ↦ rw e (
          omega (
            arith,
            count,
            length-append (chains t) (p.len ∷ []),
            k.enough t,
            k.room,
            k.fits,
            k.small,
            ap (λ x. length (chains x)) ((==_iff t type).0 e),
          ))
      | inr e ↦ rw e (k.counted t)
    ];
    heads = All-append _ rrs _ (heads_mono p.len _ (omega arith) rrs heads) (omega arith, tt);
    enough = λ t. elim (Bool-cases (t == type)) [
      | inl e ↦ rw e (
          omega (
            arith,
            length-append (chains t) (p.len ∷ []),
            length-append rrs (new ∷ []),
            same,
            k.enough t,
          ))
      | inr e ↦ rw e (omega (arith, length-append rrs (new ∷ []), same, k.enough t))
    ];
    room = omega (arith, k.room, same, length-append rrs (new ∷ []));
    fits = omega (arith, fits);
    small = k.small;
  }

  -- The new record as the first of its section, or behind the last one.
  abbrev Links : List Rrs × Section → Type 0
  Links (rrs, s) =
      (link_record p type ≡ ok (rrs, s))
      × (length rrs ≡ length p.rrs)
      × All (λ r. r.pos < p.len) rrs
      × Chain (rrs ++ new ∷ []) s.start (chains type ++ p.len ∷ [])
      × ((t : ℕ) → t ≢ type → Chain (rrs ++ new ∷ []) (p.sections t).start (chains t))
      × (s.count ≡ length (chains type))

  length-set_next : (q v : ℕ) (rs : List Rrs) → length (set_next q v rs) ≡ length rs
  unfolding set_next
  length-set_next q v [] = refl
  length-set_next q v (r ∷ rs) = ap suc (length-set_next q v rs)

  word : p.len % 2 ^ 16 ≡ p.len
  word = omega (arith, k.fits, k.small)

  link_record-Links : (os : List ℕ) → chains type ≡ os → (r : List Rrs × Section) × Links r
  unfolding link_record
  link_record-Links [] e =
      let none_yet : ((p.sections type).start == dns_rr_end) ≡ true =
        ground (arith, subst (Chain p.rrs (p.sections type).start) e (k.chain type)) in
      (
        (p.rrs, record { count = (p.sections type).count; start = p.len }),
        (
          rw (none_yet, word) refl,
          refl,
          k.heads,
          subst (λ x. Chain (p.rrs ++ new ∷ []) p.len (x ++ p.len ∷ [])) (sym e)
              (refl, omega (arith, k.fits, k.small), new, record_at-fresh p.rrs new k.heads, refl),
          λ t q.
              Chain-mono p.rrs (p.rrs ++ new ∷ []) (chains t) (p.sections t).start
                (λ o r m a. record_at-append o p.rrs (new ∷ []) r a) (k.chain t),
          k.counted type,
        ),
      )
  link_record-Links (o ∷ os) e =
      let c = subst (Chain p.rrs (p.sections type).start) e (k.chain type) in
      let last : ℕ = last_of o os in
      let some_yet : ((p.sections type).start == dns_rr_end) ≡ false = ground (arith, c.0, c.1) in
      let walk : last_record (length p.rrs) p.rrs (p.sections type).start ≡ ok last =
        last_record-Chain (length p.rrs) p.rrs (p.sections type).start o os c
          (omega (arith, k.enough type, ap length e)) in
      let mem : Mem last (chains type) = subst (Mem last) (sym e) (last_of-Mem o os) in
      (
        (set_next last p.len p.rrs, p.sections type),
        (
          rw (some_yet, walk, word) refl,
          length-set_next last p.len p.rrs,
          set_next-fresh p.rrs new k.heads last p.rrs k.heads,
          subst
              (λ x. Chain (linked p.rrs new k.heads last) (p.sections type).start (x ++ p.len ∷ []))
              (sym e)
              (Chain-extend p.rrs new k.heads (p.sections type).start o os refl
                (omega (arith, k.fits, k.small)) (subst Rising e (k.rising type)) c),
          λ t q.
              Chain-mono p.rrs _ (chains t) (p.sections t).start
                (λ x r m a.
                  linked-other p.rrs new k.heads last x r
                    (λ y. q (k.apart t type x m (subst (λ z. Mem z (chains type)) (sym y) mem))) a)
                (k.chain t),
          k.counted type,
        ),
      )

-- A record of `len` bytes added to one of the five sections of a packet of less than 65535 bytes,
-- with room for it and its head: `_dns_rr_add_end` succeeds, and the records of that section are
-- those before and then the new one, those of every other section are unchanged, the counts are
-- the numbers of records, and all heads are inside of the packet.
pub rr_add_end-IsLinked :
    (p : Packet) (chains : ℕ → List ℕ) (type rtype len : ℕ)
    → IsLinked p chains
    → type ≤ dns_rrs_opt
    → p.len + len + packet_head + rrs_head ≤ p.size
    → (q : Packet) × (rr_add_end p type rtype len ≡ ok q)
      × IsLinked q (with_record chains type p.len)
      × (q.len ≡ p.len + len + rrs_head)
unfolding rr_add_end
rr_add_end-IsLinked p chains type rtype len k known fits =
    let ((rrs, s), (e, same, heads, mine, others, count)) =
      link_record-Links p chains k type rtype len (chains type) refl in
    let room : ltb p.size (p.len + len + packet_head + rrs_head) ≡ false = ground arith in
    let section : ltb dns_rrs_opt type ≡ false = ground arith in
    (
      added p chains k type rtype len rrs s,
      rw (room, section, e) refl,
      added-IsLinked p chains k type rtype len rrs s same heads mine others count fits,
      refl,
    )
