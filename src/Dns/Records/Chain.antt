-- ===== src/Dns/Records/Chain.antt =====
-- The links between the records of a section.
use smartdns_ui.Prelude.{
  ℕ, zero, suc, ◌<◌, ◌≡◌, ◌≢◌, refl, sym, ap, ◌∙◌, ◌⊎◌, inl, inr, arith, true, false, Bool-cases,
  List, [], ◌∷◌, ◌++◌, length, All, ◌==◌, some, ok,
}
use mathlib.Core.Path.{subst}
use smartdns_ui.Dns.Records.{Rrs, dns_rr_end, record_at, set_next, last_record}

abbrev pub Mem : ℕ → List ℕ → Type 0
Mem o [] = ⊥
Mem o (x ∷ xs) = (o ≡ x) ⊎ Mem o xs

-- From a start on, the records at these offsets are linked in this order, and the last has no next.
abbrev pub Chain : List Rrs → ℕ → List ℕ → Type 0
Chain rrs s [] = s ≡ dns_rr_end
Chain rrs s (o ∷ os) =
    (s ≡ o) × (o < dns_rr_end) × (r : Rrs) × (record_at o rrs ≡ some r) × Chain rrs r.next os

-- Later records stand behind earlier ones.
abbrev pub Rising : List ℕ → Type 0
Rising [] = Unit {0}
Rising (o ∷ os) = All (λ p. o < p) os × Rising os

abbrev pub last_of : ℕ → List ℕ → ℕ
last_of o [] = o
last_of o (p ∷ os) = last_of p os

pub record_at-append :
    (o : ℕ) (rrs new : List Rrs) (r : Rrs)
    → record_at o rrs ≡ some r
    → record_at o (rrs ++ new) ≡ some r
unfolding record_at
record_at-append o [] new r e = cc
record_at-append o (x ∷ rrs) new r e = elim (Bool-cases (x.pos == o)) [
  | inl q ↦ rw q (rw q at e)
  | inr q ↦ rw q (record_at-append o rrs new r (rw q at e))
]

pub record_at-fresh :
    (rrs : List Rrs) (new : Rrs)
    → All (λ r. r.pos < new.pos) rrs
    → record_at new.pos (rrs ++ new ∷ []) ≡ some new
unfolding record_at
record_at-fresh [] new a = let q : (new.pos == new.pos) ≡ true = ground arith in rw q refl
record_at-fresh (x ∷ rrs) new a =
    let q : (x.pos == new.pos) ≡ false = ground (arith, a.0) in rw q (record_at-fresh rrs new a.1)

module _ (p v : ℕ) where
  record_at-set_next_ne :
      (o : ℕ) (rrs : List Rrs) → o ≢ p → record_at o (set_next p v rrs) ≡ record_at o rrs
  unfolding record_at set_next
  record_at-set_next_ne o [] n = refl
  record_at-set_next_ne o (x ∷ rrs) n = elim (Bool-cases (x.pos == p)) [
    | inl q ↦
        let no_hit : (x.pos == o) ≡ false = ground (arith, q, n) in
        rw (q, no_hit) (record_at-set_next_ne o rrs n)
    | inr q ↦ elim (Bool-cases (x.pos == o)) [
      | inl t ↦ rw (q, t) refl
      | inr t ↦ rw (q, t) (record_at-set_next_ne o rrs n)
    ]
  ]

  record_at-set_next_self :
      (rrs : List Rrs) (r : Rrs)
      → record_at p rrs ≡ some r
      → record_at p (set_next p v rrs) ≡ some (record r { next = v })
  unfolding record_at set_next
  record_at-set_next_self [] r e = cc
  record_at-set_next_self (x ∷ rrs) r e = elim (Bool-cases (x.pos == p)) [
    | inl q ↦
        let e' : some x ≡ some r = rw q at e in
        let same : x ≡ r = cc in rw (q, q) (ap {A = Rrs} (λ y. some (record y { next = v })) same)
    | inr q ↦ rw (q, q) (record_at-set_next_self rrs r (rw q at e))
  ]

-- A chain stands as long as its own records do.
pub Chain-mono :
    (rrs rrs' : List Rrs) (os : List ℕ) (s : ℕ)
    → ((o : ℕ) (r : Rrs) → Mem o os → record_at o rrs ≡ some r → record_at o rrs' ≡ some r)
    → Chain rrs s os
    → Chain rrs' s os
Chain-mono rrs rrs' [] s f c = c
Chain-mono rrs rrs' (o ∷ os) s f (e, l, r, a, c) =
    (e, l, r, f o r (inl refl) a, Chain-mono rrs rrs' os r.next (λ p q m. f p q (inr m)) c)

pub last_of-Mem : (o : ℕ) (os : List ℕ) → Mem (last_of o os) (o ∷ os)
last_of-Mem o [] = inl refl
last_of-Mem o (p ∷ os) = inr (last_of-Mem p os)

pub All-Mem : (P : ℕ → Type 0) (o : ℕ) (os : List ℕ) → All P os → Mem o os → P o
All-Mem P o [] a m = elim m [ ]
All-Mem P o (x ∷ os) a (inl e) = subst P (sym e) a.0
All-Mem P o (x ∷ os) a (inr m) = All-Mem P o os a.1 m

-- The walk along a chain ends at its last record.
pub last_record-Chain :
    (fuel : ℕ) (rrs : List Rrs) (s o : ℕ) (os : List ℕ)
    → Chain rrs s (o ∷ os)
    → length os < fuel
    → last_record fuel rrs s ≡ ok (last_of o os)
unfolding last_record
last_record-Chain zero rrs s o os c l = absurd (omega arith)
last_record-Chain (suc fuel) rrs s o [] (e, b, r, a, c) l =
    let stop : (r.next == dns_rr_end) ≡ true = ground (arith, c) in rw (e, a, stop) refl
last_record-Chain (suc fuel) rrs s o (p ∷ os) (e, b, r, a, c) l =
    let go : (r.next == dns_rr_end) ≡ false = ground (arith, c.0, c.1) in
    rw (e, a, go) (last_record-Chain fuel rrs r.next p os c (omega (arith, l)))

module _ (rrs : List Rrs) (new : Rrs) (fresh : All (λ r. r.pos < new.pos) rrs) where
  abbrev pub linked : ℕ → List Rrs
  linked p = set_next p new.pos rrs ++ new ∷ []

  pub set_next-fresh :
      (p : ℕ) (rs : List Rrs)
      → All (λ r. r.pos < new.pos) rs
      → All (λ r. r.pos < new.pos) (set_next p new.pos rs)
  unfolding set_next
  set_next-fresh p [] a = tt
  set_next-fresh p (x ∷ rs) a = elim (Bool-cases (x.pos == p)) [
    | inl q ↦ rw q (a.0, set_next-fresh p rs a.1)
    | inr q ↦ rw q (a.0, set_next-fresh p rs a.1)
  ]

  pub linked-other :
      (p o : ℕ) (r : Rrs) → o ≢ p → record_at o rrs ≡ some r → record_at o (linked p) ≡ some r
  linked-other p o r n a =
      record_at-append o (set_next p new.pos rrs) (new ∷ []) r
        (record_at-set_next_ne p new.pos o rrs n ∙ a)

  -- The new record behind the last one of a chain.
  pub Chain-extend :
      (s o : ℕ) (os : List ℕ)
      → new.next ≡ dns_rr_end
      → new.pos < dns_rr_end
      → Rising (o ∷ os)
      → Chain rrs s (o ∷ os)
      → Chain (linked (last_of o os)) s ((o ∷ os) ++ new.pos ∷ [])
  Chain-extend s o [] stop small rising (e, b, r, a, c) = (
    e,
    b,
    record r { next = new.pos },
    record_at-append o (set_next o new.pos rrs) (new ∷ []) _
        (record_at-set_next_self o new.pos rrs r a),
    (
      refl,
      small,
      new,
      record_at-fresh (set_next o new.pos rrs) new (set_next-fresh o rrs fresh),
      stop,
    ),
  )
  Chain-extend s o (p ∷ os) stop small rising (e, b, r, a, c) =
      let later : o < last_of p os =
        All-Mem (λ x. o < x) (last_of p os) (p ∷ os) rising.0 (last_of-Mem p os) in
      (
        e,
        b,
        r,
        linked-other (last_of p os) o r (λ q. omega (arith, later, q)) a,
        Chain-extend r.next p os stop small rising.1 c,
      )
