-- ===== src/DnsCache/Table/Heap.antt =====
-- Counting in the list of addresses and in the allocated entries of src/dns_cache.c.
use smartdns_ui.Prelude.{
  ℕ, zero, suc, ◌+◌, ◌-◌, ◌≤◌, ◌<◌, ◌≡◌, refl, ap, Bool, false, List, [], ◌∷◌, ◌++◌, Option, ◌==◌,
  if◌then◌else◌, length, if_cases, Bool-cases, inl, inr, arith, ==_iff,
}
use mathlib.Core.Path.{subst}
use smartdns_ui.DnsCache.Table.{Item, set_item, list_del}

abbrev pub one_if : Bool → ℕ
one_if b = if b then 1 else 0

-- How often an address is in a list
abbrev pub places : ℕ → List ℕ → ℕ
places a [] = 0
places a (b ∷ addresses) = one_if (b == a) + places a addresses

pub places-append :
    (a : ℕ) (front back : List ℕ) → places a front + places a back ≡ places a (front ++ back)
places-append a [] back = omega arith
places-append a (b ∷ front) back =
    omega (arith, ap (λ n. one_if (b == a) + n) (places-append a front back))

-- Taking an address off takes one of it, if there is one, and none of the others.
pub places-list_del :
    (a b : ℕ) (addresses : List ℕ)
    → (b == a) ≡ false
    → places b (list_del a addresses) ≡ places b addresses
places-list_del a b [] h = refl
places-list_del a b (x ∷ addresses) h =
    if_cases (λ l. places b l ≡ one_if (x == b) + places b addresses) (x == a) addresses
      (x ∷ list_del a addresses) (λ e. ground arith)
      (λ e. ap (λ n. one_if (x == b) + n) (places-list_del a b addresses h))

pub places-list_del_same :
    (a : ℕ) (addresses : List ℕ) → places a (list_del a addresses) ≡ places a addresses - 1
places-list_del_same a [] = refl
places-list_del_same a (x ∷ addresses) =
    if_cases (λ l. places a l ≡ one_if (x == a) + places a addresses - 1) (x == a) addresses
      (x ∷ list_del a addresses) (λ e. rw e (omega arith))
      (λ e. rw e (omega (arith, places-list_del_same a addresses)))

pub length-list_del :
    (a : ℕ) (addresses : List ℕ)
    → 0 < places a addresses
    → length (list_del a addresses) + 1 ≡ length addresses
length-list_del a [] h = absurd (omega arith)
length-list_del a (x ∷ addresses) h =
    if_cases (λ l. length l + 1 ≡ suc (length addresses)) (x == a) addresses
      (x ∷ list_del a addresses) (λ e. omega arith)
      (λ e.
        let more : 0 < one_if false + places a addresses =
          subst (λ b. 0 < one_if b + places a addresses) e h in
        omega (arith, length-list_del a addresses (omega (arith, more))))

pub length-list_del_le :
    (a : ℕ) (addresses : List ℕ) → length (list_del a addresses) ≤ length addresses
length-list_del_le a [] = omega arith
length-list_del_le a (x ∷ addresses) =
    if_cases (λ l. length l ≤ suc (length addresses)) (x == a) addresses (x ∷ list_del a addresses)
      (λ e. omega arith) (λ e. omega (arith, length-list_del_le a addresses))

-- What is not in the list stays out of it.
pub list_del_none :
    (a : ℕ) (addresses : List ℕ) → places a addresses ≡ 0 → list_del a addresses ≡ addresses
list_del_none a [] h = refl
list_del_none a (x ∷ addresses) h =
    if_cases (λ l. l ≡ x ∷ addresses) (x == a) addresses (x ∷ list_del a addresses)
      (λ e. absurd (ground arith)) (λ e. ap (λ l. x ∷ l) (list_del_none a addresses (omega arith)))

-- The sum of `f` over the addresses below `n`
abbrev pub tally : (Option Item → ℕ) → ℕ → (ℕ → Option Item) → ℕ
tally f zero heap = 0
tally f (suc n) heap = f (heap n) + tally f n heap

-- An address out of reach does not matter.
pub tally_out :
    (f : Option Item → ℕ) (n a : ℕ) (heap : ℕ → Option Item) (item : Option Item)
    → n ≤ a
    → tally f n (set_item heap a item) ≡ tally f n heap
tally_out f zero a heap item h = refl
tally_out f (suc n) a heap item h =
    let other : (n == a) ≡ false = ground arith in
    rw other (ap (λ t. f (heap n) + t) (tally_out f n a heap item (omega arith)))

pub tally-set_item :
    (f : Option Item → ℕ) (n a : ℕ) (heap : ℕ → Option Item) (item : Option Item)
    → a < n
    → tally f n (set_item heap a item) + f (heap a) ≡ tally f n heap + f item
tally-set_item f zero a heap item h = absurd (omega arith)
tally-set_item f (suc n) a heap item h = elim (Bool-cases (n == a)) [
  | inl e ↦
      let same : f (heap n) ≡ f (heap a) = ap (λ b. f (heap b)) ((==_iff n a).0 e) in
      let out = tally_out f n a heap item (ground arith) in rw e (omega (arith, same, out))
  | inr e ↦ rw e (omega (arith, tally-set_item f n a heap item (ground arith)))
]

-- Of what is at each address, `f` counts no more than `g`.
pub tally-le :
    (f g : Option Item → ℕ) (n : ℕ) (heap : ℕ → Option Item)
    → ((o : Option Item) → f o ≤ g o)
    → tally f n heap ≤ tally g n heap
tally-le f g zero heap h = omega arith
tally-le f g (suc n) heap h = omega (arith, h (heap n), tally-le f g n heap h)
