-- ===== src/DnsCache/Table/Kept.antt =====
-- What the calls on an entry keep true of the whole cache in src/dns_cache.c.
use smartdns_ui.Prelude.{
  ℕ, ◌+◌, ◌-◌, ◌≤◌, ◌<◌, ◌≡◌, refl, sym, ap, ◌∙◌, Bool, true, false, List, Option, none, some, ◌==◌,
  leb, leb→le, if◌then◌else◌, length, Bool-cases, inl, inr, arith, ==_iff, ◌>>=◌, Outcome, ok,
  fault,
}
use mathlib.Core.Bool.{true≢false}
use mathlib.Core.Path.{subst}
use smartdns_ui.DnsCache.Entry.{Entry, Store}
use smartdns_ui.DnsCache.Entry.Life.{World, Counted}
use smartdns_ui.DnsCache.Table.{Item, Table, list_del, is_listed, commit, on_entry}
use smartdns_ui.DnsCache.Table.Heap.{
  one_if, places, places-list_del, places-list_del_same, length-list_del, list_del_none, tally,
  tally-set_item, tally-le,
}

-- Who uses the entry at each address; the stores of these worlds mean nothing.
abbrev pub Users : Type 0
Users = ℕ → World

abbrev pub set_users : Users → ℕ → World → Users
set_users u a w b = if b == a then w else u b

abbrev pub entry_of : Option Item → Option Entry
entry_of o = elim o [ none ↦ none | some item ↦ some item.entry ]

abbrev pub lives : Option Item → ℕ
lives o = elim o [ none ↦ 0 | some item ↦ 1 ]

abbrev pub stands : Option Item → ℕ
stands o = elim o [ none ↦ 0 | some item ↦ one_if item.entry.listed ]

-- Every reference count is right, the list has each entry that is listed once and no other, and
-- `num` is the number of the entries that are not freed, and `more`.
pub record IsTable (more : ℕ) (u : Users) (t : Table) : Type 0 where
  pub fresh : (a : ℕ) → t.next ≤ a → t.heap a ≡ none
  pub counted : (a : ℕ) → Counted (u a) (entry_of (t.heap a))
  pub listing : (a : ℕ) → places a t.cache_list ≡ stands (t.heap a)
  pub all_listed : length t.cache_list ≡ tally stands t.next t.heap
  pub number : t.num ≡ more + tally lives t.next t.heap

pub stands-lives : (o : Option Item) → stands o ≤ lives o
stands-lives none = omega arith
stands-lives (some item) = ground arith

-- No more are listed than are counted.
pub length-num :
    (more : ℕ) (u : Users) (t : Table) → IsTable more u t → length t.cache_list + more ≤ t.num
length-num more u t h =
    omega (arith, h.all_listed, h.number, tally-le stands lives t.next t.heap stands-lives)

-- What is at the address after the call
abbrev pub item_after : Item → Store → Option Item
item_after item s = elim s.entry [ none ↦ none | some e ↦ some (record item { entry = e }) ]

stands-item_after : (item : Item) (s : Store) → stands (item_after item s) ≡ one_if (is_listed s)
stands-item_after item s = go s.entry
  where
    go :
        (o : Option Entry)
        → stands (elim o [ none ↦ none | some e ↦ some (record item { entry = e }) ])
          ≡ one_if (elim o [ none ↦ false | some e ↦ e.listed ])
    go none = refl
    go (some e) = refl

entry_of-item_after : (item : Item) (s : Store) → entry_of (item_after item s) ≡ s.entry
entry_of-item_after item s = go s.entry
  where
    go :
        (o : Option Entry)
        → entry_of (elim o [ none ↦ none | some e ↦ some (record item { entry = e }) ]) ≡ o
    go none = refl
    go (some e) = refl

lives-item_after :
    (item : Item) (s : Store) (n : ℕ)
    → 0 < n
    → elim s.entry [ none ↦ n - 1 | some e ↦ n ] + 1 ≡ n + lives (item_after item s)
lives-item_after item s n h = go s.entry
  where
    go :
        (o : Option Entry)
        → elim o [ none ↦ n - 1 | some e ↦ n ] + 1
          ≡ n + lives (elim o [ none ↦ none | some e ↦ some (record item { entry = e }) ])
    go none = omega (arith, h)
    go (some e) = refl

-- The list after a call: what it counts, and its length.
abbrev list_after : Bool → ℕ → List ℕ → List ℕ
list_after listed a addresses = if listed then addresses else list_del a addresses

places-list_after :
    (listed was : Bool) (a : ℕ) (addresses : List ℕ)
    → (listed ≡ true → was ≡ true)
    → places a addresses ≡ one_if was
    → (places a (list_after listed a addresses) ≡ one_if listed)
      × (length (list_after listed a addresses) + one_if was ≡ length addresses + one_if listed)
places-list_after true false a addresses h c = absurd (true≢false (sym (h refl)))
places-list_after true true a addresses h c = (c, refl)
places-list_after false true a addresses h c = (
  omega (arith, places-list_del_same a addresses, c),
  omega (arith, length-list_del a addresses (omega (arith, c))),
)
places-list_after false false a addresses h c = rw (list_del_none a addresses c) (c, refl)

places-list_after_other :
    (listed : Bool) (a b : ℕ) (addresses : List ℕ)
    → (b == a) ≡ false
    → places b (list_after listed a addresses) ≡ places b addresses
places-list_after_other true a b addresses h = refl
places-list_after_other false a b addresses h = places-list_del a b addresses h

-- The entry at `a` is `item`, whose users are `w` after the call.
module _ (more : ℕ) (u : Users) (t : Table) (h : IsTable more u t) (a : ℕ) (item : Item)
    (at : t.heap a ≡ some item) where
  pub below : a < t.next
  below = elim (Bool-cases (leb t.next a)) [
    | inl e ↦ absurd (cc (h.fresh a (leb→le t.next a e), at))
    | inr e ↦ ground arith
  ]

  pub one_at : places a t.cache_list ≡ one_if item.entry.listed
  one_at = h.listing a ∙ ap stands at

  pub commit-IsTable :
      (w : World) (s : Store)
      → Counted w s.entry
      → (is_listed s ≡ true → item.entry.listed ≡ true)
      → IsTable more (set_users u a w) (commit t a item s)
  commit-IsTable w s c l =
      let after = item_after item s in
      let list = places-list_after (is_listed s) item.entry.listed a t.cache_list l one_at in
      let stood = tally-set_item stands t.next a t.heap after below in
      let lived = tally-set_item lives t.next a t.heap after below in
      let counted_live : 0 < t.num =
        omega (arith, h.number, tally-set_item lives t.next a t.heap none below, ap lives at) in
      record {
        fresh =
            λ b k. let other : (b == a) ≡ false = ground (arith, below) in rw other (h.fresh b k);
        counted = λ b. elim (Bool-cases (b == a)) [
          | inl e ↦ rw e (subst (λ o. Counted w o) (sym (entry_of-item_after item s)) c)
          | inr e ↦ rw e (h.counted b)
        ];
        listing = λ b. elim (Bool-cases (b == a)) [
          | inl e ↦
              let same : b ≡ a = (==_iff b a).0 e in
              rw e (
                ap (λ k. places k (list_after (is_listed s) a t.cache_list)) same
                ∙ list.0
                ∙ sym (stands-item_after item s))
          | inr e ↦ rw e (places-list_after_other (is_listed s) a b t.cache_list e ∙ h.listing b)
        ];
        all_listed =
            omega (arith, list.1, stood, h.all_listed, stands-item_after item s, ap stands at);
        number =
            omega (arith, lived, h.number, lives-item_after item s t.num counted_live, ap lives at);
      }

  -- A call on an entry keeps the cache in order.
  pub on_entry-IsTable :
      (w : World) (f : Store → Outcome Store) (s : Store)
      → f (record { entry = some item.entry; put = t.put }) ≡ ok s
      → Counted w s.entry
      → (is_listed s ≡ true → item.entry.listed ≡ true)
      → (on_entry f a t ≡ ok (commit t a item s))
        × IsTable more (set_users u a w) (commit t a item s)
  unfolding on_entry
  on_entry-IsTable w f s e c l =
      let run : Option Item → Outcome Table = λ o. elim o [
        | none ↦ fault
        | some i ↦ f (record { entry = some i.entry; put = t.put }) >>= λ s'. ok (commit t a i s')
      ] in
      let ran : on_entry f a t ≡ ok (commit t a item s) =
        ap run at ∙ ap (λ r. r >>= λ s'. ok (commit t a item s')) e in
      (ran, commit-IsTable w s c l)
