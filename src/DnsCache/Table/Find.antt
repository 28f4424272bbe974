-- ===== src/DnsCache/Table/Find.antt =====
-- What the loop of `_dns_cache_lookup` in src/dns_cache.c finds.
use smartdns_ui.Prelude.{
  ℕ, zero, suc, ◌<◌, ◌≡◌, refl, Bool, true, false, ◌&&◌, Option, none, some, ◌==◌, if◌then◌else◌,
  Bool-cases, inl, inr, arith,
}
use mathlib.Core.Path.{subst}
use smartdns_ui.DnsCache.Table.{Key, Item, matches, find_entry}

-- The tests of one entry
abbrev pub is_found : Key → ℕ → Item → Bool
is_found key bucket item = item.entry.listed && (item.bucket == bucket) && matches key item

-- What is found below `n` is an entry that passes the tests, and none above it does; if nothing is
-- found, none below `n` does.
abbrev pub Finds : (ℕ → Option Item) → Key → ℕ → ℕ → Option ℕ → Type 0
Finds heap key bucket n none =
    (a : ℕ) (item : Item) → a < n → heap a ≡ some item → is_found key bucket item ≡ false
Finds heap key bucket n (some a) =
    (a < n)
    × (item : Item) × (heap a ≡ some item)
    × (is_found key bucket item ≡ true)
    × ((b : ℕ) (later : Item)
        → a < b
        → b < n
        → heap b ≡ some later
        → is_found key bucket later ≡ false)

Finds-suc :
    (heap : ℕ → Option Item) (key : Key) (bucket n : ℕ) (o : Option ℕ)
    → ((item : Item) → heap n ≡ some item → is_found key bucket item ≡ false)
    → Finds heap key bucket n o
    → Finds heap key bucket (suc n) o
Finds-suc heap key bucket n (some a) f (l, item, e, k, last) = (
  omega (arith, l),
  item,
  e,
  k,
  λ b later more below at. elim (Bool-cases (b == n)) [
    | inl q ↦ f later (subst (λ c. heap c ≡ some later) (ground arith) at)
    | inr q ↦ last b later more (ground arith) at
  ],
)
Finds-suc heap key bucket n none f h = λ a item l e. elim (Bool-cases (a == n)) [
  | inl k ↦ f item (subst (λ b. heap b ≡ some item) (ground arith) e)
  | inr k ↦ h a item (ground arith) e
]

pub find_entry-Finds :
    (heap : ℕ → Option Item) (key : Key) (bucket n : ℕ)
    → Finds heap key bucket n (find_entry heap key bucket n)
unfolding find_entry
find_entry-Finds heap key bucket zero = λ a item l e. absurd (omega arith)
find_entry-Finds heap key bucket (suc n) = go (heap n) refl (find_entry-Finds heap key bucket n)
  where
    go :
        (o : Option Item)
        → heap n ≡ o
        → Finds heap key bucket n (find_entry heap key bucket n)
        → Finds heap key bucket (suc n) (elim o [
          | none ↦ find_entry heap key bucket n
          | some item ↦
              if item.entry.listed && (item.bucket == bucket) && matches key item
              then some n
              else find_entry heap key bucket n
        ])
    go none e h =
        Finds-suc heap key bucket n (find_entry heap key bucket n) (λ item k. absurd (cc (e, k))) h
    go (some item) e h = elim (Bool-cases (is_found key bucket item)) [
      | inl k ↦ rw k (omega arith, item, e, k, λ b later more below at. absurd (omega arith))
      | inr k ↦
          rw k (
            Finds-suc heap key bucket n (find_entry heap key bucket n) (λ item' k'. cc (e, k, k'))
              h)
    ]
