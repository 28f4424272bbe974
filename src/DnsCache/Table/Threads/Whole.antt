-- ===== src/DnsCache/Table/Threads/Whole.antt =====
-- The lookup and the flush of src/dns_cache.c on the whole cache.
use smartdns_ui.Prelude.{
  ℕ, ◌+◌, ◌<◌, ◌≡◌, refl, sym, ap, ◌∙◌, Bool, true, false, ◌&&◌, List, [], ◌∷◌, Option, none, some,
  ◌==◌, ltb, if◌then◌else◌, Bool-cases, inl, inr, arith, ◌>>=◌, Outcome, ok, is_positive,
}
use mathlib.Core.Path.{subst}
use smartdns_ui.DnsCache.Entry.{dns_cache_get}
use smartdns_ui.DnsCache.Entry.Life.{World, Counted}
use smartdns_ui.DnsCache.Table.{
  Key, Item, Table, list_del, commit, on_entry, find_entry, lookup, dns_cache_lookup, remove_all,
  dns_cache_flush,
}
use smartdns_ui.DnsCache.Table.Heap.{places}
use smartdns_ui.DnsCache.Table.Kept.{Users, set_users, IsTable, entry_of, on_entry-IsTable}
use smartdns_ui.DnsCache.Table.Calls.{get-Ends}
use smartdns_ui.DnsCache.Table.Find.{is_found, Finds, find_entry-Finds}
use smartdns_ui.DnsCache.Table.Moves.{IsTable-stats}
use smartdns_ui.DnsCache.Table.Insert.{on_entry-remove, list_del_head, listed_item, count_head}

abbrev pub one_more : World → World
one_more w = record w { holders = w.holders + 1 }

-- What a lookup finds, the caller being one more user of it, in a table whose list is as before
abbrev pub Found : Key → ℕ → Users → Table → Option ℕ × Table → Type 0
Found key bucket u t (none, t') =
    IsTable 0 u t'
    × (t'.cache_list ≡ t.cache_list)
    × (t'.size ≡ t.size)
    × ((a : ℕ) (item : Item) → t.heap a ≡ some item → is_found key bucket item ≡ false)
Found key bucket u t (some a, t') =
    IsTable 0 (set_users u a (one_more (u a))) t'
    × (t'.cache_list ≡ t.cache_list)
    × (t'.size ≡ t.size)
    × (item : Item) × (t.heap a ≡ some item)
    × (is_found key bucket item ≡ true)
    × ((b : ℕ) (later : Item) → a < b → t.heap b ≡ some later → is_found key bucket later ≡ false)

and_left : (a b : Bool) → (a && b) ≡ true → a ≡ true
and_left true b e = refl
and_left false b e = e

listed_of :
    (key : Key) (bucket : ℕ) (item : Item)
    → is_found key bucket item ≡ true
    → item.entry.listed ≡ true
listed_of key bucket item e =
    and_left item.entry.listed (item.bucket == bucket)
      (and_left (item.entry.listed && (item.bucket == bucket)) _ e)

-- A lookup that is over, with the first entry of the bucket's chain that fits
abbrev pub Looks : Key → ℕ → Users → Table → Outcome (Option ℕ × Table) → Type 0
Looks key bucket u t o =
    (r : Option ℕ × Table) × (o ≡ ok r)
    × (r.0 ≡ find_entry t.heap key bucket t.next)
    × Found key bucket u t r

lookup-Looks :
    (bucket_of : Key → ℕ) (key : Key) (u : Users) (t : Table)
    → IsTable 0 u t
    → Looks key (bucket_of key) u t (lookup bucket_of key t)
unfolding lookup
lookup-Looks bucket_of key u t h =
    go (find_entry t.heap key (bucket_of key) t.next) refl
      (find_entry-Finds t.heap key (bucket_of key) t.next)
  where
    go :
        (o : Option ℕ)
        → o ≡ find_entry t.heap key (bucket_of key) t.next
        → Finds t.heap key (bucket_of key) t.next o
        → Looks key (bucket_of key) u t (elim o [
          | none ↦ ok (none, t)
          | some a ↦ on_entry dns_cache_get a t >>= λ t'. ok (some a, t')
        ])
    go none q f = (
      (none, t),
      refl,
      q,
      (
        h,
        refl,
        refl,
        λ a item e. elim (Bool-cases (ltb a t.next)) [
          | inl l ↦ f a item (ground (arith, l)) e
          | inr l ↦ absurd (cc (h.fresh a (ground (arith, l)), e))
        ],
      ),
    )
    go (some a) q (l, item, at, found, last) =
        let counted : Counted (u a) (some item.entry) =
          subst (λ o. Counted (u a) (entry_of o)) at (h.counted a) in
        let (s, e, k, stays) = get-Ends (u a) item.entry t.put counted in
        let (ran, kept) =
          on_entry-IsTable 0 u t h a item at (one_more (u a)) dns_cache_get s e k
            (λ m. sym stays ∙ m) in
        let list : (commit t a item s).cache_list ≡ t.cache_list =
          ap (λ b. if b then t.cache_list else list_del a t.cache_list)
            (stays ∙ listed_of key (bucket_of key) item found) in
        (
          (some a, commit t a item s),
          ap (λ r. r >>= λ t'. ok (some a, t')) ran,
          q,
          (
            kept,
            list,
            refl,
            item,
            at,
            found,
            λ b later more e. elim (Bool-cases (ltb b t.next)) [
              | inl m ↦ last b later more (ground (arith, m)) e
              | inr m ↦ absurd (cc (h.fresh b (ground (arith, m)), e))
            ],
          ),
        )

-- In a cache that is in order and whose size is positive: a lookup returns. What it finds is the
-- newest entry that is listed, in the bucket of the key, and passes all comparisons, and the caller
-- is one more user of it; if it finds nothing, no entry is such. The list is as before.
pub dns_cache_lookup-Found :
    (bucket_of : Key → ℕ) (key : Key) (u : Users) (t : Table)
    → IsTable 0 u t
    → is_positive t.size ≡ true
    → Looks key (bucket_of key) u t (dns_cache_lookup bucket_of key t)
unfolding dns_cache_lookup
dns_cache_lookup-Found bucket_of key u t h p =
    let t₀ : Table = record t { check_count = t.check_count + 1 } in
    let (r, ran, first, found) =
      lookup-Looks bucket_of key u t₀ (IsTable-stats 0 u t h (t.check_count + 1) t.hit_count) in
    rw (p, ran) (go r first found)
  where
    go :
        (r : Option ℕ × Table)
        → r.0 ≡ find_entry t.heap key (bucket_of key) t.next
        → Found key (bucket_of key) u t r
        → Looks key (bucket_of key) u t (elim r.0 [
          | none ↦ ok r
          | some a ↦ ok (some a, record r.1 { hit_count = r.1.hit_count + 1 })
        ])
    go (none, t') q f = ((none, t'), refl, q, f)
    go (some a, t') q (h', list, size, item, at, e, last) = (
      (some a, record t' { hit_count = t'.hit_count + 1 }),
      refl,
      q,
      (
        IsTable-stats 0 (set_users u a (one_more (u a))) t' h' t'.check_count (t'.hit_count + 1),
        list,
        size,
        item,
        at,
        e,
        last,
      ),
    )

-- A flush that is over
abbrev pub Flushes : Users → Table → Outcome Table → Type 0
Flushes u t o =
    (t' : Table) × (o ≡ ok t') × IsTable 0 u t' × (t'.cache_list ≡ []) × (t'.size ≡ t.size)

remove_all-Flushes :
    (addresses : List ℕ) (u : Users) (t : Table)
    → IsTable 0 u t
    → t.cache_list ≡ addresses
    → Flushes u t (remove_all addresses t)
unfolding remove_all
remove_all-Flushes [] u t h e = (t, refl, h, e, refl)
remove_all-Flushes (a ∷ addresses) u t h e =
    let in_list : 0 < places a t.cache_list =
      subst (λ l. 0 < places a l) (sym e) (count_head a addresses) in
    let (item, at) = listed_item 0 u t a h in_list in
    let (t₁, ran, h₁, list₁, next₁, size₁, num₁, num₁') = on_entry-remove 0 u t a item h at in
    let left : t₁.cache_list ≡ addresses = list₁ ∙ ap (list_del a) e ∙ list_del_head a addresses in
    let (t', ran', h', empty, size') = remove_all-Flushes addresses u t₁ h₁ left in
    (t', ap (λ r. r >>= λ x. remove_all addresses x) ran ∙ ran', h', empty, size' ∙ size₁)

-- A flush of a cache that is in order returns, and leaves the list empty and the counts right.
pub dns_cache_flush-Flushes :
    (u : Users) (t : Table) → IsTable 0 u t → Flushes u t (dns_cache_flush t)
unfolding dns_cache_flush
dns_cache_flush-Flushes u t h = remove_all-Flushes t.cache_list u t h refl
