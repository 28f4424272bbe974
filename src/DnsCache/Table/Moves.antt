-- ===== src/DnsCache/Table/Moves.antt =====
-- What keeps the cache of src/dns_cache.c in order but removes and adds no entry.
use smartdns_ui.Prelude.{
  ℕ, ◌+◌, ◌<◌, ◌≡◌, sym, ap, ◌∙◌, false, [], ◌∷◌, ◌++◌, Option, some, ◌==◌, length, length-append,
  Bool-cases, inl, inr, arith, ==_iff,
}
use mathlib.Core.Path.{subst}
use smartdns_ui.DnsCache.Entry.Life.{Counted}
use smartdns_ui.DnsCache.Table.{Item, Table, set_item, list_del, to_tail}
use smartdns_ui.DnsCache.Table.Heap.{
  one_if, places, places-append, places-list_del, places-list_del_same, length-list_del,
  tally-set_item,
}
use smartdns_ui.DnsCache.Table.Kept.{Users, IsTable, entry_of, stands, lives, below}

module _ (more : ℕ) (u : Users) (t : Table) (h : IsTable more u t) where
  -- The counters of the lookups do not matter.
  pub IsTable-stats : (n m : ℕ) → IsTable more u (record t { check_count = n; hit_count = m })
  IsTable-stats n m = record {
    fresh = h.fresh;
    counted = h.counted;
    listing = h.listing;
    all_listed = h.all_listed;
    number = h.number;
  }

  module _ (a : ℕ) where
    places-to_tail :
        (b : ℕ)
        → 0 < places a t.cache_list
        → places b (list_del a t.cache_list ++ a ∷ []) ≡ places b t.cache_list
    places-to_tail b k =
        sym (places-append b (list_del a t.cache_list) (a ∷ [])) ∙ elim (Bool-cases (b == a)) [
          | inl e ↦
              let same : b ≡ a = (==_iff b a).0 e in
              subst
                (λ c.
                  places c (list_del a t.cache_list) + (one_if (a == c) + 0)
                  ≡ places c t.cache_list)
                (sym same) (at_tail (one_same a))
          | inr e ↦ omega (arith, places-list_del a b t.cache_list e, none_there b e)
        ]
      where
        one_same : (c : ℕ) → one_if (c == c) ≡ 1
        one_same c = ground arith

        none_there : (c : ℕ) → (c == a) ≡ false → one_if (a == c) ≡ 0
        none_there c e = ground arith

        at_tail :
            one_if (a == a) ≡ 1
            → places a (list_del a t.cache_list) + (one_if (a == a) + 0) ≡ places a t.cache_list
        at_tail o = omega (arith, o, k, places-list_del_same a t.cache_list)

    pub length-to_tail :
        0 < places a t.cache_list → length (to_tail a t).cache_list ≡ length t.cache_list
    length-to_tail k =
        omega (
          arith,
          length-append (list_del a t.cache_list) (a ∷ []),
          length-list_del a t.cache_list k,
        )

    pub to_tail-IsTable : 0 < places a t.cache_list → IsTable more u (to_tail a t)
    to_tail-IsTable k = record {
      fresh = h.fresh;
      counted = h.counted;
      listing = λ b. places-to_tail b k ∙ h.listing b;
      all_listed = length-to_tail k ∙ h.all_listed;
      number = h.number;
    }

    -- Another record at the address, with the same count, place and timer
    pub set_item-IsTable :
        (item item' : Item)
        → t.heap a ≡ some item
        → (Counted (u a) (some item.entry) → Counted (u a) (some item'.entry))
        → item'.entry.listed ≡ item.entry.listed
        → IsTable more u (record t { heap = set_item t.heap a (some item') })
    set_item-IsTable item item' at f l =
        let new : Option Item = some item' in
        let low : a < t.next = below more u t h a item at in
        let stood = tally-set_item stands t.next a t.heap new low in
        let lived = tally-set_item lives t.next a t.heap new low in
        let same : one_if item'.entry.listed ≡ one_if item.entry.listed = ap one_if l in
        record {
          fresh =
              λ b k. let other : (b == a) ≡ false = ground (arith, low) in rw other (h.fresh b k);
          counted = λ b. elim (Bool-cases (b == a)) [
            | inl e ↦ rw e (
                subst (λ c. Counted (u c) (some item'.entry)) (sym ((==_iff b a).0 e))
                  (f (subst (λ o. Counted (u a) (entry_of o)) at (h.counted a))))
            | inr e ↦ rw e (h.counted b)
          ];
          listing = λ b. elim (Bool-cases (b == a)) [
            | inl e ↦ rw e (
                h.listing b
                ∙ ap (λ c. stands (t.heap c)) ((==_iff b a).0 e)
                ∙ ap stands at
                ∙ sym same)
            | inr e ↦ rw e (h.listing b)
          ];
          all_listed = omega (arith, stood, h.all_listed, same, ap stands at);
          number = omega (arith, lived, h.number, ap lives at);
        }
