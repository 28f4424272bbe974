-- ===== src/DnsCache/Table/Threads/Entries.antt =====
-- Each call on an entry that a thread has leaves the cache of src/dns_cache.c in order.
use smartdns_ui.Prelude.{
  ℕ, ◌+◌, ◌≤◌, ◌<◌, ◌≡◌, refl, sym, ap, ◌∙◌, Bool, true, false, Option, none, some, if◌then◌else◌,
  length, if_cases, Option-cases, inl, inr, arith, ◌>>=◌, Outcome, ok, fault,
}
use mathlib.Core.Path.{subst}
use smartdns_ui.DnsCache.Entry.{Store, Answer, Action, replace, update_timer, expired_action}
use smartdns_ui.DnsCache.Entry.Life.{World, Counted, loses}
use smartdns_ui.DnsCache.Table.{
  Item, Table, set_item, list_del, is_listed, commit, on_entry, to_tail, replace_at,
  update_timer_at, dns_cache_update, dns_cache_hitnum_dec_get, take_hit, hit,
}
use smartdns_ui.DnsCache.Table.Heap.{one_if, places, length-list_del_le}
use smartdns_ui.DnsCache.Table.Kept.{IsTable, entry_of, one_at, commit-IsTable, on_entry-IsTable}
use smartdns_ui.DnsCache.Table.Calls.{
  Ends, Within, replace-Ends, update_timer-Ends, expired_action-Acts,
}
use smartdns_ui.DnsCache.Table.Moves.{to_tail-IsTable, length-to_tail, set_item-IsTable}
use smartdns_ui.DnsCache.Table.Insert.{IsTable-same}
use smartdns_ui.DnsCache.Table.Threads.{Cache, with_users, users_after, expired_at, is_pending}

-- A cache between two calls: the table is in order, and no more are listed than the cache's size.
abbrev pub IsCache : Cache → Type 0
IsCache c = IsTable 0 c.users c.table × (length c.table.cache_list ≤ c.table.size)

-- A call that is no fault, after which the cache is in order
abbrev pub Safe : Outcome Cache → Type 0
Safe o = (c : Cache) × (o ≡ ok c) × IsCache c

length-commit :
    (t : Table) (a : ℕ) (item : Item) (s : Store)
    → length (commit t a item s).cache_list ≤ length t.cache_list
length-commit t a item s =
    if_cases (λ l. length l ≤ length t.cache_list) (is_listed s) t.cache_list
      (list_del a t.cache_list) (λ e. omega arith) (λ e. length-list_del_le a t.cache_list)

-- What a function does when it finds the entry
at_some :
    {A : Type 0} (o : Option Item) (item : Item) (f : Item → Outcome A)
    → o ≡ some item
    → elim o [ none ↦ fault | some i ↦ f i ] ≡ f item
at_some o item f e = ap (λ x. elim x [ none ↦ fault | some i ↦ f i ]) e

module _ (c : Cache) (h : IsCache c) (a : ℕ) where
  abbrev pub Has : Type 0
  Has = (item : Item) × (c.table.heap a ≡ some item) × Counted (c.users a) (some item.entry)

  -- Who uses an entry has one that is not freed.
  pub used : 0 < (c.users a).holders + (c.users a).running + (c.users a).ending → Has
  used k = elim (Option-cases (c.table.heap a)) [
    | inl e ↦
        let freed = subst (λ o. Counted (c.users a) (entry_of o)) e (h.0.counted a) in
        absurd (omega (arith, k, freed.0, freed.1, freed.2))
    | inr (item, e) ↦ (item, e, subst (λ o. Counted (c.users a) (entry_of o)) e (h.0.counted a))
  ]

  -- A call on an entry, after which its users are `w`
  pub on_entry-Safe :
      (item : Item) (w : World) (f : Store → Outcome Store)
      → c.table.heap a ≡ some item
      → Ends w (Within item.entry) (f (record { entry = some item.entry; put = c.table.put }))
      → Safe (on_entry f a c.table >>= λ t. ok (with_users c a w t))
  on_entry-Safe item w f at (s, e, k, l) =
      let (ran, kept) = on_entry-IsTable 0 c.users c.table h.0 a item at w f s e k l in
      (
        with_users c a w (commit c.table a item s),
        ap (λ r. r >>= λ t. ok (with_users c a w t)) ran,
        (kept, omega (arith, length-commit c.table a item s, h.1)),
      )

  -- A call that leaves the users as they are
  kept_users :
      (item : Item) (f : Store → Outcome Store) (s : Store)
      → c.table.heap a ≡ some item
      → f (record { entry = some item.entry; put = c.table.put }) ≡ ok s
      → Counted (c.users a) s.entry
      → Within item.entry s
      → (on_entry f a c.table ≡ ok (commit c.table a item s))
        × IsTable 0 c.users (commit c.table a item s)
  kept_users item f s at e k l =
      let (ran, kept) = on_entry-IsTable 0 c.users c.table h.0 a item at (c.users a) f s e k l in
      (ran, IsTable-same 0 c.users (commit c.table a item s) a kept)

  -- The same for the table in the cache
  pub on_entry-SafeSame :
      (item : Item) (f : Store → Outcome Store)
      → c.table.heap a ≡ some item
      → Ends
          (c.users a)
          (Within item.entry)
          (f (record { entry = some item.entry; put = c.table.put }))
      → Safe (on_entry f a c.table >>= λ t. ok (record c { table = t }))
  on_entry-SafeSame item f at (s, e, k, l) =
      let (ran, kept) = kept_users item f s at e k l in
      (
        record c { table = commit c.table a item s },
        ap (λ r. r >>= λ t. ok (record c { table = t })) ran,
        (kept, omega (arith, length-commit c.table a item s, h.1)),
      )

  pub replace_at-Safe :
      (answer : Answer) (now : ℕ)
      → Has
      → Safe (replace_at answer now a c.table >>= λ r. ok (record c { table = r.1 }))
  unfolding replace_at
  replace_at-Safe answer now (item, at, k) =
      let (s, e, q, stays) = replace-Ends (c.users a) item.entry c.table.put k answer now in
      let t' : Table = commit c.table a item s in
      let (ran, kept) = kept_users item (replace answer now) s at e q (λ l. sym stays ∙ l) in
      let room : length t'.cache_list ≤ c.table.size =
        omega (arith, length-commit c.table a item s, h.1) in
      let next : Bool → Table → Bool × Table =
        λ listed t. if listed then (true, to_tail a t) else (false, t) in
      let ran' : replace_at answer now a c.table ≡ ok (next item.entry.listed t') =
        at_some (c.table.heap a) item
          (λ i. on_entry (replace answer now) a c.table >>= λ t. ok (next i.entry.listed t)) at
        ∙ ap (λ r. r >>= λ t. ok (next item.entry.listed t)) ran in
      let listed_one : item.entry.listed ≡ true → 0 < places a t'.cache_list = λ l. omega (
        arith,
        ap (λ b. places a (if b then c.table.cache_list else list_del a c.table.cache_list))
            (stays ∙ l),
        one_at 0 c.users c.table h.0 a item at,
        ap one_if l,
      ) in
      let after : Bool → Cache = λ listed. record c { table = (next listed t').1 } in
      let safe : IsCache (after item.entry.listed) =
        if_cases (λ (r : Bool × Table). IsCache (record c { table = r.1 })) item.entry.listed
          (true, to_tail a t') (false, t')
          (λ l. (
            to_tail-IsTable 0 c.users t' kept a (listed_one l),
            omega (arith, length-to_tail 0 c.users t' kept a (listed_one l), room),
          ))
          (λ l. (kept, room)) in
      (after item.entry.listed, ap (λ r. r >>= λ q. ok (record c { table = q.1 })) ran', safe)

  pub update_timer_at-Safe :
      (timeout : ℕ)
      → Has
      → Safe (update_timer_at timeout a c.table >>= λ r. ok (record c { table = r.1 }))
  unfolding update_timer_at
  update_timer_at-Safe timeout (item, at, k) =
      let (s, e, q, stays) = update_timer-Ends (c.users a) item.entry c.table.put k timeout in
      let t' : Table = commit c.table a item s in
      let (ran, kept) = kept_users item (update_timer timeout) s at e q (λ l. sym stays ∙ l) in
      let ran' : update_timer_at timeout a c.table ≡ ok (item.entry.listed, t') =
        at_some (c.table.heap a) item
          (λ i. on_entry (update_timer timeout) a c.table >>= λ t. ok (i.entry.listed, t)) at
        ∙ ap (λ r. r >>= λ t. ok (item.entry.listed, t)) ran in
      (
        record c { table = t' },
        ap (λ r. r >>= λ q. ok (record c { table = q.1 })) ran',
        (kept, omega (arith, length-commit c.table a item s, h.1)),
      )

  pub dns_cache_update-Safe :
      Has → Safe (dns_cache_update a c.table >>= λ t. ok (record c { table = t }))
  unfolding dns_cache_update
  dns_cache_update-Safe (item, at, k) =
      let t' : Table = record c.table { heap = set_item c.table.heap a (some (hit item)) } in
      let next : Item → Table = λ i.
        if i.entry.listed
        then to_tail a (record c.table { heap = set_item c.table.heap a (some (hit i)) })
        else c.table in
      let kept : IsTable 0 c.users t' =
        set_item-IsTable 0 c.users c.table h.0 a item (hit item) at (λ q. q) refl in
      let ran : dns_cache_update a c.table ≡ ok (next item) =
        at_some (c.table.heap a) item (λ i. ok (next i)) at in
      let listed_one : item.entry.listed ≡ true → 0 < places a c.table.cache_list =
        λ l. omega (arith, one_at 0 c.users c.table h.0 a item at, ap one_if l) in
      let safe : IsCache (record c { table = next item }) =
        if_cases (λ t. IsCache (record c { table = t })) item.entry.listed (to_tail a t') c.table
          (λ l. (
            to_tail-IsTable 0 c.users t' kept a (listed_one l),
            omega (arith, length-to_tail 0 c.users t' kept a (listed_one l), h.1),
          ))
          (λ l. h) in
      (record c { table = next item }, ap (λ r. r >>= λ t. ok (record c { table = t })) ran, safe)

  pub dns_cache_hitnum_dec_get-Safe :
      Has → Safe (dns_cache_hitnum_dec_get a c.table >>= λ r. ok (record c { table = r.1 }))
  unfolding dns_cache_hitnum_dec_get
  dns_cache_hitnum_dec_get-Safe (item, at, k) =
      let next : Item → ℕ × Table = λ i. (
        (take_hit i).hitnum,
        record c.table { heap = set_item c.table.heap a (some (take_hit i)) },
      ) in
      let ran : dns_cache_hitnum_dec_get a c.table ≡ ok (next item) =
        at_some (c.table.heap a) item (λ i. ok (next i)) at in
      (
        record c { table = (next item).1 },
        ap (λ r. r >>= λ q. ok (record c { table = q.1 })) ran,
        (set_item-IsTable 0 c.users c.table h.0 a item (take_hit item) at (λ q. q) refl, h.1),
      )

  pub expired_at-Safe :
      (action : Action)
      → 0 < (c.users a).running
      → Has
      → Safe (
          expired_at action a c.table >>= λ r. ok (
            with_users c a
              (users_after (c.users a) (loses (is_pending (c.table.heap a)) action) r.0)
              r.1))
  unfolding expired_at
  expired_at-Safe action n (item, at, k) =
      let (r, e, q, l) = expired_action-Acts (c.users a) item.entry c.table.put k action n in
      let lose : Bool = loses (is_pending (c.table.heap a)) action in
      let w : World = users_after (c.users a) lose r.0 in
      let q' : Counted w r.1.entry =
        subst (λ o. Counted (users_after (c.users a) (loses (is_pending o) action) r.0) r.1.entry)
          (sym at) q in
      let t' : Table = commit c.table a item r.1 in
      let ran : expired_at action a c.table ≡ ok (r.0, t') =
        at_some (c.table.heap a) item
          (λ i. expired_action action (record { entry = some i.entry; put = c.table.put }) >>= λ r.
            ok (r.0, commit c.table a i r.1))
          at
        ∙ ap (λ o. o >>= λ r. ok (r.0, commit c.table a item r.1)) e in
      (
        with_users c a w t',
        ap (λ o. o >>= λ r. ok (with_users c a (users_after (c.users a) lose r.0) r.1)) ran,
        (
          commit-IsTable 0 c.users c.table h.0 a item at w r.1 q' l,
          omega (arith, length-commit c.table a item r.1, h.1),
        ),
      )
