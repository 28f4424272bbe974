-- ===== src/DnsCache/Table/Threads/Answers.antt =====
-- The insertion and the lookup of src/dns_cache.c one after the other.
use smartdns_ui.Prelude.{
  ℕ, ◌≤◌, ◌<◌, ◌≡◌, ap, ◌∙◌, Bool, true, Option, some, length, Outcome, ok, is_positive,
}
use smartdns_ui.DnsCache.Entry.{Answer}
use smartdns_ui.DnsCache.Table.{
  Key, Item, Table, find_entry, dns_cache_lookup, dns_cache_insert, dns_group_name_len, new_info,
  new_item,
}
use smartdns_ui.Dns.Encode.{dns_max_cname_len}
use smartdns_ui.DnsCache.Table.Kept.{Users, IsTable}
use smartdns_ui.DnsCache.Table.Insert.Oldest.{new_entry}
use smartdns_ui.DnsCache.Table.Insert.Looked.{stored_whole, find_entry-newest}
use smartdns_ui.DnsCache.Table.Threads.Whole.{dns_cache_lookup-Found}
use smartdns_ui.DnsCache.Table.Threads.Safe.{dns_cache_insert-Inserts}

-- An insertion with a lookup of its key behind it, which finds the new entry at `a`
abbrev pub Answered : ℕ → Item → (Table → Outcome (Option ℕ × Table)) → Outcome Table → Type 0
Answered a item look o =
    (t : Table) × (o ≡ ok t) × (t.heap a ≡ some item) × (t' : Table) × (look t ≡ ok (some a, t'))

Answered-found :
    (a : ℕ) (r : Option ℕ × Table) (o : Outcome (Option ℕ × Table))
    → o ≡ ok r
    → r.0 ≡ some a
    → (t' : Table) × (o ≡ ok (some a, t'))
Answered-found a (o, t) m e f = (t, e ∙ ap (λ x. ok (x, t)) f)

-- In a cache that is in order, with a positive size and no more than that listed, and for a key
-- whose strings fit the entry: what `dns_cache_insert` puts in is what `dns_cache_lookup` finds,
-- with the answer, its data and its timeout.
pub dns_cache_lookup-dns_cache_insert :
    (bucket_of : Key → ℕ) (key : Key) (answer : Answer) (cache_data now : ℕ) (mem : ℕ → Bool)
    (u : Users) (t : Table)
    → IsTable 0 u t
    → is_positive t.size ≡ true
    → length t.cache_list ≤ t.size
    → length key.domain < dns_max_cname_len
    → length key.dns_group_name < dns_group_name_len
    → Answered t.next
        (new_item key
          (bucket_of key)
          (new_entry (new_info key answer now) cache_data answer.timeout))
        (dns_cache_lookup bucket_of key)
        (dns_cache_insert bucket_of key answer cache_data now mem t)
dns_cache_lookup-dns_cache_insert bucket_of key answer cache_data now mem u t h p room d g =
    let (t', ran, h', next, size, most, k, list, needed, new, few, t₁, t₂, same, run, last) =
      dns_cache_insert-Inserts bucket_of key answer cache_data now mem u t h p room in
    let item : Key → Item = λ key'.
      new_item key' (bucket_of key')
        (new_entry (new_info key answer now) cache_data answer.timeout) in
    let new' : t'.heap t.next ≡ some (item key) =
      new ∙ ap (λ key'. some (item key')) (stored_whole key d g) in
    let (r, looked, first, found) =
      dns_cache_lookup-Found bucket_of key u t' h' (ap is_positive size ∙ p) in
    let newest : r.0 ≡ some t.next =
      first
      ∙ ap (λ n. find_entry t'.heap key (bucket_of key) n) next
      ∙ find_entry-newest t'.heap key (bucket_of key) t.next answer cache_data now new' in
    let (t₂, got) = Answered-found t.next r (dns_cache_lookup bucket_of key t') looked newest in
    (t', ran, new', t₂, got)
