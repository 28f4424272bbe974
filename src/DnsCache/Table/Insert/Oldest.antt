-- ===== src/DnsCache/Table/Insert/Oldest.antt =====
-- `_dns_cache_insert` of src/dns_cache.c: the old entry goes, the oldest ones make room, and the new
-- one comes last.

use smartdns_ui.Prelude.{
  ◌>>=◌, ℕ, suc, ◌+◌, ◌≤◌, ◌<◌, ◌≡◌, refl, sym, ap, ◌∙◌, Bool, true, false, List, [], ◌∷◌, ◌++◌,
  Option, none, some, ◌==◌, length, length-append, length-drop, drop, if_cases, Bool-cases, ◌⊎◌,
  inl, inr, arith, ==_iff, Outcome, ok,
}
use mathlib.Core.Path.{subst}
use smartdns_ui.DnsCache.Entry.{Info, Entry, insert, remove}
use smartdns_ui.DnsCache.Entry.Life.{Counted}
use smartdns_ui.DnsCache.Table.{
  add_item, Key, Item, Table, set_item, list_del, on_entry, find_entry, remove_by_domain,
  insert_item, new_item,
}
use smartdns_ui.DnsCache.Table.Heap.{one_if, places-append, length-list_del_le, tally-set_item}
use smartdns_ui.DnsCache.Table.Kept.{Users, IsTable, entry_of, stands, lives, length-num}
use smartdns_ui.DnsCache.Table.Find.{Finds, find_entry-Finds}
use smartdns_ui.DnsCache.Table.Insert.{release_extra-Evicts, Evictions, on_entry-remove}

-- The list without the entry of the key
abbrev pub kept : (Key → ℕ) → Key → Table → List ℕ
kept bucket_of key t = elim (find_entry t.heap key (bucket_of key) t.next) [
  | none ↦ t.cache_list
  | some a ↦ list_del a t.cache_list
]

pub length-kept :
    (bucket_of : Key → ℕ) (key : Key) (t : Table)
    → length (kept bucket_of key t) ≤ length t.cache_list
length-kept bucket_of key t = go (find_entry t.heap key (bucket_of key) t.next)
  where
    go :
        (o : Option ℕ)
        → length (elim o [ none ↦ t.cache_list | some a ↦ list_del a t.cache_list ])
          ≤ length t.cache_list
    go none = omega arith
    go (some a) = length-list_del_le a t.cache_list

-- The removal that `_dns_cache_insert` starts with
abbrev pub Cleared : Users → Table → List ℕ → Outcome Table → Type 0
Cleared u t list o =
    (t' : Table) × (o ≡ ok t')
    × IsTable 0 u t'
    × (t'.cache_list ≡ list)
    × (t'.next ≡ t.next)
    × (t'.size ≡ t.size)
    × (t'.num ≤ t.num)
    × (t.num ≤ t'.num + 1)

pub remove_by_domain-Cleared :
    (bucket_of : Key → ℕ) (key : Key) (u : Users) (t : Table)
    → IsTable 0 u t
    → Cleared u t (kept bucket_of key t) (remove_by_domain bucket_of key t)
unfolding remove_by_domain
remove_by_domain-Cleared bucket_of key u t h =
    go (find_entry t.heap key (bucket_of key) t.next)
      (find_entry-Finds t.heap key (bucket_of key) t.next)
  where
    go :
        (o : Option ℕ)
        → Finds t.heap key (bucket_of key) t.next o
        → Cleared u t
            (elim o [ none ↦ t.cache_list | some a ↦ list_del a t.cache_list ])
            (elim o [ none ↦ ok t | some a ↦ on_entry remove a t ])
    go none f = (t, refl, h, refl, refl, refl, omega arith, omega arith)
    go (some a) (l, item, at, k, last) = on_entry-remove 0 u t a item h at

-- A new entry, which its place and its timer refer to, at the next address and at the end
module _ (u : Users) (t : Table) (h : IsTable 1 u t) (item : Item) where
  abbrev added : Table
  added = record t {
    heap = set_item t.heap t.next (some item);
    next = suc t.next;
    cache_list = t.cache_list ++ t.next ∷ [];
  }

  added-IsTable :
      item.entry.ref ≡ 2 → item.entry.listed ≡ true → item.entry.pending ≡ true → IsTable 0 u added
  added-IsTable ref listed pending =
      let new : Option Item = some item in
      let stood = tally-set_item stands (suc t.next) t.next t.heap new (omega arith) in
      let lived = tally-set_item lives (suc t.next) t.next t.heap new (omega arith) in
      record {
        fresh = λ b k.
            let other : (b == t.next) ≡ false = ground arith in
            rw other (h.fresh b (omega (arith, k)));
        counted = λ b. elim (Bool-cases (b == t.next)) [
          | inl e ↦
              rw e
                (subst (λ a. Counted (u a) (some item.entry)) (sym ((==_iff b t.next).0 e)) due_two)
          | inr e ↦ rw e (h.counted b)
        ];
        listing = λ b.
            sym (places-append b t.cache_list (t.next ∷ [])) ∙ elim (Bool-cases (b == t.next)) [
              | inl e ↦
                  rw e (omega (arith, h.listing b, ap stands (here b e), one_there b e, stands_new))
              | inr e ↦ rw e (omega (arith, h.listing b, none_there b e))
            ];
        all_listed = omega (
          arith,
          length-append t.cache_list (t.next ∷ []),
          stood,
          h.all_listed,
          stands_new,
          ap stands empty,
        );
        number = omega (arith, lived, h.number, ap lives empty);
      }
    where
      empty : t.heap t.next ≡ none
      empty = h.fresh t.next (omega arith)

      stands_new : stands (some item) ≡ 1
      stands_new = ap one_if listed

      here : (b : ℕ) → (b == t.next) ≡ true → t.heap b ≡ none
      here b e = ap t.heap ((==_iff b t.next).0 e) ∙ empty

      one_there : (b : ℕ) → (b == t.next) ≡ true → one_if (t.next == b) ≡ 1
      one_there b e = ground arith

      none_there : (b : ℕ) → (b == t.next) ≡ false → one_if (t.next == b) ≡ 0
      none_there b e = ground arith

      due_two : Counted (u t.next) (some item.entry)
      due_two =
          let no_users = subst (λ o. Counted (u t.next) (entry_of o)) empty (h.counted t.next) in
          rw (ref, listed, pending)
            (omega (arith, no_users.0, no_users.1, no_users.2, no_users.3), omega arith)

-- A list from which `k` are dropped has room for one more.
room_left :
    (size num k n : ℕ) (list : List ℕ)
    → 0 < n
    → 0 < size
    → length list ≤ size
    → length list + 1 ≤ num
    → (0 < k) ⊎ ((num ≤ size) ⊎ ((list ≡ []) ⊎ (n ≡ 0)))
    → length (drop k list) + 1 ≤ size
room_left size num k n list q p l m (inl h) = omega (arith, length-drop k list)
room_left size num k n list q p l m (inr (inl h)) = omega (arith, length-drop k list)
room_left size num k n list q p l m (inr (inr (inl h))) =
    omega (arith, length-drop k list, ap length h)
room_left size num k n list q p l m (inr (inr (inr h))) = absurd (omega (arith, h))

set_item_here :
    (heap : ℕ → Option Item) (a : ℕ) (item : Item) → set_item heap a (some item) a ≡ some item
set_item_here heap a item =
    if_cases (λ o. o ≡ some item) (a == a) (some item) (heap a) (λ e. refl)
      (λ e. absurd (ground arith))

-- The entry as `_dns_cache_insert` leaves it
abbrev pub new_entry : Info → ℕ → ℕ → Entry
new_entry info cache_data timeout = record {
  ref = 2;
  listed = true;
  pending = true;
  expires = timeout;
  info = info;
  cache_data = cache_data;
}

-- What `_dns_cache_insert` does to the list behind the removal of the old entry, which is `cleared`:
-- `k` of the oldest entries make room, none if there is room for one more and no memory is short,
-- each when the table has too many, and so no more than leave the cache full. The new entry is
-- `item`.
abbrev pub Inserts :
    Users → List ℕ → (ℕ → Bool) → Item → Table → Outcome Table → Outcome Table → Type 0
Inserts u list mem item t cleared o =
    (t' : Table) × (o ≡ ok t')
    × IsTable 0 u t'
    × (t'.next ≡ suc t.next)
    × (t'.size ≡ t.size)
    × (length t'.cache_list ≤ t.size)
    × (k : ℕ) × (t'.cache_list ≡ drop k list ++ t.next ∷ [])
    × (((i : ℕ) → mem i ≡ false) → t.num < t.size → k ≡ 0)
    × (t'.heap t.next ≡ some item)
    × (((i : ℕ) → mem i ≡ false) → 0 < k → t.size ≤ t'.num)
    × (t₁ : Table) × (t₂ : Table) × (cleared ≡ ok t₁)
    × Evictions mem 33 (record t₁ { num = t₁.num + 1 }) k t₂
    × (t'.cache_list ≡ t₂.cache_list ++ t.next ∷ [])

pub add_item-Inserts :
    (bucket_of : Key → ℕ) (key : Key) (info : Info) (cache_data timeout : ℕ) (mem : ℕ → Bool)
    (u : Users) (t : Table)
    → IsTable 0 u t
    → 0 < t.size
    → length t.cache_list ≤ t.size
    → Inserts u t.cache_list mem
        (new_item key (bucket_of key) (new_entry info cache_data timeout))
        t
        (ok t)
        (add_item bucket_of key info cache_data timeout mem t)
unfolding add_item insert
add_item-Inserts bucket_of key info cache_data timeout mem u t h pos room =
    let counting : Table = record t { num = t.num + 1 } in
    let h₁ : IsTable 1 u counting = record {
      fresh = h.fresh;
      counted = h.counted;
      listing = h.listing;
      all_listed = h.all_listed;
      number = omega (arith, h.number);
    } in
    let (t₂, ran, h₂, next₂, size₂, k, most, list₂, needed, few, run, why) =
      release_extra-Evicts u 33 mem counting h₁ in
    let item : Item = new_item key (bucket_of key) (new_entry info cache_data timeout) in
    let fits =
      room_left t.size counting.num k 33 t.cache_list (omega arith) pos room
        (length-num 1 u counting h₁) why in
    (
      added u t₂ h₂ item,
      rw ran refl,
      added-IsTable u t₂ h₂ item refl refl refl,
      ap suc next₂,
      size₂,
      omega (arith, length-append t₂.cache_list (t₂.next ∷ []), ap length list₂, fits),
      k,
      ap (λ l. l ++ t₂.next ∷ []) list₂ ∙ ap (λ n. drop k t.cache_list ++ n ∷ []) next₂,
      λ m l. needed m (omega (arith, l)),
      ap (set_item t₂.heap t₂.next (some item)) (sym next₂) ∙ set_item_here t₂.heap t₂.next item,
      few,
      t,
      t₂,
      refl,
      run,
      ap (λ n. t₂.cache_list ++ n ∷ []) next₂,
    )

pub insert_item-Inserts :
    (bucket_of : Key → ℕ) (key : Key) (info : Info) (cache_data timeout : ℕ) (mem : ℕ → Bool)
    (u : Users) (t : Table)
    → IsTable 0 u t
    → 0 < t.size
    → length t.cache_list ≤ t.size
    → Inserts u
        (kept bucket_of key t)
        mem
        (new_item key (bucket_of key) (new_entry info cache_data timeout))
        t
        (remove_by_domain bucket_of key t)
        (insert_item bucket_of key info cache_data timeout mem t)
unfolding insert_item
insert_item-Inserts bucket_of key info cache_data timeout mem u t h pos room =
    let (t₁, ran₁, h₁, list₁, next₁, size₁, num₁, num₁') =
      remove_by_domain-Cleared bucket_of key u t h in
    let item : Item = new_item key (bucket_of key) (new_entry info cache_data timeout) in
    let (t', ran, h', next, size, fits, k, list, needed, new, few, t₁', t₂, same, run, last) =
      add_item-Inserts bucket_of key info cache_data timeout mem u t₁ h₁ (omega (arith, size₁))
        (omega (arith, size₁, ap length list₁, length-kept bucket_of key t, room)) in
    (
      t',
      ap (λ r. r >>= λ x. add_item bucket_of key info cache_data timeout mem x) ran₁ ∙ ran,
      h',
      next ∙ ap suc next₁,
      size ∙ size₁,
      omega (arith, fits, size₁),
      k,
      list
          ∙ ap (λ l. drop k l ++ t₁.next ∷ []) list₁
          ∙ ap (λ n. drop k (kept bucket_of key t) ++ n ∷ []) next₁,
      λ m l. needed m (omega (arith, size₁, num₁, l)),
      ap t'.heap (sym next₁) ∙ new,
      λ m l. omega (arith, few m l, size₁),
      t₁',
      t₂,
      ran₁ ∙ same,
      run,
      last ∙ ap (λ n. t₂.cache_list ++ n ∷ []) next₁,
    )
