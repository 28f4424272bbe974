-- ===== src/DnsCache/Table/Insert.antt =====
-- `_dns_cache_insert` of src/dns_cache.c: the old entry goes, the oldest ones make room, and the new
-- one comes last.
pub mod Oldest
pub mod Looked
use smartdns_ui.Prelude.{
  ℕ, zero, suc, ◌+◌, ◌-◌, ◌^◌, ◌≤◌, ◌<◌, ◌≡◌, refl, sym, ap, ◌∙◌, Bool, true, false, ◌||◌, ◌&&◌,
  List, [], ◌∷◌, ◌++◌, Option, none, some, ◌==◌, ltb, ltb-false, ltb→lt, if◌then◌else◌, length,
  length-append, length-drop, drop, if_cases, Bool-cases, Option-cases, ◌⊎◌, inl, inr, arith,
  ==_iff, ◌>>=◌, Outcome, ok, fault, is_positive,
}
use mathlib.Core.Bool.{true≢false}
use mathlib.Core.Path.{subst}
use smartdns_ui.DnsCache.Entry.{Info, Entry, Store, remove}
use smartdns_ui.DnsCache.Entry.Life.{World, Counted}
use smartdns_ui.DnsCache.Table.{
  Key, Item, Table, set_item, list_del, is_listed, commit, on_entry, find_entry, release_extra,
  remove_by_domain, insert_item,
}
use smartdns_ui.DnsCache.Table.Heap.{
  one_if, places, places-append, tally, tally_out, tally-set_item,
}
use smartdns_ui.DnsCache.Table.Kept.{
  Users, set_users, IsTable, entry_of, stands, lives, on_entry-IsTable, length-num,
}
use smartdns_ui.DnsCache.Table.Calls.{remove-Ends}
use smartdns_ui.DnsCache.Table.Find.{Finds, find_entry-Finds}

-- The table after a removal: the same but for the entry, its place, its count, and its data.
abbrev Removed : ℕ → Users → Table → ℕ → Outcome Table → Type 0
Removed more u t a o =
    (t' : Table) × (o ≡ ok t')
    × IsTable more u t'
    × (t'.cache_list ≡ list_del a t.cache_list)
    × (t'.next ≡ t.next)
    × (t'.size ≡ t.size)
    × (t'.num ≤ t.num)
    × (t.num ≤ t'.num + 1)

pub IsTable-same :
    (more : ℕ) (u : Users) (t : Table) (a : ℕ)
    → IsTable more (set_users u a (u a)) t
    → IsTable more u t
IsTable-same more u t a h = record {
  fresh = h.fresh;
  counted = λ b. subst (λ w. Counted w (entry_of (t.heap b))) (same b) (h.counted b);
  listing = h.listing;
  all_listed = h.all_listed;
  number = h.number;
}
  where
    same : (b : ℕ) → set_users u a (u a) b ≡ u b
    same b = elim (Bool-cases (b == a)) [
      | inl e ↦ rw e (ap u (sym ((==_iff b a).0 e)))
      | inr e ↦ rw e refl
    ]

pub on_entry-remove :
    (more : ℕ) (u : Users) (t : Table) (a : ℕ) (item : Item)
    → IsTable more u t
    → t.heap a ≡ some item
    → Removed more u t a (on_entry remove a t)
on_entry-remove more u t a item h at =
    let counted : Counted (u a) (some item.entry) =
      subst (λ o. Counted (u a) (entry_of o)) at (h.counted a) in
    let (s, p, c, l) = remove-Ends (u a) item.entry t.put counted in
    let (ran, kept) =
      on_entry-IsTable more u t h a item at (u a) remove s p c
        (λ k. absurd (true≢false (sym k ∙ l))) in
    let list : (if is_listed s then t.cache_list else list_del a t.cache_list)
        ≡ list_del a t.cache_list =
      if_cases (λ x. x ≡ list_del a t.cache_list) (is_listed s) t.cache_list
        (list_del a t.cache_list) (λ k. absurd (true≢false (sym k ∙ l))) (λ k. refl) in
    (
      commit t a item s,
      ran,
      IsTable-same more u (commit t a item s) a kept,
      list,
      refl,
      refl,
      (num_after s.entry).0,
      (num_after s.entry).1,
    )
  where
    num_after :
        (o : Option Entry)
        → (elim o [ none ↦ t.num - 1 | some e ↦ t.num ] ≤ t.num)
          × (t.num ≤ elim o [ none ↦ t.num - 1 | some e ↦ t.num ] + 1)
    num_after none = (omega arith, omega arith)
    num_after (some e) = (omega arith, omega arith)

pub list_del_head : (a : ℕ) (addresses : List ℕ) → list_del a (a ∷ addresses) ≡ addresses
list_del_head a addresses =
    if_cases (λ l. l ≡ addresses) (a == a) addresses (a ∷ list_del a addresses) (λ e. refl)
      (λ e. absurd (ground arith))

-- What is in the list is at its address.
pub listed_item :
    (more : ℕ) (u : Users) (t : Table) (a : ℕ)
    → IsTable more u t
    → 0 < places a t.cache_list
    → (item : Item) × (t.heap a ≡ some item)
listed_item more u t a h k = elim (Option-cases (t.heap a)) [
  | inl e ↦ absurd (omega (arith, h.listing a, ap stands e))
  | inr some_item ↦ some_item
]

pub count_head : (a : ℕ) (addresses : List ℕ) → 0 < places a (a ∷ addresses)
count_head a addresses = ground arith

needless : (b : Bool) (size num : ℕ) → b ≡ false → num ≤ size → (b || ltb size num) ≡ false
needless b size num e l = rw e (ltb-false size num l)

zero_of : (k : ℕ) → (k == 0) ≡ true → k ≡ 0
zero_of k e = ground arith

pos_of : (k : ℕ) → (k == 0) ≡ false → 0 < k
pos_of k e = ground arith

over_false : (b : Bool) (size num : ℕ) → (b || ltb size num) ≡ false → (b ≡ false) × (num ≤ size)
over_false b size num e = (ground (arith, e), ground (arith, e))

over_true : (b : Bool) (size num : ℕ) → b ≡ false → (b || ltb size num) ≡ true → size < num
over_true b size num f e = ground (arith, e, f)

over_cases : (b : Bool) (size num : ℕ) → (b || ltb size num) ≡ true → (b ≡ true) ⊎ (size < num)
over_cases true size num e = inl refl
over_cases false size num e = inr (ltb→lt size num e)

-- A run of at most so many evictions, one by one: each takes the oldest entry off a table that has
-- too many or is short of memory, and the last leaves one that is not, or no entry, or no round.
pub data Evictions (mem : ℕ → Bool) : ℕ → Table → ℕ → Table → Type 0 where
  no_round : (t : Table) → Evictions mem 0 t 0 t
  no_entry : (n : ℕ) (t : Table) → t.cache_list ≡ [] → Evictions mem (suc n) t 0 t
  has_room : (n : ℕ) (t : Table) → mem n ≡ false → t.num ≤ t.size → Evictions mem (suc n) t 0 t
  takes_oldest :
      (n k a : ℕ) (addresses : List ℕ) (t t₁ t' : Table)
      → (mem n ≡ true) ⊎ (t.size < t.num)
      → t.cache_list ≡ a ∷ addresses
      → on_entry remove a t ≡ ok t₁
      → Evictions mem n t₁ k t'
      → Evictions mem (suc n) t (suc k) t'

-- A run that takes none changes nothing.
kept_num :
    (mem : ℕ → Bool) (n : ℕ) (t t' : Table) {k : ℕ}
    → k ≡ 0
    → Evictions mem n t k t'
    → t'.num ≡ t.num
kept_num mem _ t _ z (no_round _) = refl
kept_num mem _ t _ z (no_entry _ _ _) = refl
kept_num mem _ t _ z (has_room _ _ _ _) = refl
kept_num mem _ t t' z (takes_oldest n k a addresses _ t₁ _ o e ran run) = absurd (omega (arith, z))

-- The run takes `k` of the oldest entries off, none at all if there is room and no memory is short,
-- and no more than what makes room. If it takes none then there is room, or no entry, or no round.
abbrev pub Evicts : Users → ℕ → (ℕ → Bool) → Table → Outcome Table → Type 0
Evicts u n mem t o =
    (t' : Table) × (o ≡ ok t')
    × IsTable 1 u t'
    × (t'.next ≡ t.next)
    × (t'.size ≡ t.size)
    × (k : ℕ) × (k ≤ n)
    × (t'.cache_list ≡ drop k t.cache_list)
    × (((i : ℕ) → mem i ≡ false) → t.num ≤ t.size → k ≡ 0)
    × (((i : ℕ) → mem i ≡ false) → 0 < k → t.size ≤ t'.num)
    × Evictions mem n t k t'
    × ((0 < k) ⊎ ((t.num ≤ t.size) ⊎ ((t.cache_list ≡ []) ⊎ (n ≡ 0))))

pub release_extra-Evicts :
    (u : Users) (n : ℕ) (mem : ℕ → Bool) (t : Table)
    → IsTable 1 u t
    → Evicts u n mem t (release_extra n mem t)
unfolding release_extra
release_extra-Evicts u zero mem t h = (
  t,
  refl,
  h,
  refl,
  refl,
  0,
  omega arith,
  refl,
  λ m l. refl,
  λ m l. absurd (omega arith),
  no_round t,
  inr (inr (inr refl)),
)
release_extra-Evicts u (suc n) mem t h =
    if_cases (Evicts u (suc n) mem t) (mem n || ltb t.size t.num) _ (ok t)
      (λ e. evicted t.cache_list refl e (λ t' h'. release_extra-Evicts u n mem t' h'))
      (λ e.
        let (m, r) = room e in
        (
          t,
          refl,
          h,
          refl,
          refl,
          0,
          omega arith,
          refl,
          λ m l. refl,
          λ m l. absurd (omega arith),
          has_room n t m r,
          inr (inl r),
        ))
  where
    room : (mem n || ltb t.size t.num) ≡ false → (mem n ≡ false) × (t.num ≤ t.size)
    room e = over_false (mem n) t.size t.num e

    evicted :
        (list : List ℕ)
        → t.cache_list ≡ list
        → (mem n || ltb t.size t.num) ≡ true
        → ((t' : Table) → IsTable 1 u t' → Evicts u n mem t' (release_extra n mem t'))
        → Evicts u (suc n) mem t (elim list [
          | [] ↦ ok t
          | a ∷ addresses ↦ on_entry remove a t >>= λ t'. release_extra n mem t'
        ])
    evicted [] e o rest = (
      t,
      refl,
      h,
      refl,
      refl,
      0,
      omega arith,
      refl,
      λ m l. refl,
      λ m l. absurd (omega arith),
      no_entry n t e,
      inr (inr (inl e)),
    )
    evicted (a ∷ addresses) e o rest =
        let in_list : 0 < places a t.cache_list =
          subst (λ l. 0 < places a l) (sym e) (count_head a addresses) in
        let (item, at) = listed_item 1 u t a h in_list in
        let (t₁, ran, h₁, list₁, next₁, size₁, num₁, num₁') = on_entry-remove 1 u t a item h at in
        let (t', ran', h', next', size', k, most, list', none', few, run, why) = rest t₁ h₁ in
        let left : t₁.cache_list ≡ addresses =
          list₁ ∙ ap (list_del a) e ∙ list_del_head a addresses in
        (
          t',
          ap (λ r. r >>= λ x. release_extra n mem x) ran ∙ ran',
          h',
          next' ∙ next₁,
          size' ∙ size₁,
          suc k,
          omega (arith, most),
          list' ∙ ap (drop k) left ∙ sym (ap (drop (suc k)) e),
          λ m l. absurd (true≢false (sym o ∙ needless (mem n) t.size t.num (m n) l)),
          λ m l. elim (Bool-cases (k == 0)) [
            | inl z ↦ omega (
              arith,
              over_true (mem n) t.size t.num (m n) o,
              num₁',
              kept_num mem n t₁ t' (zero_of k z) run,
            )
            | inr z ↦ omega (arith, few m (pos_of k z), size₁)
          ],
          takes_oldest n k a addresses t t₁ t' (over_cases (mem n) t.size t.num o) e ran run,
          inl (omega arith),
        )
