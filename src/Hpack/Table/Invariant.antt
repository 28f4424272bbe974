-- ===== src/Hpack/Table/Invariant.antt =====
-- The bookkeeping of the dynamic table.
use smartdns_ui.Prelude.{
  ℕ, true, zero, suc, ◌+◌, ◌*◌, ◌≤◌, ◌<◌, ◌≡◌, refl, sym, ap, ◌∙◌, List, [], ◌∷◌, ◌++◌, append-nil,
  append_assoc, Bool-cases, ltb→lt, ◌⊎◌, inl, inr, length, ltb, All, arith,
}
use mathlib.Core.Path.{subst}
use smartdns_ui.Hpack.Table.{
  is_over, Entry, HpackContext, unlink_last, evict_one, evict_loop, evict, entry_size,
  add_dynamic_entry, resize_dynamic_table,
}

-- The sum of the sizes of the entries.
abbrev pub total_size : List Entry → ℕ
total_size [] = 0
total_size (e ∷ es) = e.size + total_size es

abbrev pub IsSized : Entry → Type 0
IsSized e = e.size ≡ entry_size e.name e.value

-- The counters say what the list holds, and the list fits `max_dynamic_table_size`.
pub record IsConsistent (h : HpackContext) : Type 0 where
  pub size_counted : h.dynamic_table_size ≡ total_size h.dynamic_table
  pub entries_counted : h.entry_count ≡ length h.dynamic_table
  pub sized : All IsSized h.dynamic_table

pub record IsBounded (h : HpackContext) : Type 0 where
  pub consistent : IsConsistent h
  pub fits : h.dynamic_table_size ≤ h.max_dynamic_table_size

unlink_last_lem :
    (e : Entry) (fs : List Entry)
    → All IsSized (e ∷ fs)
    → (total_size (unlink_last e fs).0 + (unlink_last e fs).1 ≡ e.size + total_size fs)
      × (length (unlink_last e fs).0 ≡ length fs)
      × All IsSized (unlink_last e fs).0
unfolding unlink_last
unlink_last_lem e [] s = (omega arith, omega arith, tt)
unlink_last_lem e (f ∷ fs) s =
    let l = unlink_last_lem f fs s.1 in (omega (arith, l.0), omega (arith, l.1), (s.0, l.2))

-- The list that is kept is a front part of the list that was there.
unlink_last-front :
    (e : Entry) (fs : List Entry) → (last : Entry) × (e ∷ fs ≡ (unlink_last e fs).0 ++ last ∷ [])
unfolding unlink_last
unlink_last-front e [] = (e, refl)
unlink_last-front e (f ∷ fs) = let (last, p) = unlink_last-front f fs in (last, ap (λ t. e ∷ t) p)

module _ (e : Entry) (fs : List Entry) (h : HpackContext) (t : h.dynamic_table ≡ e ∷ fs) where
  evict_one-IsConsistent :
      IsConsistent h
      → IsConsistent (evict_one e fs h) × (length (evict_one e fs h).dynamic_table ≡ length fs)
  unfolding evict_one
  evict_one-IsConsistent c =
      let l = unlink_last_lem e fs (subst (All IsSized) t c.sized) in
      (
        record {
          size_counted = omega (arith, c.size_counted, ap total_size t, l.0);
          entries_counted = omega (arith, c.entries_counted, ap length t, l.1);
          sized = l.2;
        },
        l.1,
      )

-- With one more entry the table would not leave room for what is needed.
abbrev pub NoRoom : ℕ → HpackContext → Entry → Type 0
NoRoom needed r e = r.max_dynamic_table_size < total_size (r.dynamic_table ++ e ∷ []) + needed

-- What eviction leaves: a consistent table, cut at its old end, that leaves room for what is
-- needed if it can, and no further: the last entry that went, which is the first of the dropped,
-- did not fit.
pub record Evicted (needed : ℕ) (h r : HpackContext) : Type 0 where
  pub consistent : IsConsistent r
  pub same_max : r.max_dynamic_table_size ≡ h.max_dynamic_table_size
  pub room : (r.dynamic_table_size + needed ≤ r.max_dynamic_table_size) ⊎ (r.dynamic_table ≡ [])
  pub front : (dropped : List Entry) × (h.dynamic_table ≡ r.dynamic_table ++ dropped)
  pub minimal : (e : Entry) (es : List Entry) → front.0 ≡ e ∷ es → NoRoom needed r e

-- The first entry of a list that is longer by one at its end.
first_dropped :
    (P : Entry → Type 0) (dropped : List Entry) (last : Entry)
    → (dropped ≡ [] → P last)
    → ((e : Entry) (es : List Entry) → dropped ≡ e ∷ es → P e)
    → (e : Entry) (es : List Entry) → dropped ++ last ∷ [] ≡ e ∷ es
    → P e
first_dropped P [] last f g e es q = let same : last ≡ e = cc in subst P same (f refl)
first_dropped P (d ∷ ds) last f g e es q = let same : d ≡ e = cc in subst P same (g d ds refl)

Evicted-before :
    (needed : ℕ) (x : Entry) (xs : List Entry) (h r : HpackContext)
    → h.dynamic_table ≡ x ∷ xs
    → h.dynamic_table_size ≡ total_size h.dynamic_table
    → is_over needed h ≡ true
    → Evicted needed (evict_one x xs h) r
    → Evicted needed h r
unfolding evict_one
Evicted-before needed x xs h r e counted over v =
    let (last, p) = unlink_last-front x xs in
    let table : h.dynamic_table ≡ r.dynamic_table ++ (v.front.0 ++ last ∷ []) =
      e
      ∙ p
      ∙ ap (λ t. t ++ last ∷ []) v.front.1
      ∙ append_assoc r.dynamic_table v.front.0 (last ∷ []) in
    let none_left : v.front.0 ≡ [] → NoRoom needed r last = λ k. omega (
      arith,
      ltb→lt _ _ over,
      counted,
      v.same_max,
      ap total_size (table ∙ ap (λ d. r.dynamic_table ++ (d ++ last ∷ [])) k),
    ) in
    record {
      consistent = v.consistent;
      same_max = v.same_max;
      room = v.room;
      front = (v.front.0 ++ last ∷ [], table);
      minimal = first_dropped (NoRoom needed r) v.front.0 last none_left v.minimal;
    }

evict_loop-Evicted :
    (fuel needed : ℕ) (h : HpackContext) (t : List Entry)
    → h.dynamic_table ≡ t
    → length t ≤ fuel
    → IsConsistent h
    → Evicted needed h (evict_loop fuel needed h t)
unfolding evict_loop
evict_loop-Evicted fuel needed h [] e l c = record {
  consistent = c;
  same_max = refl;
  room = inr e;
  front = ([], sym (append-nil h.dynamic_table));
  minimal = λ e es q. absurd cc;
}
evict_loop-Evicted zero needed h (x ∷ xs) e l c = absurd (omega arith)
evict_loop-Evicted (suc fuel) needed h (x ∷ xs) e l c = elim (Bool-cases (is_over needed h)) [
  | inr f ↦ rw f (record {
    consistent = c;
    same_max = refl;
    room = inl (ground arith);
    front = ([], sym (append-nil h.dynamic_table));
    minimal = λ e es q. absurd cc;
  })
  | inl f ↦
      let one = evict_one x xs h in
      let (k, m) = evict_one-IsConsistent x xs h e c in
      rw f (
        Evicted-before needed x xs h _ e c.size_counted f
          (evict_loop-Evicted fuel needed one one.dynamic_table refl (omega (arith, m)) k))
]

pub evict-Evicted :
    (needed : ℕ) (h : HpackContext) → IsConsistent h → Evicted needed h (evict needed h)
unfolding evict
evict-Evicted needed h c =
    evict_loop-Evicted (length h.dynamic_table) needed h h.dynamic_table refl (omega arith) c

empty_fits :
    (r : HpackContext) (needed : ℕ)
    → IsConsistent r
    → (r.dynamic_table_size + needed ≤ r.max_dynamic_table_size) ⊎ (r.dynamic_table ≡ [])
    → r.dynamic_table_size ≤ r.max_dynamic_table_size
empty_fits r needed c (inl room) = omega arith
empty_fits r needed c (inr empty) = omega (arith, c.size_counted, ap total_size empty)

none_fits :
    (r : HpackContext) (needed : ℕ)
    → (r.dynamic_table_size + needed ≤ r.max_dynamic_table_size) ⊎ (r.dynamic_table ≡ [])
    → r.max_dynamic_table_size < needed
    → r.dynamic_table ≡ []
none_fits r needed (inl room) h = absurd (omega arith)
none_fits r needed (inr empty) h = empty

room_fits :
    (r : HpackContext) (needed : ℕ)
    → IsConsistent r
    → (r.dynamic_table_size + needed ≤ r.max_dynamic_table_size) ⊎ (r.dynamic_table ≡ [])
    → needed ≤ r.max_dynamic_table_size
    → r.dynamic_table_size + needed ≤ r.max_dynamic_table_size
room_fits r needed c (inl room) h = room
room_fits r needed c (inr empty) h = omega (arith, c.size_counted, ap total_size empty)

total_size_lower : (es : List Entry) → All IsSized es → 32 * length es ≤ total_size es
total_size_lower [] s = omega arith
total_size_lower (e ∷ es) s = omega (arith, s.0, total_size_lower es s.1)

-- The bound on the sizes bounds the number of entries.
pub length-le :
    (h : HpackContext) → IsBounded h → 32 * length h.dynamic_table ≤ h.max_dynamic_table_size
length-le h b =
    omega (
      arith,
      total_size_lower h.dynamic_table b.consistent.sized,
      b.consistent.size_counted,
      b.fits,
    )

-- RFC 7541, 4.4: an entry larger than the whole table empties it, and any other one becomes the
-- first, in front of what is left of the old entries.
abbrev pub Added : HpackContext → List ℕ → List ℕ → HpackContext → Type 0
Added h name value r =
    ((h.max_dynamic_table_size < entry_size name value) × (r.dynamic_table ≡ []))
    ⊎ ((kept : List Entry) × (dropped : List Entry) × (r.dynamic_table
          ≡ record { name = name; value = value; size = entry_size name value } ∷ kept)
        × (h.dynamic_table ≡ kept ++ dropped))

-- From a consistent context, `hpack_add_dynamic_entry` leaves one that is consistent, has the same
-- `max_dynamic_table_size` and fits it: the counters say what the list holds. An entry larger than
-- the whole table empties it. Any other entry becomes the first, in front of a front part of the
-- old list.
pub add_dynamic_entry-IsBounded :
    (h : HpackContext) (name value : List ℕ)
    → IsConsistent h
    → IsBounded (add_dynamic_entry h name value)
      × ((add_dynamic_entry h name value).max_dynamic_table_size ≡ h.max_dynamic_table_size)
      × Added h name value (add_dynamic_entry h name value)
unfolding add_dynamic_entry
add_dynamic_entry-IsBounded h name value c =
    let size : ℕ = entry_size name value in
    let r = evict size h in
    let v = evict-Evicted size h c in
    let k = v.consistent in
    elim (Bool-cases (ltb r.max_dynamic_table_size size)) [
      | inl e ↦ rw e (
        record { consistent = k; fits = empty_fits r size k v.room },
        v.same_max,
        inl (ground (arith, v.same_max), none_fits r size v.room (ltb→lt _ _ e)),
      )
      | inr e ↦ rw e (
        record {
          consistent = record {
            size_counted = omega (arith, k.size_counted);
            entries_counted = omega (arith, k.entries_counted);
            sized = (refl, k.sized);
          };
          fits = room_fits r size k v.room (ground arith);
        },
        v.same_max,
        inr (r.dynamic_table, v.front.0, refl, v.front.1),
      )
    ]

-- The entries that go are at the end of the table, and they are as few as the limit lets: the
-- newest of them did not fit with the ones that stay.
abbrev pub Resized : HpackContext → HpackContext → Type 0
Resized h r =
    (dropped : List Entry) × (h.dynamic_table ≡ r.dynamic_table ++ dropped)
    × ((e : Entry) (es : List Entry) → dropped ≡ e ∷ es → NoRoom 0 r e)

-- From a consistent context, `hpack_resize_dynamic_table` sets the limit, and leaves a context that
-- is consistent and fits it. It evicts entries at the old end of the table only, and as few as
-- possible: with the newest of the entries evicted the table would not fit.
pub resize_dynamic_table-IsBounded :
    (h : HpackContext) (new_size : ℕ)
    → IsConsistent h
    → IsBounded (resize_dynamic_table h new_size)
      × ((resize_dynamic_table h new_size).max_dynamic_table_size ≡ new_size)
      × Resized h (resize_dynamic_table h new_size)
unfolding resize_dynamic_table
resize_dynamic_table-IsBounded h new_size c =
    let v =
      evict-Evicted 0 (record h { max_dynamic_table_size = new_size })
        (record {
          size_counted = c.size_counted;
          entries_counted = c.entries_counted;
          sized = c.sized;
        }) in
    (
      record { consistent = v.consistent; fits = empty_fits _ 0 v.consistent v.room },
      v.same_max,
      (v.front.0, v.front.1, v.minimal),
    )
