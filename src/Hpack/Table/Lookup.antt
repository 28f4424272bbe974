-- ===== src/Hpack/Table/Lookup.antt =====
-- What `hpack_find_index` finds, `hpack_get_entry` gives.
use smartdns_ui.Prelude.{
  ℕ, zero, suc, ◌+◌, ◌-◌, ◌≤◌, ◌<◌, ◌≡◌, ◌≢◌, refl, sym, ap, ◌∙◌, ◌⊎◌, inl, inr, true, false, List,
  [], ◌∷◌, length, map, get_elem?, get_elem?-lt, ltb, leb, ◌==◌, if◌then◌else◌, Bool-cases, le→leb,
  leb-false, Option, none, some, Outcome, ok, fail, or_fault, arith,
}
use mathlib.Core.Path.{subst}
use mathlib.Core.Option.{some-injective}
use smartdns_ui.Hpack.Table.Static.{Field, hpack_static_table}
use smartdns_ui.Hpack.Table.{
  Entry, HpackContext, str_eq, field_of, find_static, find_dynamic, find_index, get_entry,
  static_table_size,
}

pub str_eq→eq : (a b : List ℕ) → str_eq a b ≡ true → a ≡ b
unfolding str_eq
str_eq→eq [] [] h = refl
str_eq→eq [] (y ∷ ys) h = cc
str_eq→eq (x ∷ xs) [] h = cc
str_eq→eq (x ∷ xs) (y ∷ ys) h = ground (arith, str_eq→eq xs ys)

pub str_eq_refl : (a : List ℕ) → str_eq a a ≡ true
unfolding str_eq
str_eq_refl [] = refl
str_eq_refl (x ∷ xs) = ground (arith, str_eq_refl xs)

-- The dynamic table is searched as the static one is.
find_dynamic-eq-find_static :
    (es : List Entry) (i n : ℕ) (name value : List ℕ)
    → find_dynamic es i n name value ≡ find_static (map field_of es) i n name value
unfolding find_dynamic find_static
find_dynamic-eq-find_static [] i n name value = refl
find_dynamic-eq-find_static (e ∷ es) i n name value = rw (
    find_dynamic-eq-find_static es (i + 1)
      (if str_eq e.name name then (if n == 0 then i else n) else n) name value)

abbrev pub pair : List ℕ → List ℕ → Field
pair name value = record { name = name; value = value }

-- Row `k` of the table that is searched, counted from 0.
abbrev Row : List Field → ℕ → List ℕ → ℕ → Type 0
Row fs i name r = (k : ℕ) × (f : Field) × (r ≡ i + k) × (get_elem? fs k ≡ some f) × (f.name ≡ name)

record Finds (fs : List Field) (i n : ℕ) (name value : List ℕ) (r : ℕ × ℕ) : Type 0 where
  whole : (r.0 ≡ 0) ⊎ ((k : ℕ) × (r.0 ≡ i + k) × (get_elem? fs k ≡ some (pair name value)))
  missed : 0 < i → r.0 ≡ 0 → (k : ℕ) → get_elem? fs k ≢ some (pair name value)
  name_only : (r.1 ≡ n) ⊎ Row fs i name r.1

hit-Row :
    (f : Field) (fs : List Field) (i n : ℕ) (name : List ℕ)
    → f.name ≡ name
    → ((if n == 0 then i else n) ≡ n) ⊎ Row (f ∷ fs) i name (if n == 0 then i else n)
hit-Row f fs i n name same = elim (Bool-cases (n == 0)) [
  | inl e ↦ rw e (inr (0, f, omega arith, refl, same))
  | inr e ↦ rw e (inl refl)
]

-- One more row in front, which is not the pair.
Finds-after :
    (f : Field) (fs : List Field) (i n m : ℕ) (name value : List ℕ) (r : ℕ × ℕ)
    → f ≢ pair name value
    → (m ≡ n) ⊎ Row (f ∷ fs) i name m
    → Finds fs (i + 1) m name value r
    → Finds (f ∷ fs) i n name value r
Finds-after f fs i n m name value r miss k s = record {
  whole = elim s.whole [ inl z ↦ inl z | inr (j, p, q) ↦ inr (suc j, omega (arith, p), q) ];
  missed = λ pos z. elim [
    | zero ↦ λ q. miss (some-injective _ _ q)
    | suc j ↦ s.missed (omega arith) z j
  ];
  name_only = elim s.name_only [
    | inl z ↦ subst (λ t. (t ≡ n) ⊎ Row (f ∷ fs) i name t) (sym z) k
    | inr (j, g, p, q, o) ↦ inr (suc j, g, omega (arith, p), q, o)
  ];
}

find_static-Finds :
    (fs : List Field) (i n : ℕ) (name value : List ℕ)
    → Finds fs i n name value (find_static fs i n name value)
unfolding find_static
find_static-Finds [] i n name value = record {
  whole = inl refl;
  missed = λ p z k q. cc;
  name_only = inl refl;
}
find_static-Finds (f ∷ fs) i n name value = elim (Bool-cases (str_eq f.name name)) [
  | inr e ↦ rw e (
      Finds-after f fs i n n name value _
        (λ q. cc (e, ap (λ (g : Field). str_eq g.name name) q, str_eq_refl name)) (inl refl)
        (find_static-Finds fs (i + 1) n name value))
  | inl e ↦
      let same = str_eq→eq f.name name e in
      let hit = if n == 0 then i else n in
      elim (Bool-cases (str_eq f.value value)) [
        | inl g ↦
            rw (e, g)
              (record {
                whole = inr (
                  0,
                  omega arith,
                  λ j. some (record { name = same j; value = str_eq→eq f.value value g j }),
                );
                missed = λ p z. absurd (omega arith);
                name_only = hit-Row f fs i n name same;
              })
        | inr g ↦
            rw (e, g)
              (Finds-after f fs i n hit name value _ (λ q. cc (str_eq_refl value))
                (hit-Row f fs i n name same) (find_static-Finds fs (i + 1) hit name value))
      ]
]

get_elem?-map :
    (es : List Entry) (k : ℕ) (f : Field)
    → get_elem? (map field_of es) k ≡ some f
    → (e : Entry) × (get_elem? es k ≡ some e) × (field_of e ≡ f)
get_elem?-map [] k f h = cc
get_elem?-map (e ∷ es) zero f h = (e, refl, some-injective _ _ h)
get_elem?-map (e ∷ es) (suc k) f h = get_elem?-map es k f h

length-static_table : length hpack_static_table ≡ static_table_size
unfolding hpack_static_table
length-static_table = refl

eq-zero_false : (n : ℕ) → 0 < n → (n == 0) ≡ false
eq-zero_false n h = ground arith

or_fault-eq-ok : (o : Option Field) (f : Field) → or_fault o ≡ ok f → o ≡ some f
or_fault-eq-ok none f h = cc
or_fault-eq-ok (some g) f h = cc

found_row :
    (es : List Entry) (k : ℕ) (f : Field)
    → ◌≡◌ {A = Outcome Field}
        (elim (get_elem? es k) [ some e ↦ ok (field_of e) | none ↦ fail ])
        (ok f)
    → get_elem? (map field_of es) k ≡ some f
found_row [] k f h = cc
found_row (e ∷ es) zero f h = cc h
found_row (e ∷ es) (suc k) f h = found_row es k f h

module _ (h : HpackContext) where
  get_entry_static :
      (k : ℕ) (f : Field) → get_elem? hpack_static_table k ≡ some f → get_entry h (1 + k) ≡ ok f
  unfolding get_entry
  get_entry_static k f e =
      let small = get_elem?-lt hpack_static_table k f e in
      let back : 1 + k - 1 ≡ k = omega arith in
      rw (
        eq-zero_false (1 + k) (omega arith),
        le→leb (1 + k) static_table_size (omega (arith, length-static_table)),
        back,
        e,
      )

  get_entry_dynamic :
      (k : ℕ) (f : Field)
      → get_elem? (map field_of h.dynamic_table) k ≡ some f
      → get_entry h (static_table_size + 1 + k) ≡ ok f
  unfolding get_entry
  get_entry_dynamic k f e =
      let (x, ex, same) = get_elem?-map h.dynamic_table k f e in
      let back : static_table_size + 1 + k - static_table_size - 1 ≡ k = omega arith in
      rw
        (
          eq-zero_false (static_table_size + 1 + k) (omega arith),
          leb-false (static_table_size + 1 + k) static_table_size (omega arith),
          back,
          ex,
        )
        (ap ok same)

  row_entry :
      (fs : List Field) (i : ℕ)
      → ((k : ℕ) (f : Field) → get_elem? fs k ≡ some f → get_entry h (i + k) ≡ ok f)
      → (name : List ℕ) (n : ℕ) → Row fs i name n
      → (v : List ℕ) × (get_entry h n ≡ ok (pair name v))
  row_entry fs i at name n (k, f, p, q, o) =
      (f.value, rw p (at k f q) ∙ (λ j. ok (record { name = o j; value = f.value })))

  -- Every entry that `hpack_get_entry` gives is a row of one of the tables.
  get_entry_row :
      (k : ℕ) (f : Field)
      → get_entry h k ≡ ok f
      → ((j : ℕ) × (get_elem? hpack_static_table j ≡ some f))
        ⊎ ((j : ℕ) × (get_elem? (map field_of h.dynamic_table) j ≡ some f))
  unfolding get_entry
  get_entry_row k f e = elim (Bool-cases (k == 0)) [
    | inl z ↦ cc (rw z at e)
    | inr z ↦ elim (Bool-cases (leb k static_table_size)) [
      | inl l ↦ inl (k - 1, or_fault-eq-ok _ f (rw (z, l) at e))
      | inr l ↦ inr (
        k - static_table_size - 1,
        found_row h.dynamic_table (k - static_table_size - 1) f (rw (z, l) at e),
      )
    ]
  ]

-- An index that stands for something lies within the tables.
pub get_entry-lt :
    (h : HpackContext) (k : ℕ) (f : Field)
    → get_entry h k ≡ ok f
    → k ≤ static_table_size + length h.dynamic_table
unfolding get_entry
get_entry-lt h k f e = elim (Bool-cases (k == 0)) [
  | inl z ↦ ground arith
  | inr z ↦ elim (Bool-cases (leb k static_table_size)) [
    | inl l ↦ ground arith
    | inr l ↦
        let row = found_row h.dynamic_table (k - static_table_size - 1) f (rw (z, l) at e) in
        let (x, ex, _) = get_elem?-map h.dynamic_table (k - static_table_size - 1) f row in
        omega (arith, get_elem?-lt h.dynamic_table (k - static_table_size - 1) x ex)
  ]
]

-- The indices that `hpack_find_index` gives, 0 for none, mean for `hpack_get_entry` what they
-- should: the first stands for the pair of the name and the value, and the second for an entry of
-- that name. When the first is 0, no index at all stands for the pair.
pub find_index-get_entry :
    (h : HpackContext) (name value : List ℕ)
    → (((find_index h name value).0 ≡ 0)
        ⊎ (get_entry h (find_index h name value).0 ≡ ok (pair name value)))
      × (((find_index h name value).1 ≡ 0)
          ⊎ ((v : List ℕ) × (get_entry h (find_index h name value).1 ≡ ok (pair name v))))
      × ((find_index h name value).0 ≡ 0 → (k : ℕ) → get_entry h k ≢ ok (pair name value))
unfolding find_index
find_index-get_entry h name value = elim (Bool-cases (ltb 0 s.0)) [
  | inl e ↦ rw e (
    elim fs.whole [ inl z ↦ inl z | inr (k, p, q) ↦ inr (rw p (get_entry_static h k _ q)) ],
    static_only,
    λ z. absurd (ground arith),
  )
  | inr e ↦ rw e (
    elim fd.whole [ inl z ↦ inl z | inr (k, p, q) ↦ inr (rw p (get_entry_dynamic h k _ q)) ],
    elim fd.name_only [
      | inl z ↦
          subst (λ t. (t ≡ 0) ⊎ ((v : List ℕ) × (get_entry h t ≡ ok (pair name v)))) (sym z)
            static_only
      | inr r ↦ inr (
          row_entry h (map field_of h.dynamic_table) (static_table_size + 1) (get_entry_dynamic h)
            name _ r)
    ],
    λ z k q. elim (get_entry_row h k (pair name value) q) [
      | inl (j, g) ↦ fs.missed (omega arith) (ground arith) j g
      | inr (j, g) ↦ fd.missed (omega arith) z j g
    ],
  )
]
  where
    s : ℕ × ℕ
    s = find_static hpack_static_table 1 0 name value

    fs : Finds hpack_static_table 1 0 name value s
    fs = find_static-Finds hpack_static_table 1 0 name value

    fd :
        Finds
          (map field_of h.dynamic_table)
          (static_table_size + 1)
          s.1
          name
          value
          (find_dynamic h.dynamic_table (static_table_size + 1) s.1 name value)
    fd =
        rw (find_dynamic-eq-find_static h.dynamic_table (static_table_size + 1) s.1 name value)
          (find_static-Finds (map field_of h.dynamic_table) (static_table_size + 1) s.1 name value)

    static_only : (s.1 ≡ 0) ⊎ ((v : List ℕ) × (get_entry h s.1 ≡ ok (pair name v)))
    static_only = elim fs.name_only [
      | inl z ↦ inl z
      | inr r ↦ inr (row_entry h hpack_static_table 1 (get_entry_static h) name s.1 r)
    ]
