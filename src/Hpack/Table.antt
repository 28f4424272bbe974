-- ===== src/Hpack/Table.antt =====
-- The static table and the dynamic table with its eviction. A C string is the list of its bytes in
-- front of the NUL. `malloc` and `strdup` are taken to succeed. The sizes are sums of lengths of
-- strings in memory, which a `size_t` holds.
pub mod Static
pub mod Invariant
pub mod Lookup
use smartdns_ui.Prelude.{
  ℕ, zero, suc, ◌+◌, ◌-◌, ◌*◌, ◌^◌, ◌&&◌, Bool, true, false, List, [], ◌∷◌, length, ltb, leb, ◌==◌,
  get_elem?, if◌then◌else◌, Option, none, some, Outcome, ok, fail, or_fault,
}
use smartdns_ui.Hpack.Table.Static.{Field, hpack_static_table}

-- `strcmp(a, b) == 0`
unfoldable pub str_eq : List ℕ → List ℕ → Bool
str_eq [] [] = true
str_eq [] (y ∷ ys) = false
str_eq (x ∷ xs) [] = false
str_eq (x ∷ xs) (y ∷ ys) = x == y && str_eq xs ys

-- `struct hpack_dynamic_entry`
pub record Entry : Type 0 where
  pub name : List ℕ
  pub value : List ℕ
  pub size : ℕ

-- `struct hpack_context`; the list from `dynamic_table` on
pub record HpackContext : Type 0 where
  pub dynamic_table : List Entry
  pub dynamic_table_size : ℕ
  pub max_dynamic_table_size : ℕ
  pub entry_count : ℕ

-- `hpack_init_context`
unfoldable pub init_context : HpackContext
init_context = record {
  dynamic_table = [];
  dynamic_table_size = 0;
  max_dynamic_table_size = 65536;
  entry_count = 0;
}

-- `hpack_free_context`
unfoldable pub free_context : HpackContext → HpackContext
free_context hpack = record hpack { dynamic_table = []; dynamic_table_size = 0; entry_count = 0 }

-- The walk to `last`: what is left of the list without it, and its size.
pub unlink_last : Entry → List Entry → List Entry × ℕ
unlink_last e [] = ([], e.size)
unlink_last e (f ∷ fs) = let (rest, size) = unlink_last f fs in (e ∷ rest, size)

-- a round of the loop below, on a table that is not empty
pub evict_one : Entry → List Entry → HpackContext → HpackContext
evict_one e fs hpack =
    let (rest, size) = unlink_last e fs in
    record hpack {
      dynamic_table = rest;
      dynamic_table_size = hpack.dynamic_table_size - size;
      entry_count = hpack.entry_count - 1;
    }

-- The test of the loop below that looks at the sizes.
abbrev pub is_over : ℕ → HpackContext → Bool
is_over needed hpack = ltb hpack.max_dynamic_table_size (hpack.dynamic_table_size + needed)

-- `while (dynamic_table_size + needed > max_dynamic_table_size && dynamic_table)`; a round takes
-- an entry, so as many rounds as the table has entries are enough.
pub evict_loop : ℕ → ℕ → HpackContext → List Entry → HpackContext
evict_loop fuel needed hpack [] = hpack
evict_loop zero needed hpack (e ∷ fs) = hpack
evict_loop (suc fuel) needed hpack (e ∷ fs) =
    let next = evict_one e fs hpack in
    let rest = evict_loop fuel needed next next.dynamic_table in
    if is_over needed hpack then rest else hpack

unfoldable pub evict : ℕ → HpackContext → HpackContext
unfolding unlink_last evict_one evict_loop
evict needed hpack = evict_loop (length hpack.dynamic_table) needed hpack hpack.dynamic_table

abbrev pub entry_size : List ℕ → List ℕ → ℕ
entry_size name value = length name + length value + 32

-- `hpack_add_dynamic_entry`
unfoldable pub add_dynamic_entry : HpackContext → List ℕ → List ℕ → HpackContext
add_dynamic_entry hpack name value =
    let size = entry_size name value in
    let evicted = evict size hpack in
    if ltb evicted.max_dynamic_table_size size then evicted else record evicted {
      dynamic_table = record { name = name; value = value; size = size } ∷ evicted.dynamic_table;
      dynamic_table_size = evicted.dynamic_table_size + size;
      entry_count = evicted.entry_count + 1;
    }

-- `hpack_resize_dynamic_table`
unfoldable pub resize_dynamic_table : HpackContext → ℕ → HpackContext
resize_dynamic_table hpack new_size = evict 0 (record hpack { max_dynamic_table_size = new_size })

abbrev pub static_table_size : ℕ
static_table_size = 61

-- the name and the value of an entry
abbrev pub field_of : Entry → Field
field_of e = record { name = e.name; value = e.value }

-- `hpack_get_entry`
unfoldable pub get_entry : HpackContext → ℕ → Outcome Field
get_entry hpack index =
    if index == 0
    then fail
    else if leb index static_table_size
    then or_fault (get_elem? hpack_static_table (index - 1))
    else elim (get_elem? hpack.dynamic_table (index - static_table_size - 1)) [
      | some e ↦ ok (field_of e)
      | none ↦ fail
    ]

-- The search over a table whose first row has the index `i`: the pair of `index` and
-- `name_only_index`; the latter keeps the first hit.
unfoldable pub find_static : List Field → ℕ → ℕ → List ℕ → List ℕ → ℕ × ℕ
find_static [] i name_only name value = (0, name_only)
find_static (f ∷ fs) i name_only name value =
    let hit = if name_only == 0 then i else name_only in
    let next = find_static fs (i + 1) (if str_eq f.name name then hit else name_only) name value in
    if str_eq f.name name && str_eq f.value value then (i, hit) else next

unfoldable pub find_dynamic : List Entry → ℕ → ℕ → List ℕ → List ℕ → ℕ × ℕ
find_dynamic [] i name_only name value = (0, name_only)
find_dynamic (e ∷ es) i name_only name value =
    let hit = if name_only == 0 then i else name_only in
    let next = find_dynamic es (i + 1) (if str_eq e.name name then hit else name_only) name value in
    if str_eq e.name name && str_eq e.value value then (i, hit) else next

-- `hpack_find_index`
unfoldable pub find_index : HpackContext → List ℕ → List ℕ → ℕ × ℕ
find_index hpack name value =
    let (index, name_only) = find_static hpack_static_table 1 0 name value in
    let dynamic = find_dynamic hpack.dynamic_table (static_table_size + 1) name_only name value in
    if ltb 0 index then (index, name_only) else dynamic
