-- ===== src/Memtable/Examples.antt =====
-- Tests and applications of the theorems on the memory table.
use lowdb.Prelude.{ℕ, ◌≤◌, ◌<◌, ◌≡◌, ◌⊎◌, not, [], ◌∷◌, Ordering, Option}
use lowdb.Prelude.Bytes.{Bytes}
use lowdb.Common.Key.{Key, cmp, cmp_str}
use lowdb.Common.Value.{Value, set, delete}
use lowdb.Common.Key.Order.{flip, cmp_linear}
use lowdb.Memtable.Sorted.{insert_entry, has_key, lookup_entry}
use lowdb.Memtable.SkipList.{SkipList, Rng, new, insert, iter, get_entry_at, random_height}
use lowdb.Memtable.SkipList.Height.{random_height_bounds}
use lowdb.Memtable.SkipList.Lookup.{
  IsValid, new-IsValid, insert-IsValid, iter-insert, get_entry_at_lem,
}
use lowdb.Memtable.Table
use lowdb.Memtable.Table.{MemTable, put, get_snap}
use lowdb.Memtable.Table.Reads
use lowdb.Memtable.Table.Reads.{IsNewest, says, get_snap-IsNewest, iter-put, iter-new}

abbrev start : Rng
start = record { cell = 0; seed = 1 }

abbrev key : ℕ → ℕ → Key
key user seq = record { user = user ∷ []; seq = seq }

abbrev list_1 : SkipList
list_1 = (insert (key 97 1) (set (120 ∷ [])) (new start)).1

abbrev list_2 : SkipList
list_2 = (insert (key 97 3) delete list_1).1

list_1-IsValid : IsValid list_1
list_1-IsValid = insert-IsValid (new start) (key 97 1) (set (120 ∷ [])) (new-IsValid start)

list_2-IsValid : IsValid list_2
list_2-IsValid = insert-IsValid list_1 (key 97 3) delete list_1-IsValid

new-IsValid_example : IsValid (new start)
new-IsValid_example = new-IsValid start

insert-IsValid_example : IsValid (insert (key 98 2) delete list_2).1
insert-IsValid_example = insert-IsValid list_2 (key 98 2) delete list_2-IsValid

iter-insert_example :
    (iter (insert (key 98 2) delete list_2).1 ≡ insert_entry (key 98 2) delete (iter list_2))
    × ((insert (key 98 2) delete list_2).0 ≡ not (has_key (key 98 2) (iter list_2)))
iter-insert_example = iter-insert list_2 (key 98 2) delete list_2-IsValid

get_entry_at_lem_example : get_entry_at list_2 (97 ∷ []) 2 ≡ lookup_entry (97 ∷ []) 2 (iter list_2)
get_entry_at_lem_example = get_entry_at_lem list_2 (97 ∷ []) 2 list_2-IsValid

random_height_bounds_example : (1 ≤ (random_height start).0) × ((random_height start).0 ≤ 16)
random_height_bounds_example = random_height_bounds start

abbrev table_1 : MemTable
table_1 = put (key 97 1) (set (120 ∷ [])) (Table.new 0 start)

table_1-IsValid : Reads.IsValid table_1
table_1-IsValid = (iter-put (Table.new 0 start) (key 97 1) (set (120 ∷ [])) (iter-new 0 start).0).0

get_snap-IsNewest_example :
    (r : Option (Key × Value)) × IsNewest (97 ∷ []) 2 (Table.iter table_1) r
    × (get_snap table_1 (97 ∷ []) 2 ≡ says r)
get_snap-IsNewest_example = get_snap-IsNewest table_1 (97 ∷ []) 2 table_1-IsValid

abbrev the_a : Bytes
the_a = 97 ∷ []

cmp_linear_example :
    (cmp (key 97 3) (key 97 1) ≡ Ordering.lt
      → (cmp_str the_a the_a ≡ Ordering.lt) ⊎ ((the_a ≡ the_a) × (1 < 3)))
    × ((cmp_str the_a the_a ≡ Ordering.lt) ⊎ ((the_a ≡ the_a) × (1 < 3))
        → cmp (key 97 3) (key 97 1) ≡ Ordering.lt)
    × (cmp (key 97 3) (key 97 3) ≡ Ordering.eq)
    × (cmp (key 97 3) (key 97 1) ≡ Ordering.eq → key 97 3 ≡ key 97 1)
    × (cmp (key 97 1) (key 97 3) ≡ flip (cmp (key 97 3) (key 97 1)))
    × (cmp (key 97 3) (key 97 1) ≡ Ordering.lt
        → cmp (key 97 1) (key 98 5) ≡ Ordering.lt
        → cmp (key 97 3) (key 98 5) ≡ Ordering.lt)
cmp_linear_example = cmp_linear (key 97 3) (key 97 1) (key 98 5)
