-- ===== src/Storage/Disk/Newest.antt =====
-- A flush writes the newest version of each key, and a read at a snapshot that may see them all finds
-- the same as before.
use lowdb.Prelude.{
  ℕ, ◌≤◌, ◌≡◌, ◌≢◌, refl, ap, sym, ◌∙◌, inl, inr, Bool, Bool-cases, false, Ordering, Ordering-cases,
  Option, none, some, List, [], ◌∷◌, All, All-imp, arith, length, if◌then◌else◌,
}
use lowdb.Prelude.Bytes.{Bytes}
use lowdb.Common.Key.{Key, cmp, cmp_str, same}
use lowdb.Common.Key.Order.{eq_of_cmp_str, cmp_str_refl}
use lowdb.Common.Value.{Value}
use lowdb.Common.Error.{ok, err}
use lowdb.Env.{Env}
use lowdb.Memtable.Sorted.{IsAscending, lookup_entry}
use lowdb.Memtable.Table.Reads.{other_user}
use lowdb.Wal.Reader.RoundTrip.{ReadablePair}
use lowdb.Sstable.Table.Reads.{lookup_entry-none}
use lowdb.Sstable.Table.Layout.{Entry}
use lowdb.Sstable.Writer.{SsTableWriter, add}
use lowdb.Sstable.Writer.Filled.{add_all}
use lowdb.Storage.Disk.{add_newest}

-- `previous == Some(user)`
abbrev is_previous : Option Bytes → Bytes → Bool
is_previous none user = false
is_previous (some last) user = same last user

-- The entries that a flush writes.
unfoldable pub newest_only : Option Bytes → List Entry → List Entry
newest_only previous [] = []
newest_only previous (e ∷ es) =
    let skipped = newest_only previous es in
    let rest = newest_only (some e.0.user) es in
    if is_previous previous e.0.user then skipped else e ∷ rest

pub add_newest_lem :
    (env : Env) (es : List Entry) (previous : Option Bytes) (w : SsTableWriter env)
    → add_newest env previous es w ≡ add_all env (newest_only previous es) w
unfolding add_newest add_all newest_only
add_newest_lem env [] previous w = refl
add_newest_lem env ((k, v) ∷ es) none w =
    let (r, w') = add env k v w in
    ap (λ rest. elim r [ err e ↦ (err e, w') | ok _ ↦ rest ])
      (add_newest_lem env es (some k.user) w')
add_newest_lem env ((k, v) ∷ es) (some user) w = elim (Bool-cases (same user k.user)) [
  | inl e ↦ rw (add_newest, newest_only, e) (add_newest_lem env es (some user) w)
  | inr e ↦
      let (r, w') = add env k v w in
      rw (add_newest, newest_only, e)
        (ap (λ rest. elim r [ err e ↦ (err e, w') | ok _ ↦ rest ])
          (add_newest_lem env es (some k.user) w'))
]

pub newest_only-All :
    (P : Entry → Type 0) (es : List Entry) (previous : Option Bytes)
    → All P es
    → All P (newest_only previous es)
unfolding newest_only
newest_only-All P [] previous h = tt
newest_only-All P (e ∷ es) previous (h, hs) = elim (Bool-cases (is_previous previous e.0.user)) [
  | inl skip ↦ rw (newest_only, skip) (newest_only-All P es previous hs)
  | inr keep ↦ rw (newest_only, keep) (h, newest_only-All P es (some e.0.user) hs)
]

pub newest_only-Readable :
    (env : Env) (es : List Entry)
    → All (ReadablePair env) es
    → All (ReadablePair env) (newest_only none es)
newest_only-Readable env es h = newest_only-All (ReadablePair env) es none h

pub length-newest_only :
    (es : List Entry) (previous : Option Bytes) → length (newest_only previous es) ≤ length es
unfolding newest_only
length-newest_only [] previous = omega arith
length-newest_only (e ∷ es) previous = elim (Bool-cases (is_previous previous e.0.user)) [
  | inl skip ↦ rw (newest_only, skip) (omega (arith, length-newest_only es previous))
  | inr keep ↦ rw (newest_only, keep) (omega (arith, length-newest_only es (some e.0.user)))
]

-- A table of no entries is what no entries leave.
pub newest_only_empty : (es : List Entry) → length (newest_only none es) ≡ 0 → es ≡ []
unfolding newest_only
newest_only_empty [] h = refl
newest_only_empty (e ∷ es) h = absurd (omega (arith, h))

-- An entry that the snapshot may see, of another user's key, is not what the lookup is for.
module _ (user : Bytes) (s : ℕ) where
  Visible : Entry → Type 0
  Visible e = e.0.seq ≤ s

  pub found_here :
      (k : Key) (v : Value) (es : List Entry)
      → k.seq ≤ s
      → k.user ≡ user
      → lookup_entry user s ((k, v) ∷ es) ≡ some (k, v)
  unfolding lookup_entry cmp
  found_here k v es h e =
      let here : cmp_str k.user user ≡ Ordering.eq = rw e (cmp_str_refl user) in
      ground (arith, here)

  pub passed :
      (k : Key) (v : Value) (es : List Entry)
      → cmp_str k.user user ≡ Ordering.lt
      → lookup_entry user s ((k, v) ∷ es) ≡ lookup_entry user s es
  unfolding lookup_entry cmp
  passed k v es h = ground (arith, h)

  pub stopped :
      (k : Key) (v : Value) (es : List Entry)
      → cmp_str k.user user ≡ Ordering.gt
      → lookup_entry user s ((k, v) ∷ es) ≡ none
  unfolding lookup_entry cmp
  stopped k v es h = ground (arith, h)

  abbrev Not : Option Bytes → Type 0
  Not none = Unit
  Not (some last) = last ≢ user

  new_here : (previous : Option Bytes) → Not previous → is_previous previous user ≡ false
  new_here none h = refl
  new_here (some last) h =
      let other : cmp_str last user ≢ Ordering.eq = λ e. h (eq_of_cmp_str last user e) in
      ground (arith, other)

  lookup_newest :
      (es : List Entry) (previous : Option Bytes)
      → IsAscending es
      → All Visible es
      → Not previous
      → lookup_entry user s (newest_only previous es) ≡ lookup_entry user s es
  unfolding newest_only Visible
  lookup_newest [] previous asc vis h = refl
  lookup_newest ((k, v) ∷ es) previous (lows, asc) (seen, vis) h =
      let skip_or_keep = Bool-cases (is_previous previous k.user) in
      elim (Ordering-cases (cmp_str k.user user)) [
        | inl lt ↦
            let other : k.user ≢ user =
              λ e. let eq : cmp_str k.user user ≡ Ordering.eq = rw e (cmp_str_refl user) in cc in
            elim skip_or_keep [
              | inl e ↦ rw (newest_only, e, passed k v es lt) (lookup_newest es previous asc vis h)
              | inr e ↦
                  rw
                    (newest_only, e, passed k v es lt, passed k v (newest_only (some k.user) es) lt)
                    (lookup_newest es (some k.user) asc vis other)
            ]
        | inr (inl eq) ↦
            let here = eq_of_cmp_str k.user user eq in
            let kept : is_previous previous k.user ≡ false = rw here (new_here previous h) in
            rw (newest_only, kept)
              (found_here k v (newest_only (some k.user) es) seen here
                ∙ sym (found_here k v es seen here))
        | inr (inr gt) ↦ elim skip_or_keep [
          | inl e ↦
              let others : All (λ (f : Entry). f.0.user ≢ user) es =
                All-imp _ _ (λ (f : Entry) lt. other_user k f.0 user gt lt) es lows in
              rw (newest_only, e, stopped k v es gt)
                (lookup_entry-none user s (newest_only previous es)
                  (newest_only-All (λ (f : Entry). f.0.user ≢ user) es previous others))
          | inr e ↦
              rw (newest_only, e, stopped k v es gt, stopped k v (newest_only (some k.user) es) gt)
                refl
        ]
      ]

  pub lookup_entry-newest_only :
      (es : List Entry)
      → IsAscending es
      → All (λ (e : Entry). e.0.seq ≤ s) es
      → lookup_entry user s (newest_only none es) ≡ lookup_entry user s es
  unfolding Visible
  lookup_entry-newest_only es asc vis = lookup_newest es none asc vis tt
