-- ===== src/Sync/Pull/Cursor.antt =====
-- What the page of a `pull` holds of one row: it is there, or it is left for a later page.
pub mod Progress
use planner_api.Common.{
  ℕ, zero, suc, ◌+◌, ◌≤◌, ◌<◌, min, String, ◌≡◌, refl, sym, ap, ◌∙◌, Bool, true, false, ◌||◌,
  Option, none, some, List, [], ◌∷◌, ◌++◌, ◌==◌, eq_iff, arith, leb, ltb, length, length-take, take,
  All, Occurs, All-Occurs, Occurs-append, Occurs-append_left, Occurs-append_right, if◌then◌else◌,
  Bool-cases, inl, inr, ◌⊎◌,
}
use planner_api.Store.Value.{Value, str, Row, get, owner, seq_of, truthy}
use planner_api.Store.Query.{matches, value_eq}
use planner_api.Store.Db.{Db, Stored, IsOrder, Sorted, ok}
use planner_api.Store.Action.{World, pure, ◌>>=◌, Env, now}
use planner_api.Crud.Rows.{str_of_value_eq}
use planner_api.Sync.Registry.{TableSchema}
use planner_api.Sync.Push.{touch_client}
use planner_api.Sync.Pull.{
  Entry, SyncPullResult, entry, entries, by_seq, above, sort_entries, last_seq_of, in_range,
  collected, truncated, page, result, pull,
}
use planner_api.Sync.Pull.Page.{
  Ascending, sort_entries-Ascending, count_le, count_le-append, count_le-sort_entries, take-le,
  Occurs-sort_entries, sort_entries-Occurs, length-sort_entries, Occurs-take, last-le,
}

plus_one : (n : ℕ) → n + 1 ≡ suc n
plus_one n = omega arith

leb_total : (m n : ℕ) → (leb m n ≡ true) ⊎ (leb n m ≡ true)
leb_total m n = elim (Bool-cases (leb m n)) [ inl e ↦ inl e | inr e ↦ inr (ground arith) ]

by_seq-IsOrder : IsOrder by_seq
by_seq-IsOrder = record {
  total = λ a b. leb_total (seq_of a) (seq_of b);
  trans = λ a b c h k. ground arith;
}

-- A row of one table is among the first `cap`, or these are full and none of them is larger.
first_rows :
    (name : String) (r : Row) (cap : ℕ) (rows : List Row)
    → Sorted by_seq rows
    → Occurs r rows
    → Occurs (entry name r) (entries name (take cap (take (suc cap) rows)))
      ⊎ ((cap ≤ count_le (seq_of r) (entries name (take cap (take (suc cap) rows))))
          × (cap < length (take (suc cap) rows)))
first_rows name r zero (a ∷ l) h o = inr (omega arith, omega arith)
first_rows name r (suc cap) (a ∷ l) h (inl p) = inl (inl (ap (entry name) p))
first_rows name r (suc cap) (a ∷ l) h (inr o) = elim (first_rows name r cap l h.1 o) [
  | inl q ↦ inl (inr q)
  | inr (k, n) ↦
      let le : leb (seq_of a) (seq_of r) ≡ true = All-Occurs (λ f. by_seq a f ≡ true) r l h.0 o in
      inr (rw le (omega arith), omega arith)
]
first_rows name r cap [] h o = absurd o

-- The where of `pull` fits a row of the user with a larger seq, and nothing else.
above_of_own :
    (like : String → String → Bool) (user : String) (since : ℕ) (r : Row)
    → get "userId" r ≡ str user
    → since < seq_of r
    → matches like (above user since) r ≡ true
unfolding matches
above_of_own like user since r own after =
    let same : value_eq (get "userId" r) (str user) ≡ true = rw own ((eq_iff user user).1 refl) in
    rw same (ground arith)

own_of_above :
    (like : String → String → Bool) (user : String) (since : ℕ) (r : Row)
    → matches like (above user since) r ≡ true
    → (get "userId" r ≡ str user) × (since < seq_of r)
unfolding matches
own_of_above like user since r h =
    (str_of_value_eq (get "userId" r) user (ground arith), ground arith)

entries-Occurs :
    (name : String) (e : Entry) (rows : List Row)
    → Occurs e (entries name rows)
    → (r : Row) × Occurs r rows × (e ≡ entry name r)
entries-Occurs name e [] o = absurd o
entries-Occurs name e (r ∷ rs) (inl p) = (r, inl refl, p)
entries-Occurs name e (r ∷ rs) (inr o) =
    let (q, there, same) = entries-Occurs name e rs o in (q, inr there, same)

take-Occurs : {A : Type 0} (a : A) (n : ℕ) (l : List A) → Occurs a (take n l) → Occurs a l
take-Occurs a (suc n) (x ∷ l) (inl p) = inl p
take-Occurs a (suc n) (x ∷ l) (inr o) = inr (take-Occurs a n l o)
take-Occurs a (suc n) [] o = o
take-Occurs a zero l o = absurd o

module _ (env : Env) (user : String) (since cap : ℕ) (d : Db) where
  -- A stored row that the client may have missed.
  abbrev pub IsMissed : TableSchema → Row → Type 0
  IsMissed t r = Stored t.definition.delegate r d × (get "userId" r ≡ str user) × (since < seq_of r)

  in_range_of_IsMissed :
      (t : TableSchema) (r : Row) → IsMissed t r → Occurs r (in_range env user since cap d t)
  in_range_of_IsMissed t r (there, own, after) =
      (env.prisma.find_many_iff t.definition.delegate (above user since) by_seq d r).1
        (there, above_of_own env.prisma.like user since r own after)

  -- What the loop takes of one table.
  abbrev taken : TableSchema → List Entry
  taken t = entries t.definition.name (take cap (take (suc cap) (in_range env user since cap d t)))

  -- A missed row is collected, or a table gave all it may and none of it is larger.
  collected_of_IsMissed :
      (t : TableSchema) (tables : List TableSchema) (r : Row)
      → Occurs t tables
      → IsMissed t r
      → Occurs (entry t.definition.name r) (collected env user since cap d tables)
        ⊎ ((cap ≤ count_le (seq_of r) (collected env user since cap d tables))
            × (truncated env user since cap d tables ≡ true))
  unfolding collected truncated
  collected_of_IsMissed t (u ∷ ts) r (inr o) h =
      let rest = collected env user since cap d ts in
      let counts = count_le-append (seq_of r) (taken u) rest in
      rw (plus_one cap) (elim (collected_of_IsMissed t ts r o h) [
        | inl q ↦ inl (Occurs-append_right (entry t.definition.name r) (taken u) rest q)
        | inr (k, n) ↦ inr (omega (arith, counts, k), ground (arith, n))
      ])
  collected_of_IsMissed t (u ∷ ts) r (inl p) h =
      let rest = collected env user since cap d ts in
      let counts = count_le-append (seq_of r) (taken t) rest in
      rw (sym p) (
        rw (plus_one cap)
          (elim (first_rows t.definition.name r cap (in_range env user since cap d t)
            (env.prisma.find_many-Sorted t.definition.delegate (above user since) by_seq d
              by_seq-IsOrder)
            (in_range_of_IsMissed t r h)) [
              | inl q ↦ inl (Occurs-append_left (entry t.definition.name r) (taken t) rest q)
              | inr (k, n) ↦ inr (omega (arith, counts, k), ground (arith, n))
            ]))
  collected_of_IsMissed t [] r o h = absurd o

  collected-Occurs :
      (tables : List TableSchema) (e : Entry)
      → Occurs e (collected env user since cap d tables)
      → (t : TableSchema) × (r : Row) × Occurs t tables
        × IsMissed t r
        × (e ≡ entry t.definition.name r)
  unfolding collected
  collected-Occurs [] e o = absurd o
  collected-Occurs (u ∷ ts) e o =
      elim (Occurs-append e
        (entries u.definition.name (take cap (take (cap + 1) (in_range env user since cap d u))))
        (collected env user since cap d ts) o) [
          | inl q ↦
              let rows = in_range env user since cap d u in
              let (r, there, same) =
                entries-Occurs u.definition.name e (take cap (take (cap + 1) rows)) q in
              let found =
                (env.prisma.find_many_iff u.definition.delegate (above user since) by_seq d r).0
                  (take-Occurs r (cap + 1) rows (take-Occurs r cap (take (cap + 1) rows) there)) in
              let (own, after) = own_of_above env.prisma.like user since r found.1 in
              (u, r, inl refl, (found.0, own, after), same)
          | inr q ↦
              let (t, r, among, missed, same) = collected-Occurs ts e q in
              (t, r, inr among, missed, same)
        ]

  -- Every entry of a page is a row that the client may have missed.
  pub page-Occurs :
      (tables : List TableSchema) (e : Entry)
      → Occurs e (page env user since cap d tables)
      → (t : TableSchema) × (r : Row) × Occurs t tables
        × IsMissed t r
        × (e ≡ entry t.definition.name r)
  unfolding page
  page-Occurs tables e o =
      let all = collected env user since cap d tables in
      collected-Occurs tables e (sort_entries-Occurs e all (take-Occurs e cap (sort_entries all) o))

  -- A missed row is on the page, or there is more and no entry of the page is larger.
  pub page_of_IsMissed :
      (t : TableSchema) (tables : List TableSchema) (r : Row)
      → Occurs t tables
      → IsMissed t r
      → Occurs (entry t.definition.name r) (page env user since cap d tables)
        ⊎ (All (λ f. f.seq ≤ seq_of r) (page env user since cap d tables)
            × ((result env user since cap d tables).has_more ≡ true))
  unfolding page result
  page_of_IsMissed t tables r o h =
      let all = collected env user since cap d tables in
      elim (collected_of_IsMissed t tables r o h) [
        | inl q ↦
            elim (Occurs-take (entry t.definition.name r) cap (sort_entries all)
              (sort_entries-Ascending all)
              (Occurs-sort_entries (entry t.definition.name r) all q)) [
                | inl on ↦ inl on
                | inr (k, n) ↦ inr (k, ground (arith, n, length-sort_entries all))
              ]
        | inr (k, n) ↦ inr (
          take-le (seq_of r) cap (sort_entries all) (sort_entries-Ascending all)
              (omega (arith, k, count_le-sort_entries (seq_of r) all)),
          ground (arith, n),
        )
      ]
