-- ===== src/Sync/Pull/Cursor/Progress.antt =====
-- The cursor of a `pull`: a client that pulls from it misses no row and gets ahead.
use planner_api.Common.{
  ℕ, suc, ◌+◌, ◌≤◌, ◌<◌, String, ◌≡◌, refl, sym, ap, ◌∙◌, true, List, [], ◌∷◌, arith, ltb, length,
  length-take, length-append, take, Occurs, All-Occurs, Bool-cases, inl, inr, ◌⊎◌,
}
use planner_api.Store.Value.{Row, seq_of}
use planner_api.Store.Db.{Db}
use planner_api.Store.Action.{Env}
use planner_api.Sync.Registry.{TableSchema}
use planner_api.Sync.Pull.{
  Entry, entry, entries, in_range, sort_entries, last_seq_of, collected, truncated, page, result,
}
use planner_api.Sync.Pull.Page.{length-sort_entries}
use planner_api.Sync.Pull.Cursor.{IsMissed, page-Occurs, page_of_IsMissed}

last-Occurs :
    (since : ℕ) (l : List Entry)
    → ((length l ≡ 0) × (last_seq_of since l ≡ since))
      ⊎ ((e : Entry) × Occurs e l × (last_seq_of since l ≡ e.seq))
last-Occurs since [] = inl (refl, refl)
last-Occurs since (e ∷ []) = inr (e, inl refl, refl)
last-Occurs since (e ∷ f ∷ es) = elim (last-Occurs since (f ∷ es)) [
  | inl p ↦ absurd (omega (arith, p.0))
  | inr (g, there, same) ↦ inr (g, inr there, same)
]

length-entries : (name : String) (rows : List Row) → length (entries name rows) ≡ length rows
length-entries name [] = refl
length-entries name (r ∷ rs) = ap suc (length-entries name rs)

le_cases : (m n : ℕ) → m ≤ n → (m < n) ⊎ (m ≡ n)
le_cases m n h = elim (Bool-cases (ltb m n)) [
  | inl e ↦ inl (ground arith)
  | inr e ↦ inr (ground arith)
]

module _ (env : Env) (tables : List TableSchema) (user : String) (since cap : ℕ) (d : Db) where
  -- No two rows that the client may have missed have the same seq.
  abbrev pub SeqsDiffer : Type 0
  SeqsDiffer =
      (t u : TableSchema) (q r : Row)
      → Occurs t tables
      → Occurs u tables
      → IsMissed env user since cap d t q
      → IsMissed env user since cap d u r
      → seq_of q ≡ seq_of r
      → entry t.definition.name q ≡ entry u.definition.name r

  -- Where no two rows of the user share a seq, a stored row of the user with a seq above `since` is
  -- on the page, or it is above the returned cursor and the client is told that there is more.
  pub pull-IsComplete :
      (t : TableSchema) (r : Row)
      → SeqsDiffer
      → Occurs t tables
      → IsMissed env user since cap d t r
      → Occurs (entry t.definition.name r) (page env user since cap d tables)
        ⊎ (((result env user since cap d tables).cursor < seq_of r)
            × ((result env user since cap d tables).has_more ≡ true))
  unfolding result
  pull-IsComplete t r differ among h =
      elim (page_of_IsMissed env user since cap d t tables r among h) [
        | inl on ↦ inl on
        | inr (smaller, more) ↦
            let shown = page env user since cap d tables in
            elim (last-Occurs since shown) [
              | inl none_shown ↦ inr (omega (arith, none_shown.1, h.2), more)
              | inr (e, there, last) ↦
                  let (u, q, among_u, missed, same) =
                    page-Occurs env user since cap d tables e there in
                  let le : e.seq ≤ seq_of r =
                    All-Occurs (λ f. f.seq ≤ seq_of r) e shown smaller there in
                  elim (le_cases e.seq (seq_of r) le) [
                    | inl less ↦ inr (omega (arith, last, less), more)
                    | inr equal ↦
                        let one : e ≡ entry t.definition.name r =
                          same
                          ∙ differ u t q r among_u among missed h
                              (sym (ap (λ f. f.seq) same) ∙ equal) in
                        inl (rw (sym one) there)
                  ]
            ]
      ]

  cursor_lem :
      ((length (page env user since cap d tables) ≡ 0)
        × (last_seq_of since (page env user since cap d tables) ≡ since))
      ⊎ (since < last_seq_of since (page env user since cap d tables))
  cursor_lem = elim (last-Occurs since (page env user since cap d tables)) [
    | inl p ↦ inl p
    | inr (e, there, last) ↦
        let (t, r, among, missed, same) = page-Occurs env user since cap d tables e there in
        inr (omega (arith, last, ap (λ f. f.seq) same, missed.2))
  ]

  truncated-collected :
      (ts : List TableSchema)
      → truncated env user since cap d ts ≡ true
      → cap ≤ length (collected env user since cap d ts)
  unfolding truncated collected
  truncated-collected [] more = cc
  truncated-collected (t ∷ ts) more =
      let rows = take (cap + 1) (in_range env user since cap d t) in
      let both =
        length-append (entries t.definition.name (take cap rows))
          (collected env user since cap d ts) in
      let own = length-entries t.definition.name (take cap rows) in
      elim (Bool-cases (ltb cap (length rows))) [
        | inl e ↦ ground (arith, both, own, length-take cap rows)
        | inr e ↦ omega (arith, both, truncated-collected ts (ground arith))
      ]

  collected_of_more :
      1 ≤ cap
      → (result env user since cap d tables).has_more ≡ true
      → 1 ≤ length (collected env user since cap d tables)
  unfolding result
  collected_of_more room more = elim (Bool-cases (truncated env user since cap d tables)) [
    | inl e ↦ omega (arith, truncated-collected tables e)
    | inr e ↦ ground arith
  ]

  -- A page has at most `cap` entries, and its cursor is not below the one that was asked for.
  pub pull-IsBounded :
      ((result env user since cap d tables).count ≤ cap)
      × (since ≤ (result env user since cap d tables).cursor)
  unfolding result page
  pull-IsBounded = (
    omega (arith, length-take cap (sort_entries (collected env user since cap d tables))),
    elim cursor_lem [ inl p ↦ omega (arith, p.1) | inr p ↦ omega (arith, p) ],
  )

  -- If `hasMore` is true and a page has room for one entry, the cursor is above the one that was
  -- asked for, so a client that pulls again gets ahead.
  pub pull-Advances :
      1 ≤ cap
      → (result env user since cap d tables).has_more ≡ true
      → since < (result env user since cap d tables).cursor
  unfolding result page
  pull-Advances room more =
      let all = collected env user since cap d tables in
      elim cursor_lem [
        | inl p ↦ absurd (
            omega (
              arith,
              p.0,
              length-take cap (sort_entries all),
              length-sort_entries all,
              collected_of_more room more,
            ))
        | inr p ↦ p
      ]
