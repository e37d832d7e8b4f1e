-- ===== src/Users/Account/Brought.antt =====
-- What is left to the account of a row that a guest brought, once the guest is erased.
use mathlib.Core.Bool.{false≢true}
use planner_api.Common.{
  ℕ, ◌<◌, String, ◌≡◌, ◌≢◌, refl, sym, ap, ◌∙◌, true, false, ◌⊎◌, some, List, [], ◌∷◌, map, ◌==◌,
  eq_iff, eq_refl, arith, leb, Occurs, Bool-cases, inl, inr,
}
use planner_api.Store.Value.{Row, null, str, get, id_of, seq_of, text, is_nullish}
use planner_api.Store.Query.{matches, value_eq}
use planner_api.Store.Db.{ok, Db, stored}
use planner_api.Store.Links.{is_link, is_link-owner, is_link-seq}
use planner_api.Store.Action.{World, Env}
use planner_api.Sync.Registry.{SyncTableDef, sync_tables, includes}
use planner_api.Users.Account.{owned_delegates, insert_descending, sort_descending}
use planner_api.Users.Account.Moving.{IsMoved, Has, some_same}
use planner_api.Users.Account.Tables.{AllMoves, guest_rows}
use planner_api.Users.Account.Clearing.{LinksTo}
use planner_api.Users.Account.Erasure.{IsErased, delegates_listed}

-- The column held the id of another row of the guest, which the guest had deleted.
pub record LinkedDeleted (source t k : String) (d : Db) (r : Row) : Type 0 where
  pub parent : String
  pub id : String
  pub row : Row
  pub is_column : is_link parent t k ≡ true
  pub named : get k r ≡ str id
  pub there : stored parent id d ≡ some row
  pub owned : get "userId" row ≡ str source
  pub deleted : id_of row ≡ id → is_nullish (get "deletedAt" row) ≡ false

-- The row of the guest as the account's, with a number above `base`; a link to what the guest had
-- deleted may be null.
pub record IsBrought (source target : String) (base : ℕ) (t : String) (d : Db) (r q : Row)
    : Type 0 where
  pub owned : get "userId" q ≡ str target
  pub fresh : base < seq_of q
  pub agrees :
      (k : String)
      → ("userId" == k) ≡ false
      → ("seq" == k) ≡ false
      → (get k q ≡ get k r) ⊎ ((get k q ≡ null) × LinkedDeleted source t k d r)

-- Each table that is deleted from is one of the synced ones.
listed_def :
    (l : List SyncTableDef) (m : String)
    → includes (map (λ t. t.delegate) l) m ≡ true
    → (def : SyncTableDef) × Occurs def l × (def.delegate ≡ m)
listed_def [] m h = cc
listed_def (t ∷ l) m h = elim (Bool-cases (t.delegate == m)) [
  | inl e ↦ (t, inl refl, (eq_iff t.delegate m).0 e)
  | inr e ↦ let (def, o, same) = listed_def l m (rw e at h) in (def, inr o, same)
]

Occurs-insert_descending :
    (a t : SyncTableDef) (l : List SyncTableDef)
    → Occurs t (insert_descending a l)
    → (t ≡ a) ⊎ Occurs t l
Occurs-insert_descending a t [] o = o
Occurs-insert_descending a t (b ∷ l) o = elim (Bool-cases (leb b.order a.order)) [
  | inl e ↦ rw e at o
  | inr e ↦ elim (rw e at o) [
    | inl same ↦ inr (inl same)
    | inr later ↦ elim (Occurs-insert_descending a t l later) [
      | inl same ↦ inl same
      | inr rest ↦ inr (inr rest)
    ]
  ]
]

Occurs-sort_descending :
    (t : SyncTableDef) (l : List SyncTableDef) → Occurs t (sort_descending l) → Occurs t l
Occurs-sort_descending t [] o = o
Occurs-sort_descending t (a ∷ l) o = elim (Occurs-insert_descending a t (sort_descending l) o) [
  | inl same ↦ inl same
  | inr rest ↦ inr (Occurs-sort_descending t l rest)
]

synced_def :
    (m : String)
    → includes owned_delegates m ≡ true
    → (def : SyncTableDef) × Occurs def sync_tables × (def.delegate ≡ m)
unfolding owned_delegates
synced_def m h =
    let (def, o, same) = listed_def (sort_descending sync_tables) m h in
    (def, Occurs-sort_descending def sync_tables o, same)

module _ (env : Env) (target source : String) (base n : ℕ) (d : Db) (t : World)
    (apart : target ≢ source)
    (moves : AllMoves env target base source sync_tables d (ok n, t)) where
  -- A live row of the guest would have been moved.
  not_live :
      (m id : String) (row : Row)
      → includes owned_delegates m ≡ true
      → stored m id d ≡ some row
      → stored m id t.db ≡ some row
      → get "userId" row ≡ str source
      → id_of row ≡ id
      → is_nullish (get "deletedAt" row) ≡ false
  unfolding matches
  not_live m id row listed before there owned named =
      elim (Bool-cases (is_nullish (get "deletedAt" row))) [
        | inr e ↦ e
        | inl live ↦
            let (def, o, same) = synced_def m listed in
            let fits : matches env.prisma.like (guest_rows env target base source) row ≡ true =
              ground (arith, ap (λ v. value_eq v (str source)) owned, eq_refl source, live) in
            let at : (e : Db) → stored def.delegate (id_of row) e ≡ stored m id e =
              λ e. ap (λ x. stored x (id_of row) e) same ∙ ap (λ x. stored m x e) named in
            let (q, moved, is_moved) = moves.1 def row o (at d ∙ before, fits) in
            let found : q ≡ row = some_same (sym moved ∙ at t.db ∙ there) in
            absurd (apart (ap text (sym is_moved.owned ∙ ap (get "userId") found ∙ owned)))
      ]

  linked :
      (k tbl : String) (r q : Row)
      → get k q ≡ get k r
      → LinksTo source owned_delegates tbl k t.db q
      → LinkedDeleted source tbl k d r
  linked k tbl r q same l =
      let before =
        moves.0.old l.parent l.id l.row l.there (λ e. apart (ap text (sym e ∙ l.owned))) in
      record {
        parent = l.parent;
        id = l.id;
        row = l.row;
        is_column = l.is_column;
        named = sym same ∙ l.named;
        there = before;
        owned = l.owned;
        deleted = not_live l.parent l.id l.row l.listed before l.there l.owned;
      }

  pub moved-IsBrought :
      (def : SyncTableDef) (r : Row) (e : Db)
      → Occurs def sync_tables
      → IsErased source t.db e
      → Has (IsMoved target base r) (stored def.delegate (id_of r) t.db)
      → Has (IsBrought source target base def.delegate d r) (stored def.delegate (id_of r) e)
  moved-IsBrought def r e o gone (q, there, moved) =
      let (p, last, links) =
        gone.rows_kept def.delegate (id_of r) q
          (λ user.
            ground (arith, (delegates_listed env source def o).1, user, eq_iff "user" def.delegate))
          there (λ same. apart (ap text (sym moved.owned ∙ same))) in
      (
        p,
        last,
        record {
          owned = elim (links "userId") [
            | inl x ↦ x ∙ moved.owned
            | inr (nul, l) ↦
                absurd (false≢true (sym (is_link-owner l.parent def.delegate) ∙ l.is_column))
          ];
          fresh = elim (links "seq") [
            | inl x ↦ rw x moved.fresh
            | inr (nul, l) ↦
                absurd (false≢true (sym (is_link-seq l.parent def.delegate) ∙ l.is_column))
          ];
          agrees = λ k u v. elim (links k) [
            | inl x ↦ inl (x ∙ moved.agrees k u v)
            | inr (nul, l) ↦ inr (nul, linked k def.delegate r q (moved.agrees k u v) l)
          ];
        },
      )
