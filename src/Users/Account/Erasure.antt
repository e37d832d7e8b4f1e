-- ===== src/Users/Account/Erasure.antt =====
-- What an erased account leaves behind.
use planner_api.Common.{
  ℕ, String, ◌≡◌, ◌≢◌, refl, sym, ap, ◌∙◌, Bool, true, false, ◌&&◌, Option, none, some, [], ◌==◌,
  eq_iff, eq_refl, arith, All-Occurs, if◌then◌else◌, Bool-cases, inl, inr, Occurs,
}
use planner_api.Store.Value.{Value, Row, str, get}
use planner_api.Store.Query.{value_eq}
use planner_api.Store.Db.{Result, ok, err, Db, stored, remove, drops}
use planner_api.Store.Effects.{stored-remove}
use planner_api.Store.Action.{Action, World, pure, throw, continue, ◌>>=◌, ◌>>◌, Env}
use planner_api.Sync.Registry.{SyncTableDef, sync_tables, includes}
use planner_api.Crud.Rows.{str_of_value_eq}
use planner_api.Users.Account.Clearing.{
  Unlinked, removed, delete_owned-ok, came_from, kept, users_removed, clients-removed,
  last_seq-removed,
}
use planner_api.Users.Account.{
  owned_delegates, delete_owned, delete_clients, delete_sync_state, delete_found, delete_user_row,
  erase_rows,
}

-- The account is gone, with every row that it owned. Of the rows that are not its, no column changes
-- but an optional link to a row that goes: that becomes null.
pub record IsErased (user : String) (d e : Db) : Type 0 where
  pub rows_gone :
      (t : SyncTableDef)
      → Occurs t sync_tables
      → (id : String) (r : Row) → stored t.delegate id e ≡ some r
      → get "userId" r ≢ str user
  pub user_gone : stored "user" user e ≡ none
  pub clients_gone : e.clients user ≡ []
  pub seq_gone : e.last_seq user ≡ none
  pub rows_kept :
      (m id : String) (r : Row)
      → m ≢ "user"
      → stored m id d ≡ some r
      → get "userId" r ≢ str user
      → (q : Row) × (stored m id e ≡ some q) × Unlinked user owned_delegates m d r q
  pub users_kept : (id : String) → id ≢ user → stored "user" id e ≡ stored "user" id d
  pub clients_kept : (v : String) → v ≢ user → e.clients v ≡ d.clients v
  pub seq_kept : (v : String) → v ≢ user → e.last_seq v ≡ d.last_seq v

owns_false : (v : Value) (user : String) → v ≢ str user → value_eq v (str user) ≡ false
owns_false v user n = elim (Bool-cases (value_eq v (str user))) [
  | inl y ↦ absurd (n (str_of_value_eq v user y))
  | inr e ↦ e
]

module _ (env : Env) (user : String) where
  -- What the transaction does once the owned rows are gone.
  unfoldable pub closed : Db → Db
  closed e =
      remove "user" (λ k _. k == user)
        (record e {
          clients = λ u. if user == u then [] else e.clients u;
          last_seq = λ u. if user == u then none else e.last_seq u;
        })

  abbrev close : ℕ → Action ℕ
  close count = do delete_clients user; delete_sync_state user; delete_user_row user; pure count

  close-ok : (c n : ℕ) (s : World) → (close c s).0 ≡ ok n → (close c s).1.db ≡ closed s.db
  unfolding delete_clients delete_sync_state delete_user_row closed ◌>>=◌ pure throw
  close-ok c n s h = go (stored "user" user s.db) h
    where
      mid : World
      mid = record s {
        db = record s.db {
          clients = λ u. if user == u then [] else s.db.clients u;
          last_seq = λ u. if user == u then none else s.db.last_seq u;
        };
      }

      go :
          (o : Option Row)
          → ((delete_found o user >> pure c) mid).0 ≡ ok n
          → ((delete_found o user >> pure c) mid).1.db ≡ closed s.db
      go none h = cc
      go (some r) h = refl

  pub erase_rows-ok :
      (s : World) (n : ℕ)
      → (erase_rows env user s).0 ≡ ok n
      → (erase_rows env user s).1.db ≡ closed (removed env user owned_delegates s.db)
  unfolding erase_rows ◌>>=◌
  erase_rows-ok s n h =
      go (delete_owned env user owned_delegates s) (delete_owned-ok env user owned_delegates s) h
    where
      go :
          (r : Result ℕ × World)
          → ((c : ℕ) → r.0 ≡ ok c → r.1.db ≡ removed env user owned_delegates s.db)
          → (continue r close).0 ≡ ok n
          → (continue r close).1.db ≡ closed (removed env user owned_delegates s.db)
      go (ok c, t) e h = close-ok c n t h ∙ ap closed (e c refl)
      go (err x, t) e h = cc

  unlisted_gone :
      (b : Bool) (o p : Option Row)
      → p ≡ (if drops (λ r. b) o then none else o)
      → p ≡ (if b then none else o)
  unlisted_gone b none p e = ground (arith, e)
  unlisted_gone b (some r) p e = e

  stored-closed :
      (t j : String) (d : Db)
      → stored t j (closed d) ≡ (if ("user" == t) && (j == user) then none else stored t j d)
  unfolding closed
  stored-closed t j d =
      let known =
        stored-remove "user" t j (λ k _. k == user)
          (record d {
            clients = λ u. if user == u then [] else d.clients u;
            last_seq = λ u. if user == u then none else d.last_seq u;
          }) in
      let merged = unlisted_gone (j == user) (stored t j d) _ refl in ground (arith, known, merged)

  pub delegates_listed :
      (t : SyncTableDef)
      → Occurs t sync_tables
      → (includes owned_delegates t.delegate ≡ true) × (("user" == t.delegate) ≡ false)
  unfolding owned_delegates
  delegates_listed t o =
      All-Occurs
        (λ t. (includes owned_delegates t.delegate ≡ true) × (("user" == t.delegate) ≡ false)) t
        sync_tables
        (
          (refl, refl),
          (
            (refl, refl),
            (
              (refl, refl),
              (
                (refl, refl),
                (
                  (refl, refl),
                  (
                    (refl, refl),
                    (
                      (refl, refl),
                      (
                        (refl, refl),
                        (
                          (refl, refl),
                          ((refl, refl), ((refl, refl), ((refl, refl), ((refl, refl), tt)))),
                        ),
                      ),
                    ),
                  ),
                ),
              ),
            ),
          ),
        )
        o

  users_unlisted : includes owned_delegates "user" ≡ false
  unfolding owned_delegates
  users_unlisted = refl

  differs : (a b : String) → a ≢ b → (a == b) ≡ false
  differs a b n = ground (arith, eq_iff a b, n)

  -- Outside the users' table the end of the transaction changes no row.
  closed_rows :
      (t j : String) (d : Db) → ("user" == t) ≡ false → stored t j (closed d) ≡ stored t j d
  closed_rows t j d n = stored-closed t j d ∙ rw n refl

  pub closed-IsErased : (d : Db) → IsErased user d (closed (removed env user owned_delegates d))
  unfolding closed
  closed-IsErased d = record {
    rows_gone = λ t o id r there owned.
        let (listed, domain) = delegates_listed t o in
        let (q, before, same, gone) =
          came_from env user owned_delegates t.delegate id d r
            (sym (closed_rows t.delegate id (removed env user owned_delegates d) domain) ∙ there) in
        ground (arith, gone listed, ap (λ v. value_eq v (str user)) owned, eq_refl user);
    user_gone =
        ground
          (arith, stored-closed "user" user (removed env user owned_delegates d), eq_refl user);
    clients_gone = ground (arith, eq_refl user);
    seq_gone = ground (arith, eq_refl user);
    rows_kept = λ m id r n there other.
        let (q, last, links) =
          kept env user owned_delegates m id d r there (owns_false (get "userId" r) user other) in
        (
          q,
          closed_rows m id (removed env user owned_delegates d) (differs "user" m (λ e. n (sym e)))
              ∙ last,
          links,
        );
    users_kept = λ id n.
        stored-closed "user" id (removed env user owned_delegates d)
        ∙ rw (differs id user n) (users_removed env user owned_delegates id d users_unlisted);
    clients_kept = λ v n. ground (
      arith,
      differs user v (λ e. n (sym e)),
      ap (λ f. f v) (clients-removed env user owned_delegates d),
    );
    seq_kept = λ v n. ground (
      arith,
      differs user v (λ e. n (sym e)),
      ap (λ f. f v) (last_seq-removed env user owned_delegates d),
    );
  }
