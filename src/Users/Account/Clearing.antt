-- ===== src/Users/Account/Clearing.antt =====
-- The deletion of what a user owns, table after table, and the links to it that become null.
use mathlib.Core.Bool.{false≢true}
use planner_api.Common.{
  ℕ, ◌+◌, String, ◌≡◌, refl, sym, ap, ◌∙◌, Bool, true, false, ◌&&◌, Option, none, some, List, [],
  ◌∷◌, ◌==◌, eq_iff, eq_refl, arith, if◌then◌else◌, Bool-cases, inl, inr, ◌⊎◌,
}
use planner_api.Store.Value.{Value, Row, null, str, get}
use planner_api.Store.Query.{matches, value_eq}
use planner_api.Store.Db.{
  Exception, Result, ok, err, Db, stored, drops, unlink, delete_rows, is_restricted, refers, clear,
}
use planner_api.Store.Links.{is_link, is_link-owner, is_link-user}
use planner_api.Store.Effects.{
  stored-unlink_own, stored-unlink_other, get-clear, clear_none, map_option,
}
use planner_api.Store.Action.{Action, World, pure, throw, continue, ◌>>=◌, Env}
use planner_api.Store.Action
use planner_api.Crud.Rows.{str_of_value_eq}
use planner_api.Tasks.{any_order}
use planner_api.Sync.Registry.{includes}
use planner_api.Users.Account.{owned_by, delete_owned}

-- The column of a row of table `t` holds the id of a row of the user in one of the tables.
pub record LinksTo (user : String) (ms : List String) (t k : String) (d : Db) (r : Row)
    : Type 0 where
  pub parent : String
  pub id : String
  pub row : Row
  pub listed : includes ms parent ≡ true
  pub is_column : is_link parent t k ≡ true
  pub named : get k r ≡ str id
  pub there : stored parent id d ≡ some row
  pub owned : get "userId" row ≡ str user

-- `q` is `r`, but that links to rows of the user may be null.
abbrev pub Unlinked : String → List String → String → Db → Row → Row → Type 0
Unlinked user ms t d r q =
    (k : String) → (get k q ≡ get k r) ⊎ ((get k q ≡ null) × LinksTo user ms t k d r)

module _ (env : Env) (user : String) where
  abbrev pub owns : Row → Bool
  owns r = value_eq (get "userId" r) (str user)

  abbrev pub test : String → Row → Bool
  test k = matches env.prisma.like (owned_by user)

  abbrev pub removed : List String → Db → Db
  removed [] d = d
  removed (m ∷ ms) d = removed ms (unlink m test d)

  added :
      (c n : ℕ) (e : Db) (x : Result ℕ × World)
      → ((k : ℕ) → x.0 ≡ ok k → x.1.db ≡ e)
      → (continue x (λ rest. pure (c + rest))).0 ≡ ok n
      → (continue x (λ rest. pure (c + rest))).1.db ≡ e
  unfolding pure
  added c n e (ok k, t) f h = f k refl
  added c n e (err y, t) f h = cc

  pub delete_owned-ok :
      (ms : List String) (s : World) (n : ℕ)
      → (delete_owned env user ms s).0 ≡ ok n
      → (delete_owned env user ms s).1.db ≡ removed ms s.db
  unfolding delete_owned Action.delete_many ◌>>=◌ pure delete_rows
  delete_owned-ok [] s n h = refl
  delete_owned-ok (m ∷ ms) s n h =
      let law = env.prisma.delete_many_lem m (owned_by user) any_order s.db in
      elim (Bool-cases (is_restricted m test s.db)) [
        | inl e ↦ absurd (refused (rw e at (rw law at h)))
        | inr e ↦ rw law (
            rw e (
              added _ n (removed ms (unlink m test s.db)) _
                (λ k. delete_owned-ok ms (record s { db = unlink m test s.db }) k)
                (rw e at (rw law at h))))
      ]
    where
      refused : {x : Exception} → err x ≡ ok n → ⊥
      refused p = cc

  drops-owned : (o : Option Row) (j : String) → drops (test j) o ≡ drops owns o
  unfolding matches
  drops-owned none j = refl
  drops-owned (some r) j = ground arith

  kept_own :
      (o : Option Row) (r : Row)
      → (if drops owns o then none else o) ≡ some r
      → (o ≡ some r) × (owns r ≡ false)
  kept_own none r h = cc
  kept_own (some q) r h = elim (Bool-cases (owns q)) [
    | inl e ↦ absurd (no_some (rw e at h))
    | inr e ↦ let same : some q ≡ some r = rw e at h in (same, rw (← some_same same) e)
  ]
    where
      no_some : none ≡ some r → ⊥
      no_some p = cc

      some_same : {a b : Row} → some a ≡ some b → a ≡ b
      some_same p = cc

  -- What was stored before a table was dealt with.
  pub came_once :
      (m t j : String) (d : Db) (q : Row)
      → stored t j (unlink m test d) ≡ some q
      → (r : Row) × (stored t j d ≡ some r)
        × (get "userId" q ≡ get "userId" r)
        × ((m == t) ≡ true → owns q ≡ false)
  came_once m t j d q h = elim (Bool-cases (m == t)) [
    | inl e ↦
        let same : m ≡ t = (eq_iff m t).0 e in
        let at_m : stored m j (unlink m test d) ≡ some q =
          ap (λ x. stored x j (unlink m test d)) same ∙ h in
        let (there, mine) = kept_own (stored m j d) q (
          ap (λ b. if b then none else stored m j d) (sym (drops-owned (stored m j d) j))
          ∙ sym (stored-unlink_own m j test d)
          ∙ at_m) in
        (q, ap (λ x. stored x j d) (sym same) ∙ there, refl, λ _. mine)
    | inr e ↦
        let (r, there, cleared) =
          cleared_from (stored t j d) (sym (stored-unlink_other m t j test d e) ∙ h) in
        (r, there, ap (get "userId") cleared ∙ same_owner r, λ y. cc)
  ]
    where
      cleared_from :
          (o : Option Row)
          → map_option (clear (is_link m t) (refers m test d)) o ≡ some q
          → (r : Row) × (o ≡ some r) × (q ≡ clear (is_link m t) (refers m test d) r)
      cleared_from none p = cc
      cleared_from (some r) p = (r, refl, cc)

      same_owner :
          (r : Row) → get "userId" (clear (is_link m t) (refers m test d) r) ≡ get "userId" r
      same_owner r =
          get-clear (is_link m t) (refers m test d) "userId" r refl ∙ rw (is_link-owner m t) refl

  -- What is left was there before, as its owner's, and is not the user's.
  pub came_from :
      (ms : List String) (t j : String) (d : Db) (q : Row)
      → stored t j (removed ms d) ≡ some q
      → (r : Row) × (stored t j d ≡ some r)
        × (get "userId" q ≡ get "userId" r)
        × (includes ms t ≡ true → owns q ≡ false)
  came_from [] t j d q h = (q, h, refl, λ e. cc)
  came_from (m ∷ ms) t j d q h =
      let (r1, there1, same1, gone1) = came_from ms t j (unlink m test d) q h in
      let (r, there, same, gone) = came_once m t j d r1 there1 in
      (
        r,
        there,
        same1 ∙ same,
        λ e. elim (Bool-cases (m == t)) [
          | inl y ↦ ap (λ v. value_eq v (str user)) same1 ∙ gone y
          | inr n ↦ gone1 (rw n at e)
        ],
      )

  -- A link of one row to rows that go.
  Cut : String → String → Db → Row → String → Type 0
  Cut m t d r k =
      (id : String) × (p : Row) × (is_link m t k ≡ true)
      × (get k r ≡ str id)
      × (stored m id d ≡ some p)
      × (owns p ≡ true)

  refers-Cut :
      (m t k : String) (d : Db) (r : Row) (v : Value)
      → get k r ≡ v
      → is_link m t k ≡ true
      → refers m test d v ≡ true
      → Cut m t d r k
  unfolding Cut
  refers-Cut m t k d r (str id) e l h = found (stored m id d) refl h
    where
      found : (o : Option Row) → stored m id d ≡ o → drops (test id) o ≡ true → Cut m t d r k
      found none f g = cc
      found (some p) f g = (id, p, l, e, f, sym (drops-owned (some p) id) ∙ g)
  refers-Cut m t k d r _ e l h = cc

  -- One table: a row that is not the user's stays, but for links.
  kept_once :
      (m t j : String) (d : Db) (r : Row)
      → stored t j d ≡ some r
      → owns r ≡ false
      → (q : Row) × (stored t j (unlink m test d) ≡ some q)
        × (owns q ≡ false)
        × ((k : String) → (get k q ≡ get k r) ⊎ ((get k q ≡ null) × Cut m t d r k))
  kept_once m t j d r there mine = elim (Bool-cases (m == t)) [
    | inl e ↦
        let same : m ≡ t = (eq_iff m t).0 e in
        let at_m : stored m j d ≡ some r = ap (λ x. stored x j d) same ∙ there in
        let stays : stored m j (unlink m test d) ≡ some r =
          stored-unlink_own m j test d
          ∙ ap (λ b. if b then none else stored m j d)
              (ap (drops (test j)) at_m ∙ drops-owned (some r) j ∙ mine)
          ∙ at_m in
        (r, ap (λ x. stored x j (unlink m test d)) (sym same) ∙ stays, mine, λ k. inl refl)
    | inr e ↦
        let q = clear (is_link m t) (refers m test d) r in
        (
          q,
          stored-unlink_other m t j test d e
              ∙ ap (map_option (clear (is_link m t) (refers m test d))) there,
          ap (λ v. value_eq v (str user)) (at "userId" ∙ rw (is_link-owner m t) refl) ∙ mine,
          λ k. column k,
        )
  ]
    where
      at :
          (k : String)
          → get k (clear (is_link m t) (refers m test d) r)
            ≡ (if is_link m t k && refers m test d (get k r) then null else get k r)
      at k = get-clear (is_link m t) (refers m test d) k r refl

      column :
          (k : String)
          → (get k (clear (is_link m t) (refers m test d) r) ≡ get k r)
            ⊎ ((get k (clear (is_link m t) (refers m test d) r) ≡ null) × Cut m t d r k)
      column k = elim (Bool-cases (is_link m t k)) [
        | inr n ↦ inl (at k ∙ rw n refl)
        | inl y ↦ elim (Bool-cases (refers m test d (get k r))) [
          | inr n ↦ inl (at k ∙ rw y (rw n refl))
          | inl z ↦ inr (at k ∙ rw y (rw z refl), refers-Cut m t k d r (get k r) refl y z)
        ]
      ]

  Cut-LinksTo :
      (m t k : String) (ms : List String) (d : Db) (r : Row)
      → Cut m t d r k
      → LinksTo user (m ∷ ms) t k d r
  unfolding Cut
  Cut-LinksTo m t k ms d r (id, p, l, e, there, mine) = record {
    parent = m;
    id = id;
    row = p;
    listed = rw (eq_refl m) refl;
    is_column = l;
    named = e;
    there = there;
    owned = str_of_value_eq (get "userId" p) user mine;
  }

  links_before :
      (m t k : String) (ms : List String) (d : Db) (r r1 : Row)
      → get k r1 ≡ get k r
      → LinksTo user ms t k (unlink m test d) r1
      → LinksTo user (m ∷ ms) t k d r
  links_before m t k ms d r r1 same l =
      let (p, there, owner, gone) = came_once m l.parent l.id d l.row l.there in
      record {
        parent = l.parent;
        id = l.id;
        row = p;
        listed = either (m == l.parent) l.listed;
        is_column = l.is_column;
        named = sym same ∙ l.named;
        there = there;
        owned = sym owner ∙ l.owned;
      }
    where
      either : {c : Bool} → (b : Bool) → c ≡ true → (if b then true else c) ≡ true
      either true h = refl
      either false h = h

  -- All tables: a row that is not the user's stays, but for links to what was the user's.
  pub kept :
      (ms : List String) (t j : String) (d : Db) (r : Row)
      → stored t j d ≡ some r
      → owns r ≡ false
      → (q : Row) × (stored t j (removed ms d) ≡ some q) × Unlinked user ms t d r q
  kept [] t j d r there mine = (r, there, λ k. inl refl)
  kept (m ∷ ms) t j d r there mine =
      let (r1, there1, mine1, step) = kept_once m t j d r there mine in
      let (q, last, rest) = kept ms t j (unlink m test d) r1 there1 mine1 in
      (
        q,
        last,
        λ k. elim (step k) [
          | inr (nul, cut) ↦
              inr (elim (rest k) [ inl e ↦ e ∙ nul | inr (e, _) ↦ e ], Cut-LinksTo m t k ms d r cut)
          | inl same ↦ elim (rest k) [
            | inl e ↦ inl (e ∙ same)
            | inr (e, l) ↦ inr (e, links_before m t k ms d r r1 same l)
          ]
        ],
      )

  -- No user is touched.
  pub users_removed :
      (ms : List String) (j : String) (d : Db)
      → includes ms "user" ≡ false
      → stored "user" j (removed ms d) ≡ stored "user" j d
  users_removed [] j d h = refl
  users_removed (m ∷ ms) j d h = elim (Bool-cases (m == "user")) [
    | inl e ↦ absurd (false≢true (sym (rw e at h)))
    | inr e ↦
        users_removed ms j (unlink m test d) (rw e at h)
        ∙ stored-unlink_other m "user" j test d e
        ∙ same (stored "user" j d)
  ]
    where
      same : (o : Option Row) → map_option (clear (is_link m "user") (refers m test d)) o ≡ o
      same none = refl
      same (some r) =
          ap some (clear_none (is_link m "user") (refers m test d) r (λ k. is_link-user m k))

  pub clients-removed : (ms : List String) (d : Db) → (removed ms d).clients ≡ d.clients
  unfolding unlink
  clients-removed [] d = refl
  clients-removed (m ∷ ms) d = clients-removed ms (unlink m test d)

  pub last_seq-removed : (ms : List String) (d : Db) → (removed ms d).last_seq ≡ d.last_seq
  unfolding unlink
  last_seq-removed [] d = refl
  last_seq-removed (m ∷ ms) d = last_seq-removed ms (unlink m test d)
