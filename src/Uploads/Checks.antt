-- ===== src/Uploads/Checks.antt =====
-- What a guest's quota and the confirmation of an upload guarantee.
use planner_api.Common.{
  ℕ, ◌<◌, String, ◌≡◌, refl, sym, ap, ◌∙◌, Bool, true, false, not, Option, none, some, List, [],
  inl, inr, ◌⊎◌, ◌∷◌, eqb, leb, arith,
}
use planner_api.Store.Value.{Value, Row, get, truthy, text}
use planner_api.Store.Query.{Where}
use planner_api.Store.Db.{ok, not_found, stored}
use planner_api.Store.Action.{
  Action, World, pure, throw, throw_if, ◌>>=◌, ◌>>◌, Env, now, head_object,
}
use planner_api.Store.Action
use planner_api.Store.Outcome.{
  bind-ok, ok_same, throw_if-ok, IsRead, IsRead-pure, IsRead-throw, IsRead-if, IsRead-bind,
  IsRead-find_first, IsRead-throw_if,
}
use planner_api.Crud.{find_one, assert_owned, assert_owned_or_null, refuse_none, or_throw}
use planner_api.Crud.Rows.{IsFound, find_one-ok}
use planner_api.Resources.{assert_links}
use planner_api.Storage.{
  ObjectStore, PresignedUpload, key_prefix, assert_owned_key, head, content_length, require_client,
  calls_so_far, note_call,
}
use planner_api.Uploads.{
  RequestUpload, held_where, guest_check, assert_guest_quota, create_attachment, confirmed_size,
  confirm_attachment, confirm_voice_note, attachment_links,
}
use package.text.Mathlib.Text.{starts_with}

count_value :
    (env : Env) (m : String) (w : Where) (t u : World) (n : ℕ)
    → Action.count env m w t ≡ (ok n, u)
    → ok (env.prisma.count m w t.db) ≡ ok n
unfolding Action.count
count_value env m w t u n e = ap (λ r. r.0) e

module _ (env : Env) (user : String) where
  IsRead-assert_owned_or_null :
      (m : String) (id : Value) → IsRead (assert_owned_or_null env user m id)
  unfolding assert_owned_or_null assert_owned
  IsRead-assert_owned_or_null m id =
      IsRead-if (truthy id) _ _ (IsRead-bind _ _ (IsRead-find_first env m _) λ o. refuse o)
        (IsRead-pure tt)
    where
      refuse : (o : Option Row) → IsRead (refuse_none env o m)
      refuse none = IsRead-throw _
      refuse (some r) = IsRead-pure tt

  IsRead-assert_links :
      (l : List (String × String)) (dto : Row) → IsRead (assert_links env user l dto)
  unfolding assert_links
  IsRead-assert_links [] dto = IsRead-pure tt
  IsRead-assert_links ((m, column) ∷ l) dto =
      IsRead-bind _ _ (IsRead-assert_owned_or_null m (get column dto))
        λ u. IsRead-assert_links l dto

  IsRead-find_one : (m id : String) (inc : Bool) → IsRead (find_one env m user id inc)
  unfolding find_one
  IsRead-find_one m id inc = IsRead-bind _ _ (IsRead-find_first env m _) λ o. row o
    where
      row : (o : Option Row) → IsRead (or_throw o (throw (not_found m)))
      row none = IsRead-throw _
      row (some r) = IsRead-pure r

-- The state after a read that returned.
read_state : {A : Type 0} (m : Action A) (s t : World) (a : A) → IsRead m → m s ≡ (ok a, t) → t ≡ s
read_state m s t a k e = sym (ap (λ r. r.1) e) ∙ k.at s

-- A guest that creates an attachment held fewer than the configured number of them.
pub create_attachment-quota :
    (env : Env) (store : ObjectStore) (user : String) (max : ℕ) (dto : Row) (upload : RequestUpload)
    (s : World) (x : Row × PresignedUpload)
    → (create_attachment env store user max true dto upload s).0 ≡ ok x
    → env.prisma.count "attachment" (held_where user) s.db < max
unfolding create_attachment assert_guest_quota
create_attachment-quota env store user max dto upload s x h =
    let (a, t, e, rest) = bind-ok (assert_links env user attachment_links dto) _ s x h in
    let same = read_state _ s t a (IsRead-assert_links env user attachment_links dto) e in
    let (b, t', e', rest') = bind-ok (guest_check env store user max true) _ t x rest in
    let (held, u, counted, fits) =
      bind-ok (Action.count env "attachment" (held_where user)) _ t b (ap (λ r. r.0) e') in
    let few = throw_if-ok (leb max held) _ u fits in
    let known = ok_same (count_value env "attachment" (held_where user) t u held counted) in
    ground (arith, few, known, ap (λ w. env.prisma.count "attachment" (held_where user) w.db) same)

-- What a confirmed upload rests on: the row is a live one of the caller, the key is in the caller's
-- prefix, and the store reported an object of that many bytes, more than none.
pub record IsVerified (env : Env) (store : ObjectStore) (user model id key : String) (n : ℕ)
    (s : World) : Type 0 where
  pub row : Row
  pub found : stored model id s.db ≡ some row
  pub live : IsFound user id false row
  pub owned : starts_with key (key_prefix user) ≡ true
  pub present : store.head_object s.calls key ≡ some (some n)
  pub not_empty : 0 < n

true_of_not : (b : Bool) → not b ≡ false → b ≡ true
true_of_not true h = refl
true_of_not false h = sym h

reported :
    (store : ObjectStore) (o : Option (Option ℕ)) (n : ℕ) (s : World)
    → (content_length store o s).0 ≡ ok n
    → (o ≡ some (some n)) ⊎ (n ≡ 0)
unfolding pure throw
reported store none n s h = cc
reported store (some none) n s h = inr (sym (ok_same h))
reported store (some (some m)) n s h = inl (ap (λ k. some (some k)) (ok_same h))

head-ok :
    (store : ObjectStore) (key : String) (n : ℕ) (s : World)
    → (head store key s).0 ≡ ok n
    → (store.head_object s.calls key ≡ some (some n)) ⊎ (n ≡ 0)
unfolding head require_client pure
head-ok store key n s h =
    let (a, t, e, h1) = bind-ok (require_client store) _ s n h in
    let same = read_state _ s t a (IsRead-throw_if _ _) e in
    let (calls, t1, e1, h2) = bind-ok calls_so_far _ t n h1 in
    let (b, t2, e2, h3) = bind-ok (note_call (head_object key)) _ t1 n h2 in
    let known = reported store (store.head_object calls key) n t2 h3 in
    let called : t.calls ≡ calls = ok_same (ap (λ r. r.0) e1) in
    rw (← ap (λ w. w.calls) same) (rw called known)

confirmed_size-IsVerified :
    (env : Env) (store : ObjectStore) (user model id key : String) (n : ℕ) (s : World)
    → (confirmed_size env store user model id key s).0 ≡ ok n
    → IsVerified env store user model id key n s
unfolding confirmed_size assert_owned_key pure
confirmed_size-IsVerified env store user model id key n s h =
    let (r, t, e, h1) = bind-ok (find_one env model user id false) _ s n h in
    let same = read_state _ s t r (IsRead-find_one env user model id false) e in
    let (a, t1, e1, h2) = bind-ok (assert_owned_key user key) _ t n h1 in
    let same1 = read_state _ t t1 a (IsRead-throw_if _ _) e1 in
    let (m, t2, e2, h3) = bind-ok (head store key) _ t1 n h2 in
    let (b, t3, e3, h4) = bind-ok (throw_if (eqb m 0) _) _ t2 n h3 in
    let sized = throw_if-ok (eqb m 0) _ t2 (ap (λ x. x.0) e3) in
    let size : m ≡ n = ok_same h4 in
    let (there, live) = find_one-ok env model user id false s r (ap (λ x. x.0) e) in
    record {
      row = r;
      found = there;
      live = live;
      owned = true_of_not _ (throw_if-ok _ _ t (ap (λ x. x.0) e1));
      present = elim (head-ok store key m t1 (ap (λ x. x.0) e2)) [
        | inl p ↦ rw (← size) (ap (λ w. store.head_object w.calls key) (sym (same1 ∙ same)) ∙ p)
        | inr p ↦ absurd (ground (arith, sized, p))
      ];
      not_empty = ground (arith, sized, size);
    }

-- An attachment is confirmed only if its row is a live one of the caller, the key is in the caller's
-- prefix, and the store reported an object that is not empty.
pub confirm_attachment-IsVerified :
    (env : Env) (store : ObjectStore) (user id key : String) (s : World) (r : Row)
    → (confirm_attachment env store user id key s).0 ≡ ok r
    → (n : ℕ) × IsVerified env store user "attachment" id key n s
unfolding confirm_attachment
confirm_attachment-IsVerified env store user id key s r h =
    let (n, t, e, rest) = bind-ok (confirmed_size env store user "attachment" id key) _ s r h in
    (n, confirmed_size-IsVerified env store user "attachment" id key n s (ap (λ x. x.0) e))

-- A voice note is confirmed only if its row is a live one of the caller, the key is in the caller's
-- prefix, and the store reported an object that is not empty.
pub confirm_voice_note-IsVerified :
    (env : Env) (store : ObjectStore) (user id key : String) (s : World) (r : Row)
    → (confirm_voice_note env store user id key s).0 ≡ ok r
    → (n : ℕ) × IsVerified env store user "voiceNote" id key n s
unfolding confirm_voice_note
confirm_voice_note-IsVerified env store user id key s r h =
    let (n, t, e, rest) = bind-ok (confirmed_size env store user "voiceNote" id key) _ s r h in
    (n, confirmed_size-IsVerified env store user "voiceNote" id key n s (ap (λ x. x.0) e))
