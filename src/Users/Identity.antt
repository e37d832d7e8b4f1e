-- ===== src/Users/Identity.antt =====
-- Whom the cached and the returned principals stand for.
use planner_api.Common.{
  String, ◌≡◌, Option, none, some, List, [], ◌∷◌, ◌==◌, eq_iff, arith, length, drop, leb, All, inl,
  inr, Bool-cases,
}
use planner_api.Store.Value.{Row, get, text}
use planner_api.Store.Db.{Db, stored, store, put_entry, lookup}
use planner_api.Store.Effects.{stored-store}
use planner_api.Store.Action.{World, CachedPrincipal}
use planner_api.Users.{principal_cache_max, evicted}

abbrev pub uid_of : Row → String
uid_of r = text (get "firebaseUid" r)

-- The id is that of a stored user with the Firebase uid.
abbrev pub Names : String → String → Db → Type 0
Names id uid d = (r : Row) × (stored "user" id d ≡ some r) × (uid_of r ≡ uid)

-- A cache entry stands for the stored user of its key.
abbrev pub IsRight : Db → String × CachedPrincipal → Type 0
IsRight d e = (e.1.firebase_uid ≡ e.0) × Names e.1.id e.0 d

abbrev pub CacheIsRight : World → Type 0
CacheIsRight s = All (IsRight s.db) s.principals

-- A row that goes over another one keeps the uid.
abbrev pub Replaces : Option Row → Row → Type 0
Replaces none r = Unit
Replaces (some q) r = uid_of r ≡ uid_of q

pub Names-store :
    (j : String) (new : Row) (d : Db) (id uid : String)
    → Replaces (stored "user" j d) new
    → Names id uid d
    → Names id uid (store "user" j new d)
Names-store j new d id uid fits (r, there, named) = elim (Bool-cases (j == id)) [
  | inl e ↦ (
    new,
    ground (arith, stored-store "user" j "user" id new d, e),
    same (stored "user" j d) fits (rw ((eq_iff j id).0 e) there),
  )
  | inr e ↦ (r, ground (arith, stored-store "user" j "user" id new d, e, there), named)
]
  where
    same : (o : Option Row) → Replaces o new → o ≡ some r → uid_of new ≡ uid
    same none f h = cc
    same (some q) f h = cc

pub All-imp :
    {A : Type 0} (P Q : A → Type 0) (l : List A) → ((a : A) → P a → Q a) → All P l → All Q l
All-imp P Q [] f h = tt
All-imp P Q (x ∷ l) f h = (f x h.0, All-imp P Q l f h.1)

pub All-put_entry :
    {A : Type 0} (P : String × A → Type 0) (k : String) (a : A) (l : List (String × A))
    → P (k, a)
    → All P l
    → All P (put_entry k a l)
All-put_entry P k a [] p h = (p, tt)
All-put_entry P k a ((j, b) ∷ l) p h = elim (Bool-cases (j == k)) [
  | inl e ↦ rw e (p, h.1)
  | inr e ↦ rw e (h.0, All-put_entry P k a l p h.1)
]

pub All-lookup :
    {A : Type 0} (P : String × A → Type 0) (k : String) (a : A) (l : List (String × A))
    → All P l
    → lookup k l ≡ some a
    → P (k, a)
All-lookup P k a [] h e = cc
All-lookup P k a ((j, b) ∷ l) h e = elim (Bool-cases (j == k)) [
  | inl y ↦
      let key = (eq_iff j k).0 y in
      let same : b ≡ a = ground (arith, e, y) in rw (← key) (rw (← same) h.0)
  | inr n ↦ All-lookup P k a l h.1 (ground (arith, e, n))
]

pub All-evicted :
    (P : String × CachedPrincipal → Type 0) (l : List (String × CachedPrincipal))
    → All P l
    → All P (evicted l)
All-evicted P l h = elim (Bool-cases (leb principal_cache_max (length l))) [
  | inl e ↦ rw e (rest l h)
  | inr e ↦ rw e h
]
  where
    rest : (l : List (String × CachedPrincipal)) → All P l → All P (drop 1 l)
    rest [] h = tt
    rest (x ∷ l) h = h.1
