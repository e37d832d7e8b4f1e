-- ===== src/Store/Outcome.antt =====
-- What can be said of an action whatever world it starts in, with a rule for each way to build one.
use planner_api.Common.{String, ◌≡◌, ◌≢◌, refl, ◌∙◌, Bool, true, false, arith, if◌then◌else◌}
use planner_api.Store.Query.{Where}
use planner_api.Store.Db.{Exception, Result, ok, err, Order}
use planner_api.Store.Action.{
  Action, World, pure, throw, throw_if, transaction, continue, settle, ◌>>=◌, Env, now, random_uuid,
}
use planner_api.Store.Action

-- A postcondition that every result of the action meets.
pub record Ensures {A : Type 0} (P : A → Type 0) (m : Action A) : Type 0 where
  pub at : (s : World) (a : A) → (m s).0 ≡ ok a → P a

module _ {A : Type 0} {P : A → Type 0} where
  pub Ensures-pure : (a : A) → P a → Ensures P (pure a)
  unfolding pure
  Ensures-pure a h = record { at = λ s b e. let same : a ≡ b = ground arith in rw (← same) h }

  pub Ensures-bind :
      {B : Type 0} (m : Action B) (f : B → Action A)
      → ((b : B) → Ensures P (f b))
      → Ensures P (m >>= f)
  unfolding ◌>>=◌
  Ensures-bind {B} m f kf = record { at = λ s a e. go (m s) a e }
    where
      go : (r : Result B × World) (a : A) → (continue r f).0 ≡ ok a → P a
      go (ok b, t) a e = (kf b).at t a e
      go (err x, t) a e = cc

  pub Ensures-bind_post :
      {B : Type 0} (Q : B → Type 0) (m : Action B) (f : B → Action A)
      → Ensures Q m
      → ((b : B) → Q b → Ensures P (f b))
      → Ensures P (m >>= f)
  unfolding ◌>>=◌
  Ensures-bind_post {B} Q m f km kf = record { at = λ s a e. go (m s) (km.at s) a e }
    where
      go :
          (r : Result B × World)
          → ((b : B) → r.0 ≡ ok b → Q b)
          → (a : A) → (continue r f).0 ≡ ok a
          → P a
      go (ok b, t) q a e = (kf b (q b refl)).at t a e
      go (err x, t) q a e = cc

-- The action never throws.
pub record IsQuiet {A : Type 0} (m : Action A) : Type 0 where
  pub at : (s : World) (e : Exception) → (m s).0 ≢ err e

module _ {A : Type 0} where
  pub IsQuiet-pure : (a : A) → IsQuiet (pure a)
  unfolding pure
  IsQuiet-pure a = record { at = λ s e h. cc }

  pub IsQuiet-bind :
      {B : Type 0} (m : Action B) (f : B → Action A)
      → IsQuiet m
      → ((b : B) → IsQuiet (f b))
      → IsQuiet (m >>= f)
  unfolding ◌>>=◌
  IsQuiet-bind {B} m f km kf = record { at = λ s e h. go (m s) (km.at s) e h }
    where
      go :
          (r : Result B × World)
          → ((e : Exception) → r.0 ≢ err e)
          → (e : Exception) → (continue r f).0 ≢ err e
      go (ok b, t) n e h = (kf b).at t e h
      go (err x, t) n e h = n x refl

pub IsQuiet-now : (env : Env) → IsQuiet (now env)
unfolding now
IsQuiet-now env = record { at = λ s e h. cc }

-- A throw leaves the database alone.
pub record IsAtomic {A : Type 0} (m : Action A) : Type 0 where
  pub at : (s : World) (e : Exception) → (m s).0 ≡ err e → (m s).1.db ≡ s.db

module _ {A B : Type 0} where
  pub transaction-bind :
      (m : Action A) (f : A → Action B) (s : World) (b : B)
      → ((transaction m >>= f) s).0 ≡ ok b
      → (a : A) × (t : World) × ((m s).0 ≡ ok a) × ((f a t).0 ≡ ok b)
  unfolding ◌>>=◌ transaction
  transaction-bind m f s b h = go (m s) h
    where
      go :
          (r : Result A × World)
          → (continue (settle s.db r) f).0 ≡ ok b
          → (a : A) × (t : World) × (r.0 ≡ ok a) × ((f a t).0 ≡ ok b)
      go (ok a, t) e = (a, t, refl, e)
      go (err x, t) e = cc

  -- What follows a transaction must not throw.
  pub transaction-IsAtomic :
      (m : Action A) (f : A → Action B) → ((a : A) → IsQuiet (f a)) → IsAtomic (transaction m >>= f)
  unfolding ◌>>=◌ transaction
  transaction-IsAtomic m f never = record { at = λ s e h. go s (m s) e h }
    where
      go :
          (s : World) (r : Result A × World) (e : Exception)
          → (continue (settle s.db r) f).0 ≡ err e
          → (continue (settle s.db r) f).1.db ≡ s.db
      go s (ok a, t) e h = absurd ((never a).at t e h)
      go s (err x, t) e h = refl

pub ok_same : {A : Type 0} {a b : A} → ok a ≡ ok b → a ≡ b
ok_same p = cc

pub throw_if-ok : (b : Bool) (e : Exception) (s : World) → (throw_if b e s).0 ≡ ok tt → b ≡ false
unfolding throw_if throw pure
throw_if-ok false e s h = refl
throw_if-ok true e s h = cc

module _ {A B : Type 0} where
  -- What a block that returned did first.
  pub bind-ok :
      (m : Action A) (f : A → Action B) (s : World) (b : B)
      → ((m >>= f) s).0 ≡ ok b
      → (a : A) × (t : World) × (m s ≡ (ok a, t)) × ((f a t).0 ≡ ok b)
  unfolding ◌>>=◌
  bind-ok m f s b h = go (m s) refl h
    where
      go :
          (r : Result A × World)
          → m s ≡ r
          → (continue r f).0 ≡ ok b
          → (a : A) × (t : World) × (m s ≡ (ok a, t)) × ((f a t).0 ≡ ok b)
      go (ok a, t) e h = (a, t, e, h)
      go (err x, t) e h = cc

-- The action changes nothing.
pub record IsRead {A : Type 0} (m : Action A) : Type 0 where
  pub at : (s : World) → (m s).1 ≡ s

module _ {A : Type 0} where
  pub IsRead-pure : (a : A) → IsRead (pure a)
  unfolding pure
  IsRead-pure a = record { at = λ s. refl }

  pub IsRead-throw : (e : Exception) → IsRead (throw {A = A} e)
  unfolding throw
  IsRead-throw e = record { at = λ s. refl }

  pub IsRead-if : (b : Bool) (m n : Action A) → IsRead m → IsRead n → IsRead (if b then m else n)
  IsRead-if true m n km kn = km
  IsRead-if false m n km kn = kn

  pub IsRead-bind :
      {B : Type 0} (m : Action B) (f : B → Action A)
      → IsRead m
      → ((b : B) → IsRead (f b))
      → IsRead (m >>= f)
  unfolding ◌>>=◌
  IsRead-bind {B} m f km kf = record { at = λ s. go (m s) ∙ km.at s }
    where
      go : (r : Result B × World) → (continue r f).1 ≡ r.1
      go (ok b, t) = (kf b).at t
      go (err e, t) = refl

pub IsRead-throw_if : (b : Bool) (e : Exception) → IsRead (throw_if b e)
unfolding throw_if
IsRead-throw_if true e = IsRead-throw e
IsRead-throw_if false e = IsRead-pure tt

module _ (env : Env) where
  pub IsRead-find_first : (m : String) (w : Where) → IsRead (Action.find_first env m w)
  unfolding Action.find_first
  IsRead-find_first m w = record { at = λ s. refl }

  pub IsRead-find_many :
      (m : String) (w : Where) (le : Order) → IsRead (Action.find_many env m w le)
  unfolding Action.find_many
  IsRead-find_many m w le = record { at = λ s. refl }

  pub IsRead-count : (m : String) (w : Where) → IsRead (Action.count env m w)
  unfolding Action.count
  IsRead-count m w = record { at = λ s. refl }

-- Whatever comes of the action, `P` holds of the world after it if it holds of the one before.
pub record Maintains (P : World → Type 0) {A : Type 0} (m : Action A) : Type 0 where
  pub at : (s : World) → P s → P (m s).1

module _ (P : World → Type 0) where
  pub Maintains-pure : {A : Type 0} (a : A) → Maintains P (pure a)
  unfolding pure
  Maintains-pure a = record { at = λ s h. h }

  pub Maintains-throw : {A : Type 0} (e : Exception) → Maintains P (throw {A = A} e)
  unfolding throw
  Maintains-throw e = record { at = λ s h. h }

  pub Maintains-bind :
      {A B : Type 0} (m : Action A) (f : A → Action B)
      → Maintains P m
      → ((a : A) → Maintains P (f a))
      → Maintains P (m >>= f)
  unfolding ◌>>=◌
  Maintains-bind {A} {B} m f km kf = record { at = λ s h. go (m s) (km.at s h) }
    where
      go : (r : Result A × World) → P r.1 → P (continue r f).1
      go (ok a, t) h = (kf a).at t h
      go (err e, t) h = h

  pub Maintains-if :
      {A : Type 0} (b : Bool) (m n : Action A)
      → Maintains P m
      → Maintains P n
      → Maintains P (if b then m else n)
  Maintains-if true m n km kn = km
  Maintains-if false m n km kn = kn

  pub Maintains-throw_if : (b : Bool) (e : Exception) → Maintains P (throw_if b e)
  unfolding throw_if
  Maintains-throw_if true e = Maintains-throw e
  Maintains-throw_if false e = Maintains-pure tt
