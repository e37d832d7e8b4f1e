-- ===== src/Storage/Keys.antt =====
-- Object keys: a user's own keys pass the check, and no key passes it for two users.
use Prim.Native.Char.{Char}
use Prim.Native.String as Text
use Prim.Native.String.{◌++◌}
use planner_api.Common.{ℕ, String, ◌≡◌, ◌≢◌, refl, sym, ap, ◌∙◌, Bool, true, false, not}
use planner_api.Store.Db.{ok}
use planner_api.Store.Action.{World, pure, throw_if, Env}
use planner_api.Store.Outcome.{Ensures, Ensures-pure, Ensures-bind, throw_if-ok}
use planner_api.Storage.{ObjectStore, PresignedUpload, key_prefix, presign_upload, assert_owned_key}
use text.Mathlib.Text.{starts_with}
use text.Mathlib.TextBridge.{IsPrefix}
use text.Mathlib.TextEquality.{starts_with_iff}
use text.Mathlib.TextLemmas.{
  append_assoc, append_cancel_left, prefix-append, cons-append, nil-append, head-eq_of_cons-eq,
  tail-eq_of_cons-eq,
}

-- The text has no slash.
abbrev pub LacksSlash : String → Type 0
LacksSlash Text.[] = Unit
LacksSlash (Text.◌∷◌ c s) = (c ≢ "/") × LacksSlash s

slash_first :
    (d : Char) (b r q : String) → "" ++ ("/" ++ r) ≡ (Text.◌∷◌ d b) ++ ("/" ++ q) → "/" ≡ d
slash_first d b r q e =
    head-eq_of_cons-eq
      (sym (cons-append "/" "" r) ∙ sym (nil-append ("/" ++ r)) ∙ e ∙ cons-append d b ("/" ++ q))

up_to_slash :
    (a b r q : String) → LacksSlash a → LacksSlash b → a ++ ("/" ++ r) ≡ b ++ ("/" ++ q) → a ≡ b
up_to_slash Text.[] Text.[] r q h k e = refl
up_to_slash Text.[] (Text.◌∷◌ d b) r q h k e = absurd (k.0 (sym (slash_first d b r q e)))
up_to_slash (Text.◌∷◌ c a) Text.[] r q h k e = absurd (h.0 (sym (slash_first c a q r (sym e))))
up_to_slash (Text.◌∷◌ c a) (Text.◌∷◌ d b) r q h k e =
    let both = sym (cons-append c a ("/" ++ r)) ∙ e ∙ cons-append d b ("/" ++ q) in
    let rest = up_to_slash a b r q h.1 k.1 (tail-eq_of_cons-eq both) in
    ap (λ x. Text.◌∷◌ x a) (head-eq_of_cons-eq both) ∙ ap (Text.◌∷◌ d) rest

-- What `${prefix}` a key of the user begins with.
key_rest : (user id : String) → key_prefix user ++ id ≡ "u/" ++ (user ++ ("/" ++ id))
key_rest user id =
    append_assoc "u/" (user ++ "/") id ∙ ap (λ x. "u/" ++ x) (append_assoc user "/" id)

true_of_not : (b : Bool) → not b ≡ false → b ≡ true
true_of_not true h = refl
true_of_not false h = sym h

passes_prefix :
    (user key : String) (s : World)
    → (assert_owned_key user key s).0 ≡ ok tt
    → IsPrefix (key_prefix user) key
unfolding assert_owned_key
passes_prefix user key s h =
    (starts_with_iff key (key_prefix user)).0
      (true_of_not (starts_with key (key_prefix user)) (throw_if-ok _ _ s h))

-- No key passes the check for two users whose ids hold no slash.
pub assert_owned_key-Injective :
    (a b key : String) (s t : World)
    → LacksSlash a
    → LacksSlash b
    → (assert_owned_key a key s).0 ≡ ok tt
    → (assert_owned_key b key t).0 ≡ ok tt
    → a ≡ b
assert_owned_key-Injective a b key s t ha hb p q =
    let (r, e) = passes_prefix a key s p in
    let (r', f) = passes_prefix b key t q in
    up_to_slash a b r r' ha hb
      (append_cancel_left "u/" _ _ (sym (key_rest a r) ∙ e ∙ sym f ∙ key_rest b r'))

presign_upload-Ensures :
    (store : ObjectStore) (env : Env) (user file_name content_type : String) (size : ℕ)
    → Ensures
        (λ p. starts_with p.object_key (key_prefix user) ≡ true)
        (presign_upload store env user file_name content_type size)
unfolding presign_upload
presign_upload-Ensures store env user file_name content_type size = Ensures-bind _ _ λ a.
    Ensures-bind _ _ λ b. Ensures-bind _ _ λ id. Ensures-bind _ _ λ c. Ensures-pure _ (
      (starts_with_iff _ (key_prefix user)).1
        (prefix-append (key_prefix user) (id ++ store.extension file_name)))

-- The key of an upload that a user was given passes the check when the user confirms it.
pub assert_owned_key-presign_upload :
    (store : ObjectStore) (env : Env) (user file_name content_type : String) (size : ℕ)
    (s t : World) (p : PresignedUpload)
    → (presign_upload store env user file_name content_type size s).0 ≡ ok p
    → assert_owned_key user p.object_key t ≡ (ok tt, t)
unfolding assert_owned_key throw_if pure
assert_owned_key-presign_upload store env user file_name content_type size s t p h =
    rw ((presign_upload-Ensures store env user file_name content_type size).at s p h) refl
