-- ===== src/Storage.antt =====
-- modules/storage/storage.service.ts: presigned URLs, and the check of object keys.
pub mod Keys
pub mod Scoped
use Prim.Native.String.{◌++◌}
use planner_api.Common.{
  ℕ, String, Bool, true, false, not, Option, none, some, List, ◌∷◌, ltb, if◌then◌else◌,
}
use planner_api.Store.Db.{bad_request, service_unavailable, failure}
use planner_api.Store.Action.{
  Action, World, Call, delete_object, head_object, sign_upload, sign_download, pure, throw,
  throw_if, ◌>>=◌, ◌>>◌, Env, random_uuid,
}
use text.Mathlib.Text.{starts_with}

-- The S3 client with its configuration, `extname(…).toLowerCase()` and `getSignedUrl`. The client's
-- answers may change from call to call: they are given the calls so far. `head_object` is none where
-- it throws, else `ContentLength`.
pub record ObjectStore : Type 0 where
  pub configured : Bool
  pub max_upload_bytes : ℕ
  pub upload_url_ttl : ℕ
  pub download_url_ttl : ℕ
  pub extension : String → String
  pub signed_put : String → String → ℕ → String
  pub signed_get : String → String
  pub head_object : List Call → String → Option (Option ℕ)
  pub delete_object : List Call → String → Bool

pub record PresignedUpload : Type 0 where
  pub object_key : String
  pub upload_url : String
  pub expires_in : ℕ
  pub content_type : String
  pub content_length : ℕ

-- A call of another service, noted in front of the earlier ones.
abbrev pub note_call : Call → Action (Unit {0})
note_call c s = pure tt (record s { calls = c ∷ s.calls })

abbrev pub calls_so_far : Action (List Call)
calls_so_far s = pure s.calls s

-- `u/${userId}/`
abbrev pub key_prefix : String → String
key_prefix user = "u/" ++ (user ++ "/")

module _ (store : ObjectStore) where
  unfoldable pub require_client : Action (Unit {0})
  require_client =
      throw_if (not store.configured) (service_unavailable "Object storage is not configured")

  unfoldable pub presign_upload : Env → String → String → String → ℕ → Action PresignedUpload
  unfolding require_client
  presign_upload env user file_name content_type size_bytes = do
    require_client
    throw_if (ltb store.max_upload_bytes size_bytes) (bad_request "File is too large")
    id ← random_uuid env
    let key = key_prefix user ++ (id ++ store.extension file_name)
    note_call (sign_upload key)
    pure (record {
      object_key = key;
      upload_url = store.signed_put key content_type size_bytes;
      expires_in = store.upload_url_ttl;
      content_type = content_type;
      content_length = size_bytes;
    })

  unfoldable pub presign_download : String → Action String
  unfolding require_client
  presign_download key = do
    require_client
    note_call (sign_download key)
    pure (store.signed_get key)

  abbrev pub content_length : Option (Option ℕ) → Action ℕ
  content_length none = throw (failure "HeadObject")
  content_length (some none) = pure 0
  content_length (some (some n)) = pure n

  -- The size that the store reports, 0 if it reports none.
  unfoldable pub head : String → Action ℕ
  unfolding require_client
  head key = do
    require_client
    calls ← calls_so_far
    note_call (head_object key)
    content_length (store.head_object calls key)

  unfoldable pub delete : String → Action (Unit {0})
  unfolding require_client
  delete key = do
    require_client
    calls ← calls_so_far
    note_call (delete_object key)
    throw_if (not (store.delete_object calls key)) (failure "DeleteObject")

-- assertOwnedKey
unfoldable pub assert_owned_key : String → String → Action (Unit {0})
assert_owned_key user key =
    throw_if (not (starts_with key (key_prefix user)))
      (bad_request "Object key does not belong to this user")
