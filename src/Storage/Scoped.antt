-- ===== src/Storage/Scoped.antt =====
-- What is asked of the object store touches no row.
use planner_api.Common.{ℕ, String, Option, none, some, List}
use planner_api.Store.Action.{Call, pure, Env}
use planner_api.Crud.Isolation.{Isolated-refl}
use planner_api.Crud.Keeps.{
  Keeps, Keeps-pure, Keeps-throw, Keeps-throw_if, Keeps-bind, Keeps-random_uuid,
}
use planner_api.Storage.{
  ObjectStore, note_call, calls_so_far, require_client, presign_upload, presign_download,
  content_length, head, assert_owned_key,
}

module _ (store : ObjectStore) (user : String) (g : List (String × String)) where
  pub Keeps-note_call : (c : Call) → Keeps user g (note_call c)
  unfolding pure
  Keeps-note_call c = record { at = λ s h. Isolated-refl user s.db }

  Keeps-calls_so_far : Keeps user g calls_so_far
  unfolding pure
  Keeps-calls_so_far = record { at = λ s h. Isolated-refl user s.db }

  Keeps-require_client : Keeps user g (require_client store)
  unfolding require_client
  Keeps-require_client = Keeps-throw_if user g _ _

  pub Keeps-presign_upload :
      (env : Env) (owner file_name content_type : String) (size : ℕ)
      → Keeps user g (presign_upload store env owner file_name content_type size)
  unfolding presign_upload
  Keeps-presign_upload env owner file_name content_type size =
      Keeps-bind user g _ _ Keeps-require_client λ a.
        Keeps-bind user g _ _ (Keeps-throw_if user g _ _) λ b.
          Keeps-bind user g _ _ (Keeps-random_uuid user g env)
            λ id. Keeps-bind user g _ _ (Keeps-note_call _) λ c. Keeps-pure user g _

  pub Keeps-presign_download : (key : String) → Keeps user g (presign_download store key)
  unfolding presign_download
  Keeps-presign_download key =
      Keeps-bind user g _ _ Keeps-require_client
        λ a. Keeps-bind user g _ _ (Keeps-note_call _) λ b. Keeps-pure user g _

  pub Keeps-head : (key : String) → Keeps user g (head store key)
  unfolding head
  Keeps-head key = Keeps-bind user g _ _ Keeps-require_client λ a.
      Keeps-bind user g _ _ Keeps-calls_so_far
        λ calls. Keeps-bind user g _ _ (Keeps-note_call _) λ b. answer (store.head_object calls key)
    where
      answer : (o : Option (Option ℕ)) → Keeps user g (content_length store o)
      answer none = Keeps-throw user g _
      answer (some none) = Keeps-pure user g 0
      answer (some (some n)) = Keeps-pure user g n

  pub Keeps-assert_owned_key : (owner key : String) → Keeps user g (assert_owned_key owner key)
  unfolding assert_owned_key
  Keeps-assert_owned_key owner key = Keeps-throw_if user g _ _
