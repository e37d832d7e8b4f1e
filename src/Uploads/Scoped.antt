-- ===== src/Uploads/Scoped.antt =====
-- Whatever is done to attachments and voice notes stays with their owner.
use planner_api.Common.{ℕ, String, refl, Bool, true, false, not, [], ◌==◌}
use planner_api.Store.Value.{Row, get, text}
use planner_api.Store.Action.{World, Env}
use planner_api.Crud.Isolation.{Isolated}
use planner_api.Crud.Keeps.{
  Keeps, Keeps-pure, Keeps-throw_if, Keeps-bind, Keeps-if, Keeps-now, Keeps-count,
  Keeps-find_one_read,
}
use planner_api.Crud.Scoped.{
  Keeps-crud_create, Keeps-crud_update, Keeps-crud_update_leaf, Keeps-crud_remove,
}
use planner_api.Store.Links.{is_referenced}
use planner_api.Resources.Scoped.{Keeps-assert_links, NamesNoOwner}
use planner_api.Storage.{ObjectStore}
use planner_api.Storage.Scoped.{Keeps-presign_upload, Keeps-head, Keeps-assert_owned_key}
use planner_api.Uploads.{
  RequestUpload, guest_check, assert_guest_quota, create_attachment, request_attachment_upload,
  confirmed_size, confirm_attachment, update_attachment, remove_attachment, create_voice_note,
  request_voice_note_upload, confirm_voice_note, update_voice_note,
}

module _ (env : Env) (store : ObjectStore) (user : String) where
  Keeps-guest_check :
      (max : ℕ) (is_anonymous : Bool) → Keeps user [] (guest_check env store user max is_anonymous)
  unfolding assert_guest_quota
  Keeps-guest_check max true =
      Keeps-bind user [] _ _ (Keeps-count user [] env _ _) λ held. Keeps-throw_if user [] _ _
  Keeps-guest_check max false = Keeps-pure user [] tt

  Keeps-create_attachment :
      (max : ℕ) (is_anonymous : Bool) (dto : Row) (upload : RequestUpload)
      → Keeps user [] (create_attachment env store user max is_anonymous dto upload)
  unfolding create_attachment
  Keeps-create_attachment max is_anonymous dto upload =
      Keeps-bind user [] _ _ (Keeps-assert_links env user _ dto) λ a.
        Keeps-bind user [] _ _ (Keeps-guest_check max is_anonymous) λ b.
          Keeps-bind user [] _ _ (Keeps-presign_upload store user [] env user _ _ _) λ url.
            Keeps-bind user [] _ _ (Keeps-crud_create env user [] "attachment" _)
              λ row. Keeps-pure user [] (row, url)

  Keeps-request_attachment_upload :
      (id : String) (dto : RequestUpload)
      → Keeps user [] (request_attachment_upload env store user id dto)
  unfolding request_attachment_upload
  Keeps-request_attachment_upload id dto =
      Keeps-bind user [] _ _ (Keeps-find_one_read user [] env "attachment" id false) λ row.
        Keeps-bind user [] _ _ (Keeps-presign_upload store user [] env user _ _ _) λ url.
          Keeps-bind user [] _ _
            (Keeps-if user [] (not (text (get "mimeType" row) == dto.mime_type)) _ _
              (Keeps-bind user [] _ _ (Keeps-crud_update env user [] "attachment" id _ refl refl)
                λ r. Keeps-pure user [] tt)
              (Keeps-pure user [] tt))
            λ u. Keeps-pure user [] url

  Keeps-confirmed_size :
      (model id key : String) → Keeps user [] (confirmed_size env store user model id key)
  unfolding confirmed_size
  Keeps-confirmed_size model id key =
      Keeps-bind user [] _ _ (Keeps-find_one_read user [] env model id false) λ row.
        Keeps-bind user [] _ _ (Keeps-assert_owned_key store user [] user key) λ a.
          Keeps-bind user [] _ _ (Keeps-head store user [] key)
            λ size. Keeps-bind user [] _ _ (Keeps-throw_if user [] _ _) λ b. Keeps-pure user [] size

  Keeps-confirm_attachment :
      (id key : String) → Keeps user [] (confirm_attachment env store user id key)
  unfolding confirm_attachment
  Keeps-confirm_attachment id key =
      Keeps-bind user [] _ _ (Keeps-confirmed_size "attachment" id key) λ size.
        Keeps-bind user [] _ _ (Keeps-now user [] env)
          λ at. Keeps-crud_update env user [] "attachment" id _ refl refl

  Keeps-create_voice_note :
      (dto : Row) (upload : RequestUpload)
      → Keeps user [] (create_voice_note env store user dto upload)
  unfolding create_voice_note
  Keeps-create_voice_note dto upload =
      Keeps-bind user [] _ _ (Keeps-assert_links env user _ dto) λ a.
        Keeps-bind user [] _ _ (Keeps-presign_upload store user [] env user _ _ _) λ url.
          Keeps-bind user [] _ _ (Keeps-crud_create env user [] "voiceNote" _)
            λ row. Keeps-pure user [] (row, url)

  Keeps-request_voice_note_upload :
      (id : String) (dto : RequestUpload)
      → Keeps user [] (request_voice_note_upload env store user id dto)
  unfolding request_voice_note_upload
  Keeps-request_voice_note_upload id dto =
      Keeps-bind user [] _ _ (Keeps-find_one_read user [] env "voiceNote" id false)
        λ row. Keeps-presign_upload store user [] env user _ _ _

  Keeps-confirm_voice_note :
      (id key : String) → Keeps user [] (confirm_voice_note env store user id key)
  unfolding confirm_voice_note
  Keeps-confirm_voice_note id key =
      Keeps-bind user [] _ _ (Keeps-confirmed_size "voiceNote" id key) λ size.
        Keeps-bind user [] _ _ (Keeps-now user [] env)
          λ at. Keeps-crud_update env user [] "voiceNote" id _ refl refl

-- Whatever a caller creates, requests, confirms, patches (with columns that do not name `userId`) or
-- removes among attachments and voice notes leaves the rows and the sequence counter of every other
-- user as they are, also when the operation throws.
pub uploads-Isolated :
    (env : Env) (store : ObjectStore) (user id key : String) (max : ℕ) (is_anonymous : Bool)
    (dto : Row) (upload : RequestUpload) (s : World)
    → NamesNoOwner dto
    → Isolated user s.db (create_attachment env store user max is_anonymous dto upload s).1.db
      × Isolated user s.db (request_attachment_upload env store user id upload s).1.db
      × Isolated user s.db (confirm_attachment env store user id key s).1.db
      × Isolated user s.db (update_attachment env store user id dto s).1.db
      × Isolated user s.db (remove_attachment env store user id s).1.db
      × Isolated user s.db (create_voice_note env store user dto upload s).1.db
      × Isolated user s.db (request_voice_note_upload env store user id upload s).1.db
      × Isolated user s.db (confirm_voice_note env store user id key s).1.db
      × Isolated user s.db (update_voice_note env store user id dto s).1.db
unfolding is_referenced update_attachment remove_attachment update_voice_note
uploads-Isolated env store user id key max is_anonymous dto upload s h = (
  (Keeps-create_attachment env store user max is_anonymous dto upload).at s tt,
  (Keeps-request_attachment_upload env store user id upload).at s tt,
  (Keeps-confirm_attachment env store user id key).at s tt,
  (Keeps-crud_update_leaf env user [] "attachment" id dto h refl).at s tt,
  (Keeps-crud_remove env user [] "attachment" id).at s tt,
  (Keeps-create_voice_note env store user dto upload).at s tt,
  (Keeps-request_voice_note_upload env store user id upload).at s tt,
  (Keeps-confirm_voice_note env store user id key).at s tt,
  (Keeps-crud_update_leaf env user [] "voiceNote" id dto h refl).at s tt,
)
