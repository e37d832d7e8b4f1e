-- ===== src/Uploads.antt =====
-- modules/attachments/attachments.service.ts and modules/voice-notes/voice-notes.service.ts: rows that
-- stand for an object in the store.
pub mod Scoped
pub mod Checks
use planner_api.Common.{
  ℕ, String, Bool, true, false, not, Option, none, some, List, [], ◌∷◌, ◌++◌, ◌==◌, eqb, leb, ltb,
  if◌then◌else◌,
}
use planner_api.Common.Int.{ℤ, pos}
use planner_api.Store.Value.{Value, null, int, str, date, Row, get, or_else, truthy, text}
use planner_api.Store.Query.{Where, equals, is_null}
use planner_api.Store.Db.{bad_request, forbidden, Order}
use planner_api.Store.Action.{Action, pure, throw_if, ◌>>=◌, ◌>>◌, Env, now}
use planner_api.Store.Action
use planner_api.Crud.{find_one}
use planner_api.Crud
use planner_api.Resources.{put_given, assert_links}
use planner_api.Storage.{
  ObjectStore, PresignedUpload, presign_upload, presign_download, head, assert_owned_key,
}

-- RequestUploadDto, which is also a part of the DTOs by which a row is created.
pub record RequestUpload : Type 0 where
  pub file_name : String
  pub mime_type : String
  pub size_bytes : ℕ

-- The `where` of both `find`s, from the keys that the query gives.
unfoldable pub upload_where : List (String × String) → Where
upload_where given = put_given given []

-- The columns that link a row, with the models that they point into.
abbrev pub attachment_links : List (String × String)
attachment_links =
    ("organization", "organizationId")
    ∷ ("project", "projectId")
    ∷ ("task", "taskId")
    ∷ ("meeting", "meetingId")
    ∷ ("note", "noteId")
    ∷ ("requirement", "requirementId")
    ∷ []

abbrev pub voice_note_links : List (String × String)
voice_note_links =
    ("organization", "organizationId")
    ∷ ("project", "projectId")
    ∷ ("task", "taskId")
    ∷ ("meeting", "meetingId")
    ∷ ("note", "noteId")
    ∷ []

-- The rows that a guest holds.
abbrev pub held_where : String → Where
held_where user = ("userId", equals (str user)) ∷ ("deletedAt", is_null) ∷ []

module _ (env : Env) (store : ObjectStore) (user : String) where
  -- presignUpload, for what the client is about to send.
  abbrev pub presign : RequestUpload → Action PresignedUpload
  presign dto = presign_upload store env user dto.file_name dto.mime_type dto.size_bytes

  -- `max` is the configured number of a guest's attachments.
  unfoldable pub assert_guest_quota : ℕ → Action (Unit {0})
  assert_guest_quota max = do
    held ← Action.count env "attachment" (held_where user)
    throw_if (leb max held) (forbidden "Guests can keep up to max attachments")

  abbrev pub guest_check : ℕ → Bool → Action (Unit {0})
  guest_check max is_anonymous = if is_anonymous then assert_guest_quota max else pure tt

  abbrev pub attachment_columns : Row → RequestUpload → Row
  attachment_columns dto upload =
      ("id", get "id" dto)
      ∷ ("kind", get "kind" dto)
      ∷ ("fileName", str upload.file_name)
      ∷ ("mimeType", str upload.mime_type)
      ∷ ("sizeBytes", int (pos upload.size_bytes))
      ∷ ("caption", or_else (get "caption" dto) null)
      ∷ ("organizationId", or_else (get "organizationId" dto) null)
      ∷ ("projectId", or_else (get "projectId" dto) null)
      ∷ ("taskId", or_else (get "taskId" dto) null)
      ∷ ("meetingId", or_else (get "meetingId" dto) null)
      ∷ ("noteId", or_else (get "noteId" dto) null)
      ∷ ("requirementId", or_else (get "requirementId" dto) null)
      ∷ ("relativePath", str "")
      ∷ []

  unfoldable pub create_attachment : ℕ → Bool → Row → RequestUpload → Action (Row × PresignedUpload)
  unfolding assert_guest_quota
  create_attachment max is_anonymous dto upload = do
    assert_links env user attachment_links dto
    guest_check max is_anonymous
    url ← presign upload
    row ← Crud.create env "attachment" user (attachment_columns dto upload)
    pure (row, url)

  abbrev refresh_mime_type : String → Row → RequestUpload → Action (Unit {0})
  refresh_mime_type id attachment dto =
      if not (text (get "mimeType" attachment) == dto.mime_type)
      then (do Crud.update env "attachment" user id (("mimeType", str dto.mime_type) ∷ []); pure tt)
      else pure tt

  unfoldable pub request_attachment_upload : String → RequestUpload → Action PresignedUpload
  request_attachment_upload id dto = do
    attachment ← find_one env "attachment" user id false
    url ← presign dto
    refresh_mime_type id attachment dto
    pure url

  -- The part that both `confirmUpload`s share: the size of an object that is there.
  unfoldable pub confirmed_size : String → String → String → Action ℕ
  confirmed_size model id key = do
    find_one env model user id false
    assert_owned_key user key
    size ← head store key
    throw_if (eqb size 0) (bad_request "Uploaded object is empty")
    pure size

  unfoldable pub confirm_attachment : String → String → Action Row
  unfolding confirmed_size
  confirm_attachment id key = do
    size ← confirmed_size "attachment" id key
    at ← now env
    Crud.update env "attachment" user id
        (("objectKey", str key) ∷ ("uploadedAt", date at) ∷ ("sizeBytes", int (pos size)) ∷ [])

  -- downloadUrl of either service.
  unfoldable pub download_url : String → String → Action String
  download_url model id = do
    row ← find_one env model user id false
    throw_if (not (truthy (get "objectKey" row))) (bad_request "Not uploaded yet")
    presign_download store (text (get "objectKey" row))

  unfoldable pub update_attachment : String → Row → Action Row
  update_attachment id dto = Crud.update env "attachment" user id dto

  unfoldable pub remove_attachment : String → Action Row
  remove_attachment id = Crud.remove env "attachment" user id

  abbrev pub voice_note_columns : Row → Row
  voice_note_columns dto =
      ("id", get "id" dto)
      ∷ ("title", or_else (get "title" dto) null)
      ∷ ("durationMs", or_else (get "durationMs" dto) (int (pos 0)))
      ∷ ("organizationId", or_else (get "organizationId" dto) null)
      ∷ ("projectId", or_else (get "projectId" dto) null)
      ∷ ("taskId", or_else (get "taskId" dto) null)
      ∷ ("meetingId", or_else (get "meetingId" dto) null)
      ∷ ("noteId", or_else (get "noteId" dto) null)
      ∷ ("relativePath", str "")
      ∷ []

  unfoldable pub create_voice_note : Row → RequestUpload → Action (Row × PresignedUpload)
  create_voice_note dto upload = do
    assert_links env user voice_note_links dto
    url ← presign upload
    row ← Crud.create env "voiceNote" user (voice_note_columns dto)
    pure (row, url)

  unfoldable pub request_voice_note_upload : String → RequestUpload → Action PresignedUpload
  request_voice_note_upload id dto = do find_one env "voiceNote" user id false; presign dto

  unfoldable pub confirm_voice_note : String → String → Action Row
  unfolding confirmed_size
  confirm_voice_note id key = do
    size ← confirmed_size "voiceNote" id key
    at ← now env
    Crud.update env "voiceNote" user id (("objectKey", str key) ∷ ("uploadedAt", date at) ∷ [])

  unfoldable pub update_voice_note : String → Row → Action Row
  update_voice_note id dto = Crud.update env "voiceNote" user id dto
