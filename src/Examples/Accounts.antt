-- ===== src/Examples/Accounts.antt =====
-- Runs around accounts, uploads, meetings, replies and the log of work.
use planner_api.Examples.Decimal.{decimal}
use planner_api.Crud.Rows.{IsFound}
use planner_api.Meetings.Split.{AreItems, split_raw_notes-AreItems}
use planner_api.Replies.Bigints.{SendsNoBigint, intercept-SendsNoBigint}
use planner_api.Replies.{
  Data, leaf, array, record_of, item, no_items, field, no_fields, returned, envelope, intercept,
}
use planner_api.Sync.Registry.{SyncTableDef}
use planner_api.Users.Account.Moving.{Has}
use planner_api.Users.Account.Brought.{IsBrought}
use planner_api.Users.Account.Merge.{adopt_anonymous-Brings}
use planner_api.Common.{
  ℕ, ◌<◌, String, ◌≡◌, refl, true, false, none, some, [], ◌∷◌, ◌==◌, arith, if◌then◌else◌, inl, inr,
  eq_iff,
}
use planner_api.Store.Value.{null, str, date, big, Row, text, get}
use planner_api.Store.Query.{matches}
use planner_api.Store.Db.{failure, stored, delete_rows}
use planner_api.Store.Action.{
  World, Env, CachedPrincipal, Call, ◌>>=◌, pure, throw, throw_if, now, random_uuid, find_first,
  transaction,
}
use planner_api.Store.Action
use planner_api.Crud
use planner_api.Crud.Isolation.{Isolated}
use planner_api.Storage.{PresignedUpload, presign_upload, assert_owned_key, head}
use planner_api.Storage.Keys.{LacksSlash, assert_owned_key-Injective}
use planner_api.Uploads.{
  RequestUpload, create_attachment, confirm_attachment, confirm_voice_note, held_where,
  confirmed_size, assert_guest_quota,
}
use planner_api.Uploads
use planner_api.Uploads.Scoped.{uploads-Isolated}
use planner_api.Uploads.Checks.{IsVerified, create_attachment-quota, confirm_attachment-IsVerified}
use planner_api.Users.{AuthenticatedUser, resolve_principal, find_by_id, forget}
use planner_api.Users.Principals.{IsBounded, resolve_principal-IsBounded}
use planner_api.Users.Identity.{CacheIsRight}
use planner_api.Users.Resolving.{IsFor, resolve_principal-CacheIsRight, resolve_principal-IsFor}
use planner_api.Users.Guard.{can_activate, claims_of, is_anonymous, delete_firebase_user}
use planner_api.Users.Guard.Passing.{Passes, can_activate-Passes}
use planner_api.Users.Account.{delete_account, adopt_anonymous}
use planner_api.Users.Account.Erasure.{IsErased}
use planner_api.Users.Account.Deletion.{delete_account-IsErased, delete_account-IsAtomic}
use planner_api.Users.Account.Adoption.{IsAllowed, adopt_anonymous-IsAllowed}
use planner_api.Meetings
use planner_api.Meetings.Scoped.{meetings-Isolated}
use planner_api.Meetings.Capture.{SameRows, note_items-SameRows}
use planner_api.Activity
use planner_api.Examples.Memory.{memory}
use planner_api.Examples.Runs.{small_env, new_title}
use planner_api.Examples.Worlds.{
  got, bucket, guest_claims, firebase, broken_firebase, ann_row, guest_row, owned, db, world,
}

pub world-CacheIsRight : CacheIsRight world
world-CacheIsRight = ((refl, (ann_row, refl, refl)), tt)

abbrev upload : RequestUpload
upload = record { file_name = "a.png"; mime_type = "image/png"; size_bytes = 12 }

abbrev key : String
key = "u/u1/fresh.png"

u1-LacksSlash : LacksSlash "u1"
u1-LacksSlash = ((λ e. cc), ((λ e. cc), tt))

assert_owned_key-Injective_example : ◌≡◌ {A = String} "u1" "u1"
unfolding assert_owned_key throw_if pure
assert_owned_key-Injective_example =
    assert_owned_key-Injective "u1" "u1" key world world u1-LacksSlash u1-LacksSlash refl refl

abbrev presigned : PresignedUpload
presigned = record {
  object_key = key;
  upload_url = key;
  expires_in = 900;
  content_type = "image/png";
  content_length = 12;
}

create_attachment-quota_example : small_env.prisma.count "attachment" (held_where "u1") db < 2
unfolding create_attachment assert_guest_quota ◌>>=◌ planner_api.Resources.assert_links
    Crud.assert_owned_or_null Action.count throw_if memory matches presign_upload random_uuid
    Crud.create now Crud.next Crud.allocate Action.create
create_attachment-quota_example =
    create_attachment-quota small_env bucket "u1" 2 new_title upload world
      (got ([], presigned)
        (create_attachment small_env bucket "u1" 2 true new_title upload world).0)
      refl

confirm_attachment-IsVerified_example :
    (n : ℕ) × IsVerified small_env bucket "u1" "attachment" "a1" key n world
unfolding confirm_attachment ◌>>=◌ Crud.find_one find_first memory matches Crud.scope
    assert_owned_key throw_if head now Crud.update Crud.next Crud.allocate Action.update
confirm_attachment-IsVerified_example =
    confirm_attachment-IsVerified small_env bucket "u1" "a1" key world
      (got [] (confirm_attachment small_env bucket "u1" "a1" key world).0) refl

uploads-Isolated_example :
    Isolated "u1" db (create_attachment small_env bucket "u1" 2 true new_title upload world).1.db
    × Isolated "u1" db
        (Uploads.request_attachment_upload small_env bucket "u1" "a1" upload world).1.db
    × Isolated "u1" db (confirm_attachment small_env bucket "u1" "a1" key world).1.db
    × Isolated "u1" db (Uploads.update_attachment small_env bucket "u1" "a1" new_title world).1.db
    × Isolated "u1" db (Uploads.remove_attachment small_env bucket "u1" "a1" world).1.db
    × Isolated "u1" db (Uploads.create_voice_note small_env bucket "u1" new_title upload world).1.db
    × Isolated "u1" db
        (Uploads.request_voice_note_upload small_env bucket "u1" "a1" upload world).1.db
    × Isolated "u1" db (confirm_voice_note small_env bucket "u1" "a1" key world).1.db
    × Isolated "u1" db (Uploads.update_voice_note small_env bucket "u1" "a1" new_title world).1.db
uploads-Isolated_example =
    uploads-Isolated small_env bucket "u1" "a1" key 2 true new_title upload world refl

resolve_principal-IsBounded_example :
    IsBounded (resolve_principal small_env (claims_of guest_claims) world).1
resolve_principal-IsBounded_example =
    resolve_principal-IsBounded small_env (claims_of guest_claims) world (omega arith)

resolve_principal-CacheIsRight_example :
    CacheIsRight (resolve_principal small_env (claims_of guest_claims) world).1
resolve_principal-CacheIsRight_example =
    resolve_principal-CacheIsRight small_env (claims_of guest_claims) world world-CacheIsRight

abbrev nobody : AuthenticatedUser
nobody = record { id = ""; firebase_uid = ""; email = null; is_anonymous = false }

-- The principal that the guest's claims resolve to.
abbrev guest : AuthenticatedUser
guest = record {
  id = "u2";
  firebase_uid = "f2";
  email = str "ann@example.org";
  is_anonymous = true;
}

resolve_principal-IsFor_example :
    IsFor small_env
      (claims_of guest_claims)
      guest
      (resolve_principal small_env (claims_of guest_claims) world).1
unfolding resolve_principal claims_of ◌>>=◌ now find_first memory matches Action.update
resolve_principal-IsFor_example =
    resolve_principal-IsFor small_env (claims_of guest_claims) world guest world-CacheIsRight refl

can_activate-Passes_example :
    Passes small_env firebase
      (some "Bearer guest")
      world
      (can_activate small_env firebase false (some "Bearer guest") world).1
      (some guest)
unfolding can_activate ◌>>=◌ resolve_principal now find_first memory matches Action.update
can_activate-Passes_example =
    can_activate-Passes small_env firebase (some "Bearer guest") world (some guest)
      world-CacheIsRight refl

delete_account-IsErased_example :
    IsErased "u1" db (delete_account small_env bucket firebase "u1" world).1.db
unfolding delete_account ◌>>=◌ find_by_id find_first memory matches delete_firebase_user forget
    Action.find_many transaction Action.delete_many delete_rows
delete_account-IsErased_example =
    delete_account-IsErased small_env bucket firebase "u1" world
      (got 0 (delete_account small_env bucket firebase "u1" world).0) refl

delete_account-IsAtomic_example :
    (delete_account small_env bucket broken_firebase "u1" world).1.db ≡ db
unfolding delete_account ◌>>=◌ find_by_id find_first memory matches delete_firebase_user
delete_account-IsAtomic_example =
    delete_account-IsAtomic small_env bucket broken_firebase "u1" world (failure "internal-error")
      refl

abbrev ann : AuthenticatedUser
ann = record { id = "u1"; firebase_uid = "f1"; email = null; is_anonymous = false }

adopt_anonymous-IsAllowed_example : IsAllowed firebase ann "guest" world
unfolding adopt_anonymous ◌>>=◌ throw_if is_anonymous find_first memory matches transaction
    Action.find_many Crud.allocate Action.update Action.delete_many forget delete_rows
adopt_anonymous-IsAllowed_example =
    adopt_anonymous-IsAllowed small_env bucket firebase ann "guest" world
      (got 0 (adopt_anonymous small_env bucket firebase ann "guest" world).0) refl

meetings-Isolated_example :
    Isolated "u1" db (Meetings.create_meeting small_env "u1" new_title world).1.db
    × Isolated "u1" db (Meetings.update_meeting small_env "u1" "m1" new_title world).1.db
    × Isolated "u1" db (Meetings.split_raw_notes small_env "u1" "m1" true world).1.db
    × Isolated "u1" db (Meetings.add_note_item small_env "u1" "m1" new_title world).1.db
    × Isolated "u1" db (Meetings.update_note_item small_env "u1" "m1" new_title world).1.db
    × Isolated "u1" db (Meetings.mark_processed small_env "u1" "m1" new_title world).1.db
    × Isolated "u1" db (Meetings.remove_note_item small_env "u1" "m1" world).1.db
meetings-Isolated_example = meetings-Isolated small_env "u1" "m1" new_title true world refl refl

note_items-SameRows_example :
    SameRows "meeting"
      (db.rows "meeting")
      (Meetings.split_raw_notes small_env "u1" "m1" true world).1
    × SameRows "meeting"
        (db.rows "meeting")
        (Meetings.add_note_item small_env "u1" "m1" new_title world).1
    × SameRows "meeting"
        (db.rows "meeting")
        (Meetings.update_note_item small_env "u1" "m1" new_title world).1
    × SameRows "meeting"
        (db.rows "meeting")
        (Meetings.mark_processed small_env "u1" "m1" new_title world).1
    × SameRows "meeting" (db.rows "meeting") (Meetings.remove_note_item small_env "u1" "m1" world).1
note_items-SameRows_example =
    note_items-SameRows small_env "u1" "m1" "meeting" new_title true world refl

abbrev empty_review : Activity.WeeklyReview
empty_review = Activity.review_of 0 0 [] 0

abbrev ann_review : Activity.WeeklyReview
ann_review = got empty_review (Activity.review small_env "u1" none none world).0

abbrev attachments : SyncTableDef
attachments = record {
  name = "attachments";
  model = "Attachment";
  delegate = "attachment";
  order = 120;
}

adopt_anonymous-Brings_example :
    Has
      (IsBrought "u2" "u1" 5 "attachment" db (owned "a2" "u2"))
      (stored "attachment" "a2" (adopt_anonymous small_env bucket firebase ann "guest" world).1.db)
unfolding adopt_anonymous ◌>>=◌ throw_if is_anonymous find_first memory matches transaction
    Action.find_many Crud.allocate Action.update Action.delete_many forget delete_rows
adopt_anonymous-Brings_example =
    adopt_anonymous-Brings small_env bucket firebase ann "guest" guest_claims guest_row
      (owned "a2" "u2") attachments world
      (got 0 (adopt_anonymous small_env bucket firebase ann "guest" world).0) refl refl
      (λ e. ground (arith, (eq_iff "u1" "u2").1 e))
      (inr (inr (inr (inr (inr (inr (inr (inr (inr (inr (inr (inl refl)))))))))))) refl refl refl
      refl

abbrev page : Data
page = record_of (
    field "cursor" (leaf (big 120))
      (field "items" (array (item (leaf (date 7)) no_items)) no_fields))

page_sent :
    intercept decimal (returned page)
    ≡ envelope true
        (record_of (
          field "cursor"
            (leaf (str "120"))
            (field "items" (array (item (leaf (date 7)) no_items)) no_fields)))
        null
unfolding intercept decimal
page_sent = refl

intercept-SendsNoBigint_example : SendsNoBigint (intercept decimal (returned page))
intercept-SendsNoBigint_example = intercept-SendsNoBigint decimal page

meeting_lines : Meetings.note_lines "call\n\n send " ≡ "call" ∷ "send" ∷ []
unfolding Meetings.note_lines planner_api.Common.Texts.split_at planner_api.Common.Texts.trim
meeting_lines = refl

-- Each uuid is another one.
abbrev counting_env : Env
counting_env = record small_env { uuid = λ n. decimal n }

split_raw_notes-AreItems_example :
    (m : Row) × (stored "meeting" "m1" db ≡ some m)
    × IsFound "u1" "m1" false m
    × AreItems "u1" "m1" 0
        (planner_api.Common.Texts.split_at "\n" (text (get "rawNotes" m)))
        (got [] (Meetings.split_raw_notes counting_env "u1" "m1" false world).0)
unfolding Meetings.split_raw_notes ◌>>=◌ Crud.find_one find_first memory matches Crud.scope
    Action.find_many throw_if now Crud.allocate transaction planner_api.Common.Texts.split_at
    planner_api.Common.Texts.trim random_uuid Action.create decimal
split_raw_notes-AreItems_example =
    split_raw_notes-AreItems counting_env "u1" "m1" false world
      (got [] (Meetings.split_raw_notes counting_env "u1" "m1" false world).0) refl
