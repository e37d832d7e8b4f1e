-- ===== src/Examples/Worlds.antt =====
-- A bucket, two Firebases and a database that the runs on accounts share.
use planner_api.Common.{String, true, false, none, some, [], ◌∷◌, ◌==◌, if◌then◌else◌}
use planner_api.Store.Value.{null, bool, str, date, big, Row}
use planner_api.Store.Db.{Db, Result, ok, err}
use planner_api.Store.Action.{World}
use planner_api.Storage.{ObjectStore}
use planner_api.Users.Guard.{DecodedIdToken, Firebase}

abbrev pub got : {A : Type 0} → A → Result A → A
got a (ok b) = b
got a (err e) = a

-- A bucket that holds an object of 12 bytes under every key.
abbrev pub bucket : ObjectStore
bucket = record {
  configured = true;
  max_upload_bytes = 100;
  upload_url_ttl = 900;
  download_url_ttl = 900;
  extension = λ name. ".png";
  signed_put = λ key type size. key;
  signed_get = λ key. key;
  head_object = λ calls key. some (some 12);
  delete_object = λ calls key. true;
}

abbrev pub ann_claims : DecodedIdToken
ann_claims = record {
  uid = "f1";
  email = some "ann@example.org";
  name = str "Ann";
  picture = none;
  sign_in_provider = some "google.com";
}

abbrev pub guest_claims : DecodedIdToken
guest_claims = record ann_claims { uid = "f2"; sign_in_provider = some "anonymous" }

-- Two tokens are good, and every user can be deleted.
abbrev pub firebase : Firebase
firebase = record {
  verify_id_token = λ calls token.
      if token == "tok"
      then some ann_claims
      else if token == "guest"
      then some guest_claims
      else none;
  delete_user = λ calls uid. none;
}

-- No user can be deleted.
abbrev pub broken_firebase : Firebase
broken_firebase = record firebase { delete_user = λ calls uid. some "internal-error" }

abbrev pub ann_row : Row
ann_row = ("id", str "u1") ∷ ("firebaseUid", str "f1") ∷ ("deletedAt", null) ∷ []

abbrev pub guest_row : Row
guest_row = ("id", str "u2") ∷ ("firebaseUid", str "f2") ∷ ("anonymous", bool true) ∷ []

abbrev pub owned : String → String → Row
owned id user = ("id", str id) ∷ ("userId", str user) ∷ ("deletedAt", null) ∷ ("seq", big 1) ∷ []

abbrev pub meeting : Row
meeting = ("rawNotes", str "call\n\n send ") ∷ owned "m1" "u1"

abbrev pub db : Db
db = record {
  rows = λ m.
      if m == "user"
      then ("u1", ann_row) ∷ ("u2", guest_row) ∷ []
      else if m == "attachment"
      then ("a1", owned "a1" "u1") ∷ ("a2", owned "a2" "u2") ∷ []
      else if m == "voiceNote"
      then ("v1", owned "v1" "u1") ∷ []
      else if m == "meeting"
      then ("m1", meeting) ∷ []
      else if m == "activityEntry"
      then ("e1", ("source", str "manual") ∷ ("occurredAt", date 1000) ∷ owned "e1" "u1") ∷ []
      else [];
  last_seq = λ u. some 5;
  clients = λ u. [];
}

-- The principal of the first user is cached.
abbrev pub world : World
world = record {
  db = db;
  principals =
      (
        "f1",
        record { id = "u1"; firebase_uid = "f1"; email = null; anonymous = false; cached_at = 900 },
      )
      ∷ [];
  times = 0;
  uuids = 0;
  calls = [];
}
