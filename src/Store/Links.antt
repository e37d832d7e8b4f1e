-- ===== src/Store/Links.antt =====
-- The relations of prisma/schema.prisma, which stand between tables by ids. There are no foreign keys
-- (`relationMode = "prisma"`), so the Prisma client carries out the default referential actions itself.
use planner_api.Common.{
  String, ◌≡◌, refl, Bool, true, false, not, ◌&&◌, List, [], ◌∷◌, ◌++◌, ◌==◌, any, map, arith,
}

-- `column` of the table `child` is the id of a row of `parent`; it is required or may be null.
pub record Relation : Type 0 where
  pub child : String
  pub column : String
  pub parent : String
  pub is_required : Bool

abbrev link : String → String → String → Relation
link child column parent = record {
  child = child;
  column = column;
  parent = parent;
  is_required = false;
}

abbrev required : String → String → String → Relation
required child column parent = record {
  child = child;
  column = column;
  parent = parent;
  is_required = true;
}

abbrev filed : String → List Relation
filed child = link child "organizationId" "organization" ∷ link child "projectId" "project" ∷ []

abbrev of_work : String → List Relation
of_work child = filed child ++ (link child "taskId" "task" ∷ link child "meetingId" "meeting" ∷ [])

abbrev tables : List String
tables =
    "organization" ∷ "project" ∷ "recurrenceRule" ∷ "task" ∷ "checklistItem" ∷ "meeting"
    ∷ "meetingNoteItem" ∷ "requirement" ∷ "note" ∷ "decision" ∷ "activityEntry" ∷ "attachment"
    ∷ "voiceNote" ∷ []

-- The `@relation` lines of the schema.
unfoldable pub relations : List Relation
relations =
    map (λ t. required t "userId" "user") tables
    ++ (link "project" "organizationId" "organization" ∷ filed "task")
    ++ (link "task" "sourceMeetingId" "meeting"
        ∷ link "task" "recurrenceRuleId" "recurrenceRule"
        ∷ required "checklistItem" "taskId" "task"
        ∷ filed "meeting")
    ++ (required "meetingNoteItem" "meetingId" "meeting" ∷ filed "requirement")
    ++ (link "note" "requirementId" "requirement" ∷ of_work "note")
    ++ (link "decision" "sourceMeetingId" "meeting" ∷ filed "decision")
    ++ of_work "activityEntry"
    ++ (link "attachment" "noteId" "note"
        ∷ link "attachment" "requirementId" "requirement"
        ∷ of_work "attachment")
    ++ (link "voiceNote" "noteId" "note" ∷ of_work "voiceNote")

-- Rows of another table name rows of this one.
unfoldable pub is_referenced : String → Bool
unfolding relations
is_referenced m = any (λ r. r.parent == m) relations

abbrev links : String → String → String → Relation → Bool
links parent child column r =
    not r.is_required && (r.parent == parent && (r.child == child && r.column == column))

-- The column of `child` is an optional link to `parent`.
unfoldable pub is_link : String → String → String → Bool
unfolding relations
is_link parent child column = any (links parent child column) relations

any_imp :
    {A : Type 0} (p q : A → Bool) (l : List A)
    → ((a : A) → q a ≡ false → p a ≡ false)
    → any q l ≡ false
    → any p l ≡ false
any_imp p q [] f h = refl
any_imp p q (a ∷ l) f h = ground (arith, f a, any_imp p q l f)

column_link :
    (parent child column : String) (r : Relation)
    → (not r.is_required && r.column == column) ≡ false
    → links parent child column r ≡ false
column_link parent child column r h = ground (arith, h)

user_link :
    (parent column : String) (r : Relation)
    → (r.child == "user") ≡ false
    → links parent "user" column r ≡ false
user_link parent column r h = ground (arith, h)

-- The owner is no optional link.
pub is_link-owner : (parent child : String) → is_link parent child "userId" ≡ false
unfolding is_link
is_link-owner parent child =
    any_imp (links parent child "userId") (λ r. not r.is_required && r.column == "userId") relations
      (column_link parent child "userId") refl

-- Nor is the number.
pub is_link-seq : (parent child : String) → is_link parent child "seq" ≡ false
unfolding is_link
is_link-seq parent child =
    any_imp (links parent child "seq") (λ r. not r.is_required && r.column == "seq") relations
      (column_link parent child "seq") refl

-- A user has no optional links.
pub is_link-user : (parent column : String) → is_link parent "user" column ≡ false
unfolding is_link
is_link-user parent column =
    any_imp (links parent "user" column) (λ r. r.child == "user") relations
      (user_link parent column) refl
