-- ===== src/Examples/Schemas.antt =====
-- A small Prisma schema, read.
use planner_api.Common.{String, ◌≡◌, refl, true, false, some, [], ◌∷◌, map}
use planner_api.Common.Scan.{is_word}
use planner_api.Common.Texts.{is_white, has_letter}
use planner_api.Sync.Schema.{
  PrismaSchema, PrismaField, FieldLine, scalar, enum, relation, parse_prisma_schema, model_of,
  model_read, field_of,
}
use planner_api.Sync.Schema.Lines.{IsLine}
use planner_api.Sync.Schema.Models.{body, model_of-body}
use text.Mathlib.TextLemmas.{cons≢nil}

abbrev source : String
source =
    "// a comment\nenum Level {\n  low\n  // not this\n  high @map(\"h\")\n}\n\nmodel Task {\n  id String @id\n  level Level @default(low)\n  project  Project? @relation(fields: [projectId])\n  dueAt DateTime? @map(\"due_at\")\n\n  @@map(\"tasks\")\n}\nmodel Project {\n  tasks Task[]\n}\n"

abbrev column : String → String → PrismaField
column name type_name = record {
  name = name;
  db_name = name;
  type_name = type_name;
  kind = scalar;
  is_required = true;
  is_list = false;
  has_default = false;
}

abbrev schema : PrismaSchema
schema = record {
  models =
      (
        "Task",
        record {
          name = "Task";
          db_name = "tasks";
          fields =
              column "id" "String"
              ∷ record (column "level" "Level") { kind = enum; has_default = true }
              ∷ record (column "project" "Project") { kind = relation; is_required = false }
              ∷ record (column "dueAt" "DateTime") { db_name = "due_at"; is_required = false }
              ∷ [];
        },
      )
      ∷ (
        "Project",
        record {
          name = "Project";
          db_name = "Project";
          fields =
              record (column "tasks" "Task") {
                kind = relation;
                is_required = false;
                is_list = true;
              }
              ∷ [];
        },
      )
      ∷ [];
  enums = ("Level", "low" ∷ []) ∷ [];
}

-- An enum value with an attribute is no value for the reader.
source_read : parse_prisma_schema source ≡ some schema
unfolding parse_prisma_schema
source_read = refl

abbrev id_line : FieldLine
id_line = record {
  name = "id";
  type_name = "Int";
  list = false;
  question = true;
  attributes = "@id";
}

id_line-IsLine : IsLine id_line
unfolding is_word has_letter is_white
id_line-IsLine = record {
  name_word = (refl, (refl, tt));
  type_word = (refl, (refl, (refl, tt)));
  attributes_line = ((refl, (refl, (refl, tt))), refl, refl);
}

model_of-body_example :
    model_of [] [] "Task" (body (some "tasks") (id_line ∷ []))
    ≡ model_read "Task" ("tasks", map (field_of [] []) (id_line ∷ []))
model_of-body_example =
    model_of-body [] [] "Task" (some "tasks") (id_line ∷ [])
      (
        cons≢nil,
        (refl, (refl, (refl, (refl, (refl, tt))))),
        (refl, (refl, (refl, (refl, (refl, tt))))),
      )
      (id_line-IsLine, tt)
