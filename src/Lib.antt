-- ===== src/Lib.antt =====
-- A development on planner-api, the NestJS server of a planner that its clients write to while they
-- are offline.
--
-- The parts. common/crud holds the sequence counter of a user and the operations that every table
-- has, each one scoped to its caller. modules/sync takes batches of changes from a client (push) and
-- gives it what changed since a cursor (pull); its registry says which tables and columns a client
-- may write. modules/tasks completes tasks, and modules/recurrence then creates the next occurrence of
-- one that recurs. Every request passes the guard, which resolves its token to a user of modules/users;
-- modules/storage presigns the uploads of attachments and voice notes.
--
-- Store: the values and rows of the tables, the `where` objects, the client of Prisma as a record of
--   operations with the laws that its documentation states, and handlers as actions on a world.
--   Store/Links has the relations of prisma/schema.prisma.
-- Crud: src/common/crud/seq.service.ts (allocate, next), src/common/crud/scoped-crud.service.ts
--   (scope, list, find_one, create, update, remove, restore, assert_owned_or_null) and
--   src/common/pagination.ts. Crud/Keeps and Crud/Isolation are on what an action of one user may touch, Crud/Life on soft
--   deletion as a machine of three states.
-- Sync/Schema: src/modules/sync/prisma-schema.ts (parse_prisma_schema, block_lines, field_line), which
--   gives the registry its columns. The fuel of the search for blocks is one more than the letters of
--   the file, and each step of it leaves less of the file.
-- Sync/Registry: src/modules/sync/sync-registry.ts (build, get_table, coerce, coerce_value).
-- Sync/Push: src/modules/sync/sync.service.ts, `push` (order_changes, push_batch, apply_change,
--   decide, touch_client).
-- Sync/Pull: `pull` of the same file (collected, truncated, page, result) and parseCursor of
--   src/modules/sync/sync.controller.ts. Sync/Status: `status` of the same service.
-- Recurrence: src/modules/recurrence/recurrence.spec-model.ts. Recurrence/Calendar has the local dates,
--   Recurrence the rules (next_after, next_monthly, next_yearly, next_selected_weekday, reminder_for),
--   Recurrence/Spawn spawnNextOccurrence and Recurrence/Sweep
--   materialiseDueSeries of src/modules/recurrence/recurrence.service.ts.
-- Tasks: src/modules/tasks/tasks.service.ts (create_task, update_task, complete, reopen, drop_task,
--   carry_forward, remove_task), Tasks/Checklist its checklist operations, Tasks/Query its `find`.
-- Resources: the services of organizations, projects, decisions, requirements and notes, for example
--   src/modules/notes/notes.service.ts.
-- Errors: src/common/filters/all-exceptions.filter.ts (reply). Replies:
--   src/common/interceptors/response.interceptor.ts (intercept, serialise_bigints); `toString` of a
--   bigint is a parameter.
-- Users: src/modules/users/users.service.ts (resolve_principal with the cache of principals);
--   Users/Account its delete_account, adopt_anonymous and sweep_anonymous; Users/Guard
--   src/common/guards/firebase-auth.guard.ts (can_activate) and src/modules/auth/claims.ts.
-- Storage: src/modules/storage/storage.service.ts. Uploads: src/modules/attachments/attachments.service.ts
--   and src/modules/voice-notes/voice-notes.service.ts, which hand out upload URLs of Storage and confirm
--   what was uploaded.
-- Meetings: src/modules/meetings/meetings.service.ts. Activity: src/modules/activity/activity.service.ts.
-- Requests: a request from end to end. Requests/Dtos has the request classes, for example
--   src/modules/tasks/tasks.dto.ts; Requests/Validation what is asked of the ValidationPipe that
--   src/main.ts installs; Requests/Tasks and Requests/Meetings the handlers of
--   src/modules/tasks/tasks.controller.ts and src/modules/meetings/meetings.controller.ts;
--   Requests/Serve puts the guard in front and the exception filter behind.
-- Origins: src/config/cors.ts (parse_allowed_origins, origin_matcher).
-- Common: shared tests, lists and integers. Examples: a database of lists that meets the laws asked
--   of Prisma, and runs at concrete inputs.
--
-- Assumptions. Prisma and PostgreSQL are a parameter: the record Prisma of Store/Db. The schema has
-- `relationMode = "prisma"`, so the referential actions are the client's: a deletion makes the optional
-- links to a deleted row null, and throws if a required one is left; an update that gives a row another id,
-- where other tables refer to it, also writes those rows, and what it does is left open.
-- The clock, `randomUUID` and `new Date` on a text are parameters too, and so are the S3 client (the record
-- ObjectStore) and Firebase (the record Firebase), whose answers depend on the calls made so far.
-- Handlers run one at a time; the interleaving of two requests is not modelled. A bigint seq is a natural number without a bound. An
-- Entry of a table is its row with its seq; the texts of errors are shortened. Local dates are those of
-- a zone with a constant offset, from the year 1 on; a year from 0 to 99 that `new Date` is given stands for
-- one of the 1900s, as in JavaScript. The fields of a recurrence are integers. `new Date` of a text that
-- a DTO has checked gives a date. The ValidationPipe of NestJS, with class-validator and
-- class-transformer, and ParseUUIDPipe are parameters (the record Pipe): a nested object is checked
-- against its own class. A regular expression is the functions on texts that do what its parts say.
--
-- Not modelled: the controllers other than those of tasks and meetings, the texts for Swagger,
-- configuration, the set-up of Firebase and of the S3 client, the logger, and the conversion of a query
-- text to the query that a service takes.
pub mod Common
pub mod Store
pub mod Crud
pub mod Sync
pub mod Recurrence
pub mod Tasks
pub mod Resources
pub mod Errors
pub mod Storage
pub mod Uploads
pub mod Activity
pub mod Meetings
pub mod Replies
pub mod Users
pub mod Requests
pub mod Origins
pub mod Examples
