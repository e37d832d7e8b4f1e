-- ===== src/Sync/Schema/Models.antt =====
-- The block of a model: what is written for its columns and its table is what is read.
use Prim.Native.Char.{Char}
use Prim.Native.String as Text
use Prim.Native.String.{◌++◌}
use mathlib.Core.List as L
use mathlib.Core.List.{append-nil, append_assoc}
use planner_api.Common.{
  String, ◌≡◌, ◌≢◌, refl, ap, sym, ◌∙◌, true, false, not, ◌&&◌, Option, none, some, List, [], ◌∷◌,
  ◌==◌, filter, if◌then◌else◌, All, map,
}
use planner_api.Common.Texts.{strip, trim_end, trim_start, is_white, trim, has_letter, split_at}
use planner_api.Common.Strip.{strip-append}
use planner_api.Common.Split.{
  Letters, StartsOff, EndsOff, Lacks, not_empty, one_letter, trim_start-StartsOff, trim_end-EndsOff,
  EndsOff-append, EndsOff-last, Lacks-append, split_at-append, span-append,
}
use planner_api.Common.Scan.{
  word_letters, present, quoted, first, quoted_at, before_quote, closed, nonempty, ◌>>=◌,
}
use planner_api.Sync.Schema.{
  FieldLine, or_else, model_read, comment, is_kept_line, add_read, add_line, field_line,
  block_lines, read_lines, field_of, model_of, PrismaField,
}
use planner_api.Sync.Schema.Lines.{
  IsWord, IsLine, written, modifiers, StartsOff-word, field_line-written,
}
use text.Mathlib.TextLemmas.{cons-append}
use planner_api.Sync.Schema.Neat.{word_is_not, Neat-written}

-- The line of a column inside its block.
abbrev pub indented : String → String
indented line = "  " ++ line

trim-indented : (s : String) → StartsOff is_white s → EndsOff is_white s → trim (indented s) ≡ s
unfolding trim trim_start is_white
trim-indented s starts ends =
    ap trim_end (
      ap trim_start (cons-append " " " " s ∙ ap (Text.◌∷◌ " ") (one_letter " " s))
      ∙ trim_start-StartsOff s starts)
    ∙ trim_end-EndsOff s ends

-- The line of a column is no comment, and no attribute of the block.
not_literal :
    (c : Char) (t w s : String)
    → has_letter (Text.◌∷◌ c "") word_letters ≡ false
    → IsWord w
    → strip (Text.◌∷◌ c t) (w ++ s) ≡ none
unfolding strip
not_literal c t Text.[] s off h = absurd h
not_literal c t (Text.◌∷◌ e w) s off (h, rest) =
    rw (cons-append e w s) (rw (word_is_not (Text.◌∷◌ c "") e off h) refl)

keeps_line : (w s : String) → IsWord w → not (w ++ s == "") && not (comment (w ++ s)) ≡ true
unfolding has_letter
keeps_line Text.[] s h = absurd h
keeps_line (Text.◌∷◌ c w) s h =
    ap (λ x. not (Text.◌∷◌ c w ++ s == "") && not (present x))
      (not_literal "/" "/" (Text.◌∷◌ c w) s refl h)
    ∙ ap (λ x. not (x == "") && true) (cons-append c w s)
    ∙ ap (λ x. not x && true) (not_empty c (w ++ s))

at_sign : has_letter "@" word_letters ≡ false
unfolding has_letter
at_sign = refl

-- The lines of the columns, each with its line end, and what follows them.
abbrev pub rows : List FieldLine → String → String
rows [] b = b
rows (f ∷ fs) b = indented (written f) ++ Text.◌∷◌ "\n" (rows fs b)

block_lines-line :
    (line b : String)
    → Lacks "\n" (indented line)
    → trim (indented line) ≡ line
    → is_kept_line line ≡ true
    → block_lines (indented line ++ Text.◌∷◌ "\n" b) ≡ line ∷ block_lines b
unfolding block_lines
block_lines-line line b lacks trimmed kept =
    ap (λ l. filter is_kept_line (map trim l)) (split_at-append "\n" (indented line) b lacks)
    ∙ ap (λ x. filter is_kept_line (x ∷ map trim (split_at "\n" b))) trimmed
    ∙ ap (λ x. if x then line ∷ block_lines b else block_lines b) kept

block_lines-rows :
    (fs : List FieldLine) (b : String)
    → All IsLine fs
    → block_lines (rows fs b) ≡ L.◌++◌ (map written fs) (block_lines b)
block_lines-rows [] b h = refl
block_lines-rows (f ∷ fs) b (h, rest) =
    let after = " " ++ (f.type_name ++ modifiers f) in
    let (lacks, ends) = Neat-written f h in
    block_lines-line (written f) (rows fs b)
      (Lacks-append "\n" "  " (written f) (refl, (refl, tt)) lacks)
      (trim-indented (written f) (StartsOff-word f.name after h.name_word) ends)
      (keeps_line f.name after h.name_word)
    ∙ ap (λ l. written f ∷ l) (block_lines-rows fs b rest)

module _ (bodies : List (String × String)) (enums : List (String × List String)) where
  add_line-written :
      (f : FieldLine) (name : String) (done : List PrismaField)
      → IsLine f
      → add_line bodies enums (written f) (name, done)
        ≡ (name, L.◌++◌ done (field_of bodies enums f ∷ []))
  add_line-written f name done h =
      ap (λ o. add_read bodies enums (written f) (present o) (field_line (written f)) (name, done))
        (not_literal "@" "@" f.name (" " ++ (f.type_name ++ modifiers f)) at_sign h.name_word)
      ∙ ap (λ o. add_read bodies enums (written f) false o (name, done)) (field_line-written f h)

  -- Reading the lines of columns, one after the other.
  read_lines-written :
      (fs : List FieldLine) (lines : List String) (name : String) (done : List PrismaField)
      → All IsLine fs
      → read_lines bodies enums (L.◌++◌ (map written fs) lines) (name, done)
        ≡ read_lines bodies enums lines (name, L.◌++◌ done (map (field_of bodies enums) fs))
  unfolding read_lines
  read_lines-written [] lines name done h =
      ap (λ l. read_lines bodies enums lines (name, l)) (sym (append-nil done))
  read_lines-written (f ∷ fs) lines name done (h, rest) =
      ap (read_lines bodies enums (L.◌++◌ (map written fs) lines)) (add_line-written f name done h)
      ∙ read_lines-written fs lines name (L.◌++◌ done (field_of bodies enums f ∷ [])) rest
      ∙ ap (λ l. read_lines bodies enums lines (name, l))
          (append_assoc done (field_of bodies enums f ∷ []) (map (field_of bodies enums) fs))

abbrev pub mapped : String → String
mapped table = "@@map(\"" ++ (table ++ "\")")

-- A block's body: the columns, and the table's name if the model's is not it.
abbrev pub mapping : Option String → String
mapping none = ""
mapping (some table) = indented (mapped table) ++ Text.◌∷◌ "\n" ""

abbrev mapping_lines : Option String → List String
mapping_lines none = []
mapping_lines (some table) = mapped table ∷ []

abbrev pub body : Option String → List FieldLine → String
body table fs = Text.◌∷◌ "\n" (rows fs (mapping table))

-- A table's name that Prisma can write between quotes.
abbrev pub IsTable : Option String → Type 0
IsTable none = Unit
IsTable (some table) = (table ≢ "") × Lacks "\"" table × Lacks "\n" table

Letters-Lacks : (s : String) → Lacks "\"" s → Letters (λ c. not (Text.◌∷◌ c "" == "\"")) s
Letters-Lacks Text.[] h = tt
Letters-Lacks (Text.◌∷◌ c s) (h, rest) = (ap not h, Letters-Lacks s rest)

quoted-at :
    (marker s value : String) → quoted_at marker s ≡ some value → quoted marker s ≡ some value
unfolding quoted
quoted-at marker Text.[] value h = h
quoted-at marker (Text.◌∷◌ c s) value h = ap (λ o. first o (quoted marker s)) h

nonempty-some : (s t : String) → s ≢ "" → nonempty (s, t) ≡ some (s, t)
nonempty-some Text.[] t h = absurd (h refl)
nonempty-some (Text.◌∷◌ c s) t h = rw (not_empty c s) refl

quoted-mapped :
    (table : String) → IsTable (some table) → quoted "@@map(\"" (mapped table) ≡ some table
unfolding strip
quoted-mapped table (filled, quotes, ends) = quoted-at "@@map(\"" (mapped table) table (
    ap (λ o. o >>= (λ t. before_quote t >>= closed)) (strip-append "@@map(\"" (table ++ "\")"))
    ∙ ap (λ p. nonempty p >>= closed)
        (span-append (λ c. not (Text.◌∷◌ c "" == "\"")) table "\")" (Letters-Lacks table quotes)
          refl)
    ∙ ap (λ o. o >>= closed) (nonempty-some table "\")" filled)
    ∙ refl)

mapped-cons : (table : String) → mapped table ≡ Text.◌∷◌ "@" ("@map(\"" ++ (table ++ "\")"))
mapped-cons table = cons-append "@" "@map(\"" (table ++ "\")")

mapped-StartsOff : (table : String) → StartsOff is_white (mapped table)
unfolding is_white
mapped-StartsOff table = rw (mapped-cons table) refl

mapped-EndsOff : (table : String) → EndsOff is_white (mapped table)
unfolding is_white
mapped-EndsOff table =
    EndsOff-append is_white "@@map(\"" (table ++ "\")") refl
      (EndsOff-last is_white table ")" "\"" refl)

mapped-is_kept_line : (table : String) → is_kept_line (mapped table) ≡ true
unfolding strip
mapped-is_kept_line table =
    rw (mapped-cons table) (rw (not_empty "@" ("@map(\"" ++ (table ++ "\")"))) refl)

block_lines-mapping :
    (table : Option String) → IsTable table → block_lines (mapping table) ≡ mapping_lines table
unfolding block_lines split_at
block_lines-mapping none h = refl
block_lines-mapping (some table) (filled, quotes, ends) =
    block_lines-line (mapped table) ""
      (Lacks-append "\n" "  " (mapped table) (refl, (refl, tt))
        (Lacks-append "\n" "@@map(\"" (table ++ "\")")
          (refl, (refl, (refl, (refl, (refl, (refl, (refl, tt)))))))
          (Lacks-append "\n" table "\")" ends (refl, (refl, tt)))))
      (trim-indented (mapped table) (mapped-StartsOff table) (mapped-EndsOff table))
      (mapped-is_kept_line table)

block_lines-body :
    (table : Option String) (fs : List FieldLine)
    → block_lines (body table fs) ≡ block_lines (rows fs (mapping table))
unfolding block_lines split_at trim trim_start
block_lines-body table fs = refl

strip-mapped : (table : String) → strip "@@" (mapped table) ≡ some ("map(\"" ++ (table ++ "\")"))
unfolding strip
strip-mapped table = rw (mapped-cons table) (rw (cons-append "@" "map(\"" (table ++ "\")")) refl)

read_lines-mapping :
    (bodies : List (String × String)) (enums : List (String × List String)) (table : Option String)
    (name : String) (fields : List PrismaField)
    → IsTable table
    → read_lines bodies enums (mapping_lines table) (name, fields) ≡ (or_else table name, fields)
unfolding read_lines
read_lines-mapping bodies enums none name fields h = refl
read_lines-mapping bodies enums (some table) name fields h =
    ap (λ b. add_read bodies enums (mapped table) b (field_line (mapped table)) (name, fields))
      (ap present (strip-mapped table))
    ∙ ap (λ o. (or_else o name, fields)) (quoted-mapped table h)

-- The block of a model that is written column by column, with its table's name under them, is
-- read as that model: its table and, in their order, the columns with the kind, the marks and
-- the attributes that were written.
pub model_of-body :
    (bodies : List (String × String)) (enums : List (String × List String)) (name : String)
    (table : Option String) (fs : List FieldLine)
    → IsTable table
    → All IsLine fs
    → model_of bodies enums name (body table fs)
      ≡ model_read name (or_else table name, map (field_of bodies enums) fs)
unfolding model_of
model_of-body bodies enums name table fs h lines =
    ap (λ l. model_read name (read_lines bodies enums l (name, [])))
      (block_lines-body table fs
        ∙ block_lines-rows fs (mapping table) lines
        ∙ ap (L.◌++◌ (map written fs)) (block_lines-mapping table h))
    ∙ ap (model_read name) (
        read_lines-written bodies enums fs (mapping_lines table) name [] lines
        ∙ read_lines-mapping bodies enums table name (map (field_of bodies enums) fs) h)
