-- ===== src/Context/Attachments.antt =====
-- django_ag_ui/agent/attachment_context_items.py and build_untrusted_context.py: the files that a
-- conversation mentions, as an item of the client's context. A value is told apart as far as
-- `isinstance` does here.
use django_ag_ui.Base.{
  ℕ, String, Text, List, Option, Bool, true, false, none, some, [], ◌∷◌, ◌++◌, ◌==◌, codes,
  contains, decimal, map, is_empty, if◌then◌else◌, ◌+◌,
}
use django_ag_ui.Base.Int.{ℤ, pos, negsuc}
use django_ag_ui.Base.Dict.{Dict, lookup}
use django_ag_ui.Base.Spaces.{strip}
use django_ag_ui.Context.{ContextItem, newline, render_untrusted_context}

-- What a mapping holds under a key.
pub data Value : Type 0 where
  text : String → Value
  int : ℤ → Value
  flag : Bool → Value
  other_value : Value

-- What a list of refs holds.
pub data Entry : Type 0 where
  mapping : Dict Value → Entry
  other_entry : Entry

pub data Refs : Type 0 where
  refs : List Entry → Refs
  other_refs : Refs

-- `metadata` is `none` where it is no mapping; both carriers hold what stands under "attachments".
pub record Posted : Type 0 where
  pub by_user : Bool
  pub metadata : Option (Option Refs)
  pub extra : Option Refs

-- A `bool` is an `int` in Python, and is written as one of its two names.
pub data Size : Type 0 where
  bytes : ℤ → Size
  truth : Bool → Size

-- `_AttachmentMention`
pub record Mention : Type 0 where
  pub id : String
  pub name : String
  mime : String
  pub size : Option Size

-- `_attachment_refs`
unfoldable pub attachment_refs : Option (Option Refs) → Option Refs → Option Refs
attachment_refs (some (some r)) extra = some r
attachment_refs (some none) extra = extra
attachment_refs none extra = extra

text_or_empty : Option Value → String
text_or_empty (some (text s)) = s
text_or_empty _ = ""

size_or_none : Option Value → Option Size
size_or_none (some (int n)) = some (bytes n)
size_or_none (some (flag b)) = some (truth b)
size_or_none _ = none

identified : Dict Value → Option Value → Option Mention
unfolding text_or_empty size_or_none strip lookup
identified d (some (text id)) =
    if is_empty (strip (codes id))
    then none
    else some (record {
      id = id;
      name = text_or_empty (lookup "name" d);
      mime = text_or_empty (lookup "mime" d);
      size = size_or_none (lookup "size" d);
    })
identified d _ = none

-- `_parse_mention`
pub parse_mention : Entry → Option Mention
unfolding identified lookup
parse_mention (mapping d) = identified d (lookup "id" d)
parse_mention other_entry = none

abbrev pub ids_of : List Mention → List String
ids_of mentions = map (λ m. m.id) mentions

-- The body of the inner loop.
unfoldable pub mentioned : List Mention → Option Mention → List Mention
mentioned mentions none = mentions
mentioned mentions (some m) =
    if contains (ids_of mentions) m.id then mentions else mentions ++ m ∷ []

unfoldable pub entries_mentioned : List Mention → List Entry → List Mention
unfolding mentioned parse_mention
entries_mentioned mentions [] = mentions
entries_mentioned mentions (e ∷ entries) =
    entries_mentioned (mentioned mentions (parse_mention e)) entries

unfoldable pub refs_mentioned : List Mention → Option Refs → List Mention
unfolding entries_mentioned
refs_mentioned mentions (some (refs entries)) = entries_mentioned mentions entries
refs_mentioned mentions _ = mentions

unfoldable pub message_mentioned : List Mention → Bool → Posted → List Mention
unfolding refs_mentioned attachment_refs
message_mentioned mentions true m = refs_mentioned mentions (attachment_refs m.metadata m.extra)
message_mentioned mentions false m = mentions

-- The loop over the messages.
unfoldable pub mentions_of : List Mention → List Posted → List Mention
unfolding message_mentioned
mentions_of mentions [] = mentions
mentions_of mentions (m ∷ ms) = mentions_of (message_mentioned mentions m.by_user m) ms

int_text : ℤ → Text
unfolding decimal
int_text (pos n) = decimal n
int_text (negsuc n) = 45 ∷ decimal (n + 1)

size_text : Option Size → Text
unfolding int_text
size_text none = codes "size unknown"
size_text (some (bytes n)) = int_text n ++ codes " bytes"
size_text (some (truth true)) = codes "True bytes"
size_text (some (truth false)) = codes "False bytes"

or_text : String → String → Text
or_text s default = if s == "" then codes default else codes s

-- `_line`
pub line : Mention → Text
unfolding size_text or_text
line m =
    codes "- "
    ++ or_text m.name "attachment"
    ++ codes " (id: "
    ++ codes m.id
    ++ codes ", "
    ++ or_text m.mime "unknown type"
    ++ codes ", "
    ++ size_text m.size
    ++ codes ")"

-- `"\n".join([*lines, _READ_HINT])`
pub manifest : List Mention → Text
unfolding line
manifest [] = codes "Use the read_attachment tool with an id to read a file's contents."
manifest (m ∷ ms) = line m ++ newline ++ manifest ms

listed : List Mention → List ContextItem
unfolding manifest
listed [] = []
listed (m ∷ ms) =
    record {
      label = codes "Files the user has attached to this conversation";
      value = manifest (m ∷ ms);
    }
    ∷ []

pub attachment_context_items : List Posted → List ContextItem
unfolding listed mentions_of
attachment_context_items messages = listed (mentions_of [] messages)

given_if : Bool → List ContextItem → List ContextItem
given_if true items = items
given_if false items = []

-- The items of `build_untrusted_context`: its two flags, the client's context and the messages.
pub context_items : Bool → Bool → List ContextItem → List Posted → List ContextItem
unfolding given_if attachment_context_items
context_items client_context attachment_manifest context messages =
    given_if client_context context
    ++ given_if attachment_manifest (attachment_context_items messages)

unfoldable pub build_untrusted_context :
    Bool → Bool → List ContextItem → List Posted → ℕ → Option Text
unfolding context_items render_untrusted_context
build_untrusted_context client_context attachment_manifest context messages max_chars =
    render_untrusted_context (context_items client_context attachment_manifest context messages)
      max_chars
