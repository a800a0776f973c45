-- ===== src/StoredIds.antt =====
-- django_ag_ui/agent/lend_stored_ids.py: a resumed history, each message under the id the stored
-- conversation holds for it.
pub mod Held
pub mod Lending
mod Tests
use django_ag_ui.Base.{
  ℕ, ◌+◌, String, Text, List, Option, Bool, true, false, none, some, [], ◌∷◌, ◌++◌, ◌==◌, ◌&&◌, map,
  length, take, drop, leb, ltb, nat_eq, contains, is_empty, text_eq, without_newlines,
  if◌then◌else◌,
}
use django_ag_ui.Base.Dict.{Dict, lookup, insert, update, or_nil}
use django_ag_ui.Wire.{
  Fields, same_fields, ToolCall, Body, Message, assistant, tool, reasoning, activity,
}
use django_ag_ui.Relabel.{relabel, message_ids}
use django_ag_ui.Transcript.StreamedIds.{calls_of}

-- What a message is matched by within its kind.
pub data Key : Type 0 where
  call : String → Key
  calls : List String → Key
  flat : Text → Key

abbrev same_ids : List String → List String → Bool
same_ids [] [] = true
same_ids (a ∷ as') (b ∷ bs) = a == b && same_ids as' bs
same_ids _ _ = false

abbrev pub same_key : Key → Key → Bool
same_key (call a) (call b) = a == b
same_key (calls a) (calls b) = same_ids a b
same_key (flat a) (flat b) = text_eq a b
same_key _ _ = false

-- `_flat`
unfoldable flat_text : Option Text → Text
flat_text none = []
flat_text (some t) = without_newlines t

abbrev call_ids : List ToolCall → List String
call_ids [] = []
call_ids (c ∷ cs) = c.id ∷ call_ids cs

abbrev answer_key : Option Text → List ToolCall → String × Key
answer_key content [] = ("text", flat (flat_text content))
answer_key content (c ∷ cs) = ("calls", calls (call_ids (c ∷ cs)))

-- `_kind_and_key`
unfoldable pub kind_and_key : Body → Option (String × Key)
unfolding flat_text
kind_and_key (tool id content) = some ("tool", call id)
kind_and_key (assistant content cs) = some (answer_key content (calls_of cs))
kind_and_key (reasoning content) = some ("reasoning", flat (flat_text (some content)))
kind_and_key b = none

abbrev Row : Type 0
Row = List (Key × String)

abbrev pub keyed_row : Option (String × Key) → String → Dict Row → Dict Row
keyed_row none id rows = rows
keyed_row (some (kind, key)) id rows = update kind [] (λ row. row ++ (key, id) ∷ []) rows

-- `rows`: each kind's keys and ids, in stored order.
unfoldable pub rows_of : Dict Row → List Message → Dict Row
unfolding kind_and_key update
rows_of rows [] = rows
rows_of rows (m ∷ ms) = rows_of (keyed_row (kind_and_key m.body) m.id rows) ms

-- The loop of `_next_match` from one index on: the index found and the id.
unfoldable pub scan : ℕ → Row → Key → Option (ℕ × String)
scan index [] key = none
scan index ((k, id) ∷ row) key =
    if same_key k key then some (index, id) else scan (index + 1) row key

-- A `Counter` counts 0 for a key it does not hold.
abbrev count_of : Option ℕ → ℕ
count_of none = 0
count_of (some n) = n

abbrev pub matched : Dict ℕ → String → Option (ℕ × String) → Option String × Dict ℕ
matched cursors kind none = (none, cursors)
matched cursors kind (some (index, id)) = (some id, insert kind (index + 1) cursors)

-- `_next_match`
unfoldable pub next_match : Dict Row → Dict ℕ → String → Key → Option String × Dict ℕ
unfolding scan lookup insert
next_match rows cursors kind key =
    let start = count_of (lookup kind cursors) in
    matched cursors kind (scan start (drop start (or_nil (lookup kind rows))) key)

abbrev dump_at : ℕ → Body → Dict (List (ℕ × Fields)) → Dict (List (ℕ × Fields))
dump_at position (activity type content) dumped =
    update type [] (λ l. l ++ (position, content) ∷ []) dumped
dump_at position b dumped = dumped

-- `dumped`: the activities of each type, with their positions.
unfoldable pub dumped_at : ℕ → Dict (List (ℕ × Fields)) → List Message → Dict (List (ℕ × Fields))
unfolding update
dumped_at position dumped [] = dumped
dumped_at position dumped (m ∷ ms) = dumped_at (position + 1) (dump_at position m.body dumped) ms

abbrev hold : String → Body → Dict (List (String × Fields)) → Dict (List (String × Fields))
hold id (activity type content) held = update type [] (λ l. l ++ (id, content) ∷ []) held
hold id b held = held

-- `held`: the stored activities of each type.
unfoldable pub held_of :
    Dict (List (String × Fields)) → List Message → Dict (List (String × Fields))
unfolding update
held_of held [] = held
held_of held (m ∷ ms) = held_of (hold m.id m.body held) ms

-- `all(found.content == message.content ...)`
unfoldable pub all_equal : List (ℕ × Fields) → List (String × Fields) → Bool
unfolding same_fields
all_equal ((position, content) ∷ wanted) ((id, found) ∷ row) =
    same_fields found content && all_equal wanted row
all_equal _ _ = true

abbrev pub Places : Type 0
Places = List (ℕ × String)

abbrev pub put_at : ℕ → String → Places → Places
put_at p x [] = (p, x) ∷ []
put_at p x ((q, y) ∷ ps) = if nat_eq q p then (p, x) ∷ ps else (q, y) ∷ put_at p x ps

abbrev pub lookup_at : ℕ → Places → Option String
lookup_at p [] = none
lookup_at p ((q, x) ∷ ps) = if nat_eq q p then some x else lookup_at p ps

-- `paired.update(...)`
unfoldable pub put_pairs : List (ℕ × Fields) → List (String × Fields) → Places → Places
put_pairs ((position, content) ∷ wanted) ((id, found) ∷ row) paired =
    put_pairs wanted row (put_at position id paired)
put_pairs _ _ paired = paired

-- The loop of `_paired_activities` over the types dumped.
unfoldable pub pair_types :
    Dict (List (String × Fields)) → Dict (List (ℕ × Fields)) → Places → Places
unfolding all_equal put_pairs lookup
pair_types held [] paired = paired
pair_types held ((type, wanted) ∷ dumped) paired =
    let row = take (length wanted) (or_nil (lookup type held)) in
    pair_types held dumped (
      if ltb (length row) (length wanted)
      then paired
      else if all_equal wanted row
      then put_pairs wanted row paired
      else paired)

-- `_paired_activities`
unfoldable pub paired_activities : List Message → List Message → Places
unfolding pair_types held_of dumped_at
paired_activities ms stored = pair_types (held_of [] stored) (dumped_at 0 [] ms) []

-- What the loop consumes: where it is, and the cursor of each kind.
pub record Cursor : Type 0 where
  pub position : ℕ
  pub cursors : Dict ℕ

abbrev keyed_match : Dict Row → Dict ℕ → Option (String × Key) → Option String × Dict ℕ
keyed_match rows cursors none = (none, cursors)
keyed_match rows cursors (some (kind, key)) = next_match rows cursors kind key

abbrev choose_id : Dict Row → Places → Cursor → Body → Option String × Dict ℕ
choose_id rows activities c (activity type content) = (lookup_at c.position activities, c.cursors)
choose_id rows activities c b = keyed_match rows c.cursors (kind_and_key b)

unfoldable pub choose : Dict Row → Places → Cursor → Message → Option String × Cursor
unfolding next_match kind_and_key
choose rows activities c m =
    let (lent, cursors) = choose_id rows activities c m.body in
    (lent, record { position = c.position + 1; cursors = cursors })

abbrev pub from_start : Cursor
from_start = record { position = 0; cursors = [] }

-- `lend_stored_ids`
unfoldable pub lend_stored_ids : List Message → List Message → List String → List Message
unfolding choose rows_of paired_activities
lend_stored_ids ms stored reserved =
    relabel (choose (rows_of [] stored) (paired_activities ms stored)) (contains (message_ids ms))
      from_start reserved ms
