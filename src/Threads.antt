-- ===== src/Threads.antt =====
-- django_ag_ui/persistence/threads_view.py: the list of threads, one thread with its activities,
-- its renaming and its deletion. The conversation store and the activity source are parameters.
pub mod Tabled
pub mod Merge
pub mod Requests
mod Tests
use django_ag_ui.Base.{
  ℕ, String, Text, List, Option, Bool, true, false, none, some, [], ◌∷◌, ◌++◌, ◌==◌, contains, take,
  is_empty, and_then, ltb, min, if◌then◌else◌,
}
use django_ag_ui.Base.Dict.{Dict, lookup, insert, update, or_nil}
use django_ag_ui.Base.Int.{ℤ, pos, negsuc, not_positive}
use django_ag_ui.Base.Spaces.{strip}
use django_ag_ui.Http.{
  Method, Method.get, Method.patch, Method.delete, Reply, json, error, bare, not_allowed,
  auth_error,
}
use django_ag_ui.Wire.{Fields, Message, activity}
use django_ag_ui.Relabel.{message_ids}

-- `ThreadActivity`: a recorded `ActivitySnapshotEvent` and the message it goes after.
pub record ThreadActivity : Type 0 where
  pub message_id : String
  pub activity_type : String
  pub content : Fields
  pub after_message_id : Option String

-- The three tables of `_with_activities`.
pub record Tables : Type 0 where
  pub order : List String
  anchors : Dict (Option String)
  pub events : Dict ThreadActivity

-- `anchor if anchor in known else None`
abbrev pub known_anchor : List String → Option String → Option String
known_anchor known none = none
known_anchor known (some a) = if contains known a then some a else none

abbrev pub noted : List String → ThreadActivity → Tables → Option ThreadActivity → Tables
noted known a t (some e) = record t { events = insert a.message_id a t.events }
noted known a t none = record {
  order = t.order ++ a.message_id ∷ [];
  anchors = insert a.message_id (known_anchor known a.after_message_id) t.anchors;
  events = insert a.message_id a t.events;
}

-- The loop over the activities.
unfoldable pub tabled : List String → List ThreadActivity → Tables → Tables
unfolding lookup insert
tabled known [] t = t
tabled known (a ∷ as') t = tabled known as' (noted known a t (lookup a.message_id t.events))

-- `_as_activity_message`
unfoldable pub as_activity_message : ThreadActivity → Message
as_activity_message a = record {
  id = a.message_id;
  body = activity a.activity_type a.content;
  metadata = none;
  extra = [];
}

abbrev pub Placed : Type 0
Placed = List Message × Dict (List Message)

-- One round of the loop over `order`; `none` is a `KeyError`.
abbrev pub placed_at : Option ThreadActivity → Option (Option String) → Placed → Option Placed
unfolding as_activity_message update
placed_at (some e) (some none) p = some (p.0 ++ as_activity_message e ∷ [], p.1)
placed_at (some e) (some (some anchor)) p =
    some (p.0, update anchor [] (λ q. q ++ as_activity_message e ∷ []) p.1)
placed_at e anchor p = none

unfoldable pub placed : Tables → List String → Placed → Option Placed
unfolding placed_at lookup
placed t [] p = some p
placed t (k ∷ ks) p =
    and_then (placed_at (lookup k t.events) (lookup k t.anchors) p) (λ q. placed t ks q)

-- The last loop, with the trailing activities.
unfoldable pub merged : List Message → Placed → List Message
unfolding lookup
merged [] p = p.0
merged (m ∷ ms) p = (m ∷ or_nil (lookup m.id p.1)) ++ merged ms p

abbrev pub merged_all : List Message → Option Placed → Option (List Message)
unfolding merged
merged_all ms none = none
merged_all ms (some p) = some (merged ms p)

abbrev pub no_tables : Tables
no_tables = record { order = []; anchors = []; events = [] }

-- `_with_activities`
unfoldable pub with_activities : List Message → List ThreadActivity → Option (List Message)
unfolding tabled placed merged_all
with_activities ms activities =
    let t = tabled (message_ids ms) activities no_tables in
    merged_all ms (placed t t.order ([], []))

-- The `title` of the decoded body: a body that `json.loads` refuses or that is no object has none,
-- and neither has a field that is no text.
pub data Decoded : Type 0 where
  refused : Decoded
  no_object : Decoded
  object : Dict (Option Text) → Decoded

abbrev title_of : Option (Option Text) → Option Text
title_of (some (some title)) = some title
title_of _ = none

abbrev max_title_len : ℕ
max_title_len = 255

abbrev capped_title : Option Text → Option Text
unfolding strip
capped_title none = none
capped_title (some title) =
    let stripped = strip title in
    if is_empty stripped then none else some (take max_title_len stripped)

-- `_parse_title`
unfoldable pub parse_title : Decoded → Option Text
unfolding capped_title lookup
parse_title (object fields) = capped_title (title_of (lookup "title" fields))
parse_title _ = none

-- What `int` makes of `?limit`, if it is given.
pub data Limit : Type 0 where
  not_given : Limit
  no_integer : Limit
  integer : ℤ → Limit

-- `_effective_limit`
unfoldable pub effective_limit : Limit → ℕ → ℕ
effective_limit not_given cap = cap
effective_limit no_integer cap = cap
effective_limit (integer (negsuc n)) cap = cap
effective_limit (integer (pos n)) cap = if ltb n 1 then cap else min n cap
