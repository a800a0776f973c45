-- ===== src/Threads/Tests.antt =====
-- One thread with a chart and its revision, and one store of thread titles
-- (django_ag_ui/persistence/threads_view.py).
use django_ag_ui.Base.{ℕ, String, Text, Option, List, none, some, [], ◌∷◌, ◌==◌, ◌≡◌, refl, codes}
use django_ag_ui.Http.{Method.patch, Method.post}
use django_ag_ui.Wire.{Message, user, plain, str}
use django_ag_ui.Relabel.{message_ids}
use django_ag_ui.Threads.{
  ThreadActivity, with_activities, tabled, placed, merged, as_activity_message, Decoded.object,
  Limit.not_given,
}
use django_ag_ui.Threads.Merge.{threaded, with_activities-eq-threaded}
use django_ag_ui.Threads.Requests.{Request, ConversationStore, ThreadsView, call}
use django_ag_ui.Threads.Requests.Guarded.{Patched, call_patch}

abbrev said : String → Message
said k = record { id = k; body = user (plain (codes "hi")); metadata = none; extra = [] }

abbrev chart : String → Option String → String → ThreadActivity
chart k anchor title = record {
  message_id = k;
  activity_type = "chart";
  content = ("title", str title) ∷ [];
  after_message_id = anchor;
}

abbrev thread_messages : List Message
thread_messages = said "m1" ∷ said "m2" ∷ []

abbrev recorded : List ThreadActivity
recorded =
    chart "c1" (some "m1") "old" ∷ chart "c2" (some "gone") "kept" ∷ chart "c1" none "new" ∷ []

revision_in_place :
    with_activities thread_messages recorded
    ≡ some (
        said "m1"
        ∷ as_activity_message (chart "c1" none "new")
        ∷ said "m2"
        ∷ as_activity_message (chart "c2" none "kept")
        ∷ [])
unfolding with_activities tabled placed merged as_activity_message
revision_in_place = refl

with_activities-eq-threaded_example :
    with_activities thread_messages recorded
    ≡ some (threaded (message_ids thread_messages) recorded thread_messages)
with_activities-eq-threaded_example = with_activities-eq-threaded thread_messages recorded

-- A store whose state is the title of its one thread.
abbrev titles : ConversationStore Text ℕ
titles = record {
  list = λ request limit w. (some [], w);
  load = λ request k w. (some none, w);
  delete = λ request k w. (some tt, w);
  exists = λ request k w. (some (k == "t1"), w);
  rename = λ request k title w. (some tt, title);
}

abbrev titles_view : ThreadsView Text ℕ
titles_view = record {
  store = titles;
  authorize = λ request w. none;
  thread_list_limit = 50;
  thread_activity_source = none;
}

abbrev rename_request : Request
rename_request = record {
  method = patch;
  limit = not_given;
  body = object (("title", some (codes " New ")) ∷ []);
}

call_patch_example :
    Patched titles_view rename_request "t1" [] (call titles_view rename_request (some "t1") []).1
call_patch_example = call_patch titles_view rename_request "t1" [] refl

abbrev post_request : Request
post_request = record { method = post; limit = not_given; body = object [] }
