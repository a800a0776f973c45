-- ===== src/Threads/Requests.antt =====
-- The requests of django_ag_ui/persistence/threads_view.py over a conversation store. An operation
-- of the store gives `none` where it raises `AnonymousOperationError`.
pub mod Guarded
use django_ag_ui.Base.{
  ℕ, String, Text, List, Option, Bool, true, false, none, some, [], ◌∷◌, if◌then◌else◌,
}
use django_ag_ui.Http.{
  Method, Method.get, Method.patch, Method.delete, Reply, Reply.json, Reply.error, Reply.bare,
  Reply.not_allowed, Reply.auth_error,
}
use django_ag_ui.Wire.{Message}
use django_ag_ui.Threads.{
  ThreadActivity, with_activities, Decoded, parse_title, Limit, effective_limit,
}

pub record Request : Type 0 where
  pub method : Method
  pub limit : Limit
  pub body : Decoded

-- The store's operations on its rows; a row is given by its messages.
pub record ConversationStore (World Meta : Type 0) : Type 0 where
  pub list : Request → ℕ → World → Option (List Meta) × World
  pub load : Request → String → World → Option (Option (List Message)) × World
  pub delete : Request → String → World → Option (Unit {0}) × World
  pub exists : Request → String → World → Option Bool × World
  pub rename : Request → String → Text → World → Option (Unit {0}) × World

pub record ThreadsView (World Meta : Type 0) : Type 0 where
  pub store : ConversationStore World Meta
  pub authorize : Request → World → Option ℕ
  pub thread_list_limit : ℕ
  pub thread_activity_source :
      Option (Request → String → List Message → World → List ThreadActivity)

-- The bodies of the responses.
pub data Page (Meta : Type 0) : Type 0 where
  threads : List Meta → Page Meta
  thread : String → List Message → Page Meta
  renamed : String → Text → Page Meta

module _ {World Meta : Type 0} (v : ThreadsView World Meta) (request : Request) where
  -- A raised `AnonymousOperationError` is answered by 403.
  pub or_403 :
      {A : Type 0}
      → (A → World → Reply (Page Meta) × World)
      → Option A × World
      → Reply (Page Meta) × World
  or_403 f (none, w) = (auth_error 403, w)
  or_403 f (some a, w) = f a w

  -- `_list`
  pub list_threads : Method → World → Reply (Page Meta) × World
  unfolding or_403 effective_limit
  list_threads Method.get w =
      or_403 (λ metas w. (json 200 (threads metas), w))
        (v.store.list request (effective_limit request.limit v.thread_list_limit) w)
  list_threads _ w = (not_allowed (get ∷ []), w)

  -- `_merge_activities`
  merge_activities :
      Option (Request → String → List Message → World → List ThreadActivity)
      → String
      → List Message
      → World
      → Option (List Message)
  unfolding with_activities
  merge_activities none thread_id ms w = some ms
  merge_activities (some activities_for) thread_id ms w =
      with_activities ms (activities_for request thread_id ms w)

  -- An exception that escapes the view is answered by 500.
  page_of : String → Option (List Message) → Reply (Page Meta)
  page_of thread_id none = error 500
  page_of thread_id (some ms) = json 200 (thread thread_id ms)

  found_thread : String → Option (List Message) → World → Reply (Page Meta) × World
  unfolding page_of merge_activities
  found_thread thread_id none w = (error 404, w)
  found_thread thread_id (some ms) w =
      (page_of thread_id (merge_activities v.thread_activity_source thread_id ms w), w)

  pub if_exists : String → Text → Bool → World → Reply (Page Meta) × World
  unfolding or_403
  if_exists thread_id title false w = (error 404, w)
  if_exists thread_id title true w =
      or_403 (λ u w. (json 200 (renamed thread_id title), w))
        (v.store.rename request thread_id title w)

  pub rename_to : String → Option Text → World → Reply (Page Meta) × World
  unfolding or_403 if_exists
  rename_to thread_id none w = (error 400, w)
  rename_to thread_id (some title) w =
      or_403 (if_exists thread_id title) (v.store.exists request thread_id w)

  -- `_detail` with `_rename`
  pub detail : String → Method → World → Reply (Page Meta) × World
  unfolding or_403 found_thread rename_to parse_title
  detail thread_id Method.get w = or_403 (found_thread thread_id) (v.store.load request thread_id w)
  detail thread_id Method.patch w = rename_to thread_id (parse_title request.body) w
  detail thread_id Method.delete w =
      or_403 (λ u w. (bare 204, w)) (v.store.delete request thread_id w)
  detail thread_id _ w = (not_allowed (get ∷ patch ∷ delete ∷ []), w)

  pub routed : Option String → World → Reply (Page Meta) × World
  unfolding list_threads detail
  routed none w = list_threads request.method w
  routed (some thread_id) w = detail thread_id request.method w

  pub unless_denied : Option String → World → Option ℕ → Reply (Page Meta) × World
  unfolding routed
  unless_denied thread_id w (some code) = (auth_error code, w)
  unless_denied thread_id w none = routed thread_id w

  -- `ThreadsView.__call__`
  unfoldable pub call : Option String → World → Reply (Page Meta) × World
  unfolding unless_denied
  call thread_id w = unless_denied thread_id w (v.authorize request w)
