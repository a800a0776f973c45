-- ===== src/Http.antt =====
-- What the views of django_ag_ui share of Django: the request's method, and the kinds of responses.
use django_ag_ui.Base.{ℕ, List}

pub data Method : Type 0 where
  get : Method
  post : Method
  patch : Method
  delete : Method
  other_method : Method

-- `JsonResponse(body, status=...)`, a `JsonResponse({"error": ...}, status=...)`, an
-- `HttpResponse(status=...)` without a body, an `HttpResponseNotAllowed`, and the response of
-- `auth_error_response`.
pub data Reply (B : Type 0) : Type 0 where
  json : ℕ → B → Reply B
  error : ℕ → Reply B
  bare : ℕ → Reply B
  not_allowed : List Method → Reply B
  auth_error : ℕ → Reply B

status : {B : Type 0} → Reply B → ℕ
status (json n b) = n
status (error n) = n
status (bare n) = n
status (not_allowed ms) = 405
status (auth_error n) = n
