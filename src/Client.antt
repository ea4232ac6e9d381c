-- ===== src/Client.antt =====
-- packages/api-client/src/client.ts: `createApiClient` and its `request`. The platform (fetch, the
-- token store, the refresh that the caller gives, JSON) is a parameter; every call of it is recorded.
pub mod Exchange
pub mod Calls
mod Tests
use coffix.Prelude.{
  ℕ, ◌≡◌, Bool, true, false, not, ◌&&◌, Option, none, some, List, [], ◌∷◌, ◌++◌, Text, codes,
  is_empty, String, insert, or_else, ◌==◌, if◌then◌else◌,
}
use coffix.Api.{Json, text, object, Members, member_at, ApiProblem, ApiError, problem, other}

pub record AuthTokens : Type 0 where
  pub access_token : Text
  pub refresh_token : Text

pub data Method : Type 0 where
  method_delete : Method
  method_get : Method
  method_patch : Method
  method_post : Method
  method_put : Method

pub record RequestOptions : Type 0 where
  pub authenticated : Option Bool
  pub body : Option Json
  pub headers : List (String × Text)
  pub method : Option Method

-- What is given to `fetch`.
pub record Request : Type 0 where
  pub url : Text
  pub content : Option Text
  pub header_fields : List (String × Text)
  pub verb : Method

-- `body_text` is how `response.text()` settles, `success` is `response.ok`.
pub record Response : Type 0 where
  pub status_code : ℕ
  pub success : Bool
  pub correlation : Option String
  pub body_text : Option Text

pub data Payload : Type 0 where
  undefined : Payload
  parsed : Json → Payload
  unparsed : Text → Payload

pub data Result (A : Type 0) : Type 0 where
  returned : A → Result A
  threw : ApiError → Result A

pub record Platform (World : Type 0) : Type 0 where
  pub base_url : Text
  pub fetch : Request → World → Result Response × World
  pub refresh_tokens : Option (World → Result (Option AuthTokens) × World)
  pub get_access_token : World → Result (Option Text) × World
  pub set_tokens : AuthTokens → World → Result (Unit {0}) × World
  pub clear : World → Result (Unit {0}) × World
  pub parse : Text → Option Json
  pub stringify : Json → Text

-- The calls of the platform.
pub data Call : Type 0 where
  fetching : Request → Call
  refreshing : Call
  getting_token : Call
  setting_tokens : AuthTokens → Call
  clearing_tokens : Call

-- An asynchronous function: the calls that it makes, how it settles and the world after it.
abbrev pub Run : Type 0 → Type 0 → Type 0
Run World A = List Call × (Result A × World)

abbrev pub Async : Type 0 → Type 0 → Type 0
Async World A = World → Run World A

module _ {World : Type 0} where
  abbrev pub return : {A : Type 0} → A → Async World A
  return a w = ([], (returned a, w))

  abbrev pub throw : {A : Type 0} → ApiError → Async World A
  throw e w = ([], (threw e, w))

  abbrev pub calling : {A : Type 0} → Call → (World → Result A × World) → Async World A
  calling call f w = (call ∷ [], f w)

  abbrev pub after : {A : Type 0} → List Call → Run World A → Run World A
  after calls (more, outcome) = (calls ++ more, outcome)

  abbrev pub proceed : {A B : Type 0} → (Result A → Async World B) → Run World A → Run World B
  proceed f (calls, (outcome, w)) = after calls (f outcome w)

  -- `f` handles the outcome of `m`, an exception included.
  abbrev pub settle : {A B : Type 0} → Async World A → (Result A → Async World B) → Async World B
  settle m f w = proceed f (m w)

  abbrev pub unless_thrown : {A B : Type 0} → (A → Async World B) → Result A → Async World B
  unless_thrown f (returned a) = f a
  unless_thrown f (threw e) = throw e

  infixl 5 ◌>>=◌ ◌>>◌
  abbrev pub ◌>>=◌ : {A B : Type 0} → Async World A → (A → Async World B) → Async World B
  ◌>>=◌ m f = settle m (unless_thrown f)

  abbrev pub ◌>>◌ : {B : Type 0} → Async World (Unit {0}) → Async World B → Async World B
  m >> k = m >>= λ _. k

-- `typeof value === 'string' ? value : undefined`
abbrev pub string_of : Option Json → Option String
string_of (some (text s)) = some s
string_of _ = none

-- The fields of a payload that is an object.
abbrev pub field : Payload → String → Option Json
field (parsed (object members)) key = member_at key members
field _ key = none

abbrev pub problem_from : Response → Payload → ApiProblem
problem_from response payload = record {
  type_uri = or_else (string_of (field payload "type")) "about:blank";
  title = or_else (string_of (field payload "title")) "Request failed";
  status = response.status_code;
  code = or_else (string_of (field payload "code")) "unexpected_error";
  detail = string_of (field payload "detail");
  correlation_id =
      or_else (string_of (field payload "correlationId")) (or_else response.correlation "unknown");
  errors = field payload "errors";
}

-- `baseUrl.replace(/\/$/, '')`
abbrev pub without_slash : Text → Text
without_slash [] = []
without_slash (c ∷ []) = if c == b'/' then [] else c ∷ []
without_slash (c ∷ d ∷ s) = c ∷ without_slash (d ∷ s)

abbrev pub is_authenticated : RequestOptions → Bool
is_authenticated options = or_else options.authenticated true

-- The object literal of the headers: a later header replaces one of the same name.
abbrev pub content_type : Option Json → List (String × Text) → List (String × Text)
content_type none headers = headers
content_type (some body) headers = insert "Content-Type" (codes "application/json") headers

abbrev pub authorization : Option Text → List (String × Text) → List (String × Text)
authorization none headers = headers
authorization (some token) headers =
    if is_empty token then headers else insert "Authorization" (codes "Bearer " ++ token) headers

abbrev pub spread_headers : List (String × Text) → List (String × Text) → List (String × Text)
spread_headers [] headers = headers
spread_headers ((name, value) ∷ more) headers = spread_headers more (insert name value headers)

module _ {World : Type 0} (P : Platform World) where
  abbrev pub parsed_or_text : Text → Option Json → Payload
  parsed_or_text body none = unparsed body
  parsed_or_text body (some value) = parsed value

  abbrev pub read_body : Option Text → Async World Payload
  read_body none = throw other
  read_body (some body) =
      return (if is_empty body then undefined else parsed_or_text body (P.parse body))

  abbrev pub response_payload : Response → Async World Payload
  response_payload response =
      if response.status_code == 204 then return undefined else read_body response.body_text

  abbrev pub body_of : Option Json → Option Text
  body_of none = none
  body_of (some body) = some (P.stringify body)

  abbrev pub request_of : Text → RequestOptions → Option Text → Request
  request_of path options token = record {
    url = without_slash P.base_url ++ path;
    content = body_of options.body;
    header_fields = spread_headers options.headers (
        authorization token
          (content_type options.body (("Accept", codes "application/json") ∷ [])));
    verb = or_else options.method method_get;
  }

  abbrev pub access_token_for : RequestOptions → Async World (Option Text)
  access_token_for options =
      if is_authenticated options then calling getting_token P.get_access_token else return none

  abbrev pub fetch_with : Text → RequestOptions → Option Text → Async World Response
  fetch_with path options token =
      let request = request_of path options token in calling (fetching request) (P.fetch request)

  -- The request with the token of the store.
  unfoldable pub attempt : Text → RequestOptions → Async World Response
  attempt path options = do token ← access_token_for options; fetch_with path options token

  unfoldable pub conclude : Response → Async World Payload
  conclude response = do
    payload ← response_payload response
    if response.success then return payload else throw (problem (problem_from response payload))

  -- What follows the refresh: `retry` sends the request again.
  unfoldable pub renewed :
      Response → Async World Payload → Result (Option AuthTokens) → Async World Payload
  renewed response retry (threw e) = do calling clearing_tokens P.clear; throw e
  renewed response retry (returned none) = do calling clearing_tokens P.clear; conclude response
  renewed response retry (returned (some tokens)) = do
    calling (setting_tokens tokens) (P.set_tokens tokens)
    retry

  abbrev pub refresh_with :
      Response
      → Async World Payload
      → Option (World → Result (Option AuthTokens) × World)
      → Async World Payload
  refresh_with response retry none = conclude response
  refresh_with response retry (some refresh) =
      settle (calling refreshing refresh) (renewed response retry)

  -- `retry` is there where a refresh is allowed.
  unfoldable pub answer :
      RequestOptions → Option (Async World Payload) → Response → Async World Payload
  answer options none response = conclude response
  answer options (some retry) response =
      if (response.status_code == 401) && is_authenticated options
      then refresh_with response retry P.refresh_tokens
      else conclude response

  -- `send(path, options, false)`
  unfoldable pub send_once : Text → RequestOptions → Async World Payload
  send_once path options = do response ← attempt path options; answer options none response

  unfoldable pub send : Text → RequestOptions → Bool → Async World Payload
  unfolding send_once
  send path options false = send_once path options
  send path options true = do
    response ← attempt path options
    answer options (some (send_once path options)) response

  abbrev pub request : Text → RequestOptions → Async World Payload
  request path options = send path options true
