-- ===== src/Client/Tests.antt =====
-- A server that knows one access token, and a store whose token is another one.
use coffix.Prelude.{
  ◌≡◌, refl, Bool, true, false, Option, none, some, [], ◌∷◌, Text, text_eq, codes, lookup, insert,
  if◌then◌else◌,
}
use coffix.Client.{
  AuthTokens, RequestOptions, Response, undefined, returned, Platform, fetching, refreshing,
  getting_token, setting_tokens, attempt, conclude, renewed, answer, send_once, send, request_of,
  request,
}
use coffix.Client.Calls.{IsBounded, request-IsBounded}

abbrev granted : Response
granted = record { status_code = 204; success = true; correlation = none; body_text = none }

abbrev unauthorized : Response
unauthorized = record {
  status_code = 401;
  success = false;
  correlation = none;
  body_text = some [];
}

abbrev is_known : Option Text → Bool
is_known none = false
is_known (some header) = text_eq header (codes "Bearer new")

abbrev fresh : AuthTokens
fresh = record { access_token = codes "new"; refresh_token = codes "next" }

-- The world is the access token of the store.
abbrev server : Platform (Option Text)
server = record {
  base_url = codes "https://api/";
  fetch = λ r w. (
    returned (if is_known (lookup "Authorization" r.header_fields) then granted else unauthorized),
    w,
  );
  refresh_tokens = some (λ w. (returned (some fresh), w));
  get_access_token = λ w. (returned w, w);
  set_tokens = λ tokens w. (returned tt, some tokens.access_token);
  clear = λ w. (returned tt, none);
  parse = λ s. none;
  stringify = λ value. [];
}

abbrev plain_get : Option Bool → RequestOptions
plain_get authenticated = record {
  authenticated = authenticated;
  body = none;
  headers = [];
  method = none;
}

-- The stale token is renewed and the request sent again.
renews : request server (codes "/me") (plain_get none) (some (codes "old")) ≡ (
  getting_token
      ∷ fetching (request_of server (codes "/me") (plain_get none) (some (codes "old")))
      ∷ refreshing
      ∷ setting_tokens fresh
      ∷ getting_token
      ∷ fetching (request_of server (codes "/me") (plain_get none) (some (codes "new")))
      ∷ [],
  (returned undefined, some (codes "new")),
)
unfolding send send_once attempt answer renewed conclude lookup insert text_eq
renews = refl

request-IsBounded_example :
    IsBounded (request server (codes "/me") (plain_get none) (some (codes "old"))).0
request-IsBounded_example =
    request-IsBounded server (codes "/me") (plain_get none) (some (codes "old"))
