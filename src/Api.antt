-- ===== src/Api.antt =====
-- packages/api-client/src/client.ts: the JSON values of requests and answers, and the problem that a
-- failed request raises.
use coffix.Prelude.{ℕ, Bool, Option, none, some, String, str_eq, if◌then◌else◌}

mutual
  -- A value that `JSON.parse` returns; numbers stay the text that they were written as.
  pub data Json : Type 0 where
    null : Json
    boolean : Bool → Json
    numeral : String → Json
    text : String → Json
    array : Elements → Json
    object : Members → Json

  pub data Elements : Type 0 where
    no_elements : Elements
    element : Json → Elements → Elements

  pub data Members : Type 0 where
    no_members : Members
    member : String → Json → Members → Members

-- `value[key]` of an object; a later member hides an earlier one.
abbrev pub member_at : String → Members → Option Json
member_at key no_members = none
member_at key (member own value more) = elim (member_at key more) [
  | some later ↦ some later
  | none ↦ if str_eq own key then some value else none
]

pub record ApiProblem : Type 0 where
  pub type_uri : String
  pub title : String
  pub status : ℕ
  pub code : String
  pub detail : Option String
  pub correlation_id : String
  pub errors : Option Json

-- What a `catch` receives: an `ApiClientError` with its problem, or any other error.
pub data ApiError : Type 0 where
  problem : ApiProblem → ApiError
  other : ApiError
