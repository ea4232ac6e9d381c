-- ===== src/Client/Calls.antt =====
-- How often one request calls the platform.
use coffix.Prelude.{ℕ, ◌+◌, ◌≤◌, ◌≡◌, refl, sym, false, none, List, [], ◌∷◌, ◌++◌, Text, arith}
use mathlib.Core.Path.{subst}
use coffix.Client.{
  RequestOptions, Platform, Call, fetching, refreshing, getting_token, setting_tokens,
  clearing_tokens, is_authenticated, request_of, request,
}
use coffix.Client.Exchange.{
  Attempt, plain, no_answer_of_store, with_token, Exchange, once, dropped, stored, repeated,
  request-Exchange,
}

abbrev pub fetches : List Call → ℕ
fetches [] = 0
fetches (fetching r ∷ calls) = 1 + fetches calls
fetches (refreshing ∷ calls) = fetches calls
fetches (getting_token ∷ calls) = fetches calls
fetches (setting_tokens t ∷ calls) = fetches calls
fetches (clearing_tokens ∷ calls) = fetches calls

abbrev pub refreshes : List Call → ℕ
refreshes [] = 0
refreshes (refreshing ∷ calls) = 1 + refreshes calls
refreshes (fetching r ∷ calls) = refreshes calls
refreshes (getting_token ∷ calls) = refreshes calls
refreshes (setting_tokens t ∷ calls) = refreshes calls
refreshes (clearing_tokens ∷ calls) = refreshes calls

abbrev pub settings : List Call → ℕ
settings [] = 0
settings (setting_tokens t ∷ calls) = 1 + settings calls
settings (refreshing ∷ calls) = settings calls
settings (fetching r ∷ calls) = settings calls
settings (getting_token ∷ calls) = settings calls
settings (clearing_tokens ∷ calls) = settings calls

abbrev pub clearings : List Call → ℕ
clearings [] = 0
clearings (clearing_tokens ∷ calls) = 1 + clearings calls
clearings (setting_tokens t ∷ calls) = clearings calls
clearings (refreshing ∷ calls) = clearings calls
clearings (fetching r ∷ calls) = clearings calls
clearings (getting_token ∷ calls) = clearings calls

-- At most one refresh, as many refreshes as tokens stored or dropped, and one `fetch` more than tokens
-- stored at most.
pub record IsBounded (calls : List Call) : Type 0 where
  pub one_refresh : refreshes calls ≤ 1
  pub decided : refreshes calls ≡ settings calls + clearings calls
  pub renewed_first : fetches calls ≤ 1 + settings calls

module _ {World : Type 0} (P : Platform World) (path : Text) (options : RequestOptions) where
  Attempt-IsBounded :
      (calls rest : List Call)
      → Attempt P path options calls
      → (refreshes (calls ++ rest) ≡ refreshes rest)
        × (settings (calls ++ rest) ≡ settings rest)
        × (clearings (calls ++ rest) ≡ clearings rest)
        × (fetches (calls ++ rest) ≤ 1 + fetches rest)
  Attempt-IsBounded calls rest (plain asked e) = rw e (refl, refl, refl, omega arith)
  Attempt-IsBounded calls rest (no_answer_of_store asked e) = rw e (refl, refl, refl, omega arith)
  Attempt-IsBounded calls rest (with_token token asked e) = rw e (refl, refl, refl, omega arith)

  before-IsBounded :
      (first rest : List Call)
      → Attempt P path options first
      → refreshes rest ≤ 1
      → refreshes rest ≡ settings rest + clearings rest
      → fetches rest ≤ settings rest
      → IsBounded (first ++ rest)
  before-IsBounded first rest done one two three =
      let (r, s, c, f) = Attempt-IsBounded first rest done in
      record { one_refresh = omega arith; decided = omega arith; renewed_first = omega arith }

  alone :
      (calls : List Call)
      → Attempt P path options calls
      → (refreshes calls ≡ 0) × (settings calls ≡ 0) × (clearings calls ≡ 0) × (fetches calls ≤ 1)
  alone calls (plain asked e) = rw e (refl, refl, refl, omega arith)
  alone calls (no_answer_of_store asked e) = rw e (refl, refl, refl, omega arith)
  alone calls (with_token token asked e) = rw e (refl, refl, refl, omega arith)

  Exchange-IsBounded : (calls : List Call) → Exchange P path options calls → IsBounded calls
  Exchange-IsBounded calls (once done) =
      let (r, s, c, f) = alone calls done in
      record { one_refresh = omega arith; decided = omega arith; renewed_first = omega arith }
  Exchange-IsBounded calls (dropped first done asked e) = subst IsBounded (sym e) (
      before-IsBounded first (refreshing ∷ clearing_tokens ∷ []) done (omega arith) (omega arith)
        (omega arith))
  Exchange-IsBounded calls (stored first tokens done asked e) = subst IsBounded (sym e) (
      before-IsBounded first (refreshing ∷ setting_tokens tokens ∷ []) done (omega arith)
        (omega arith) (omega arith))
  Exchange-IsBounded calls (repeated first second tokens done again asked e) =
      let (r, s, c, f) = alone second again in
      subst IsBounded (sym e) (
        before-IsBounded first (refreshing ∷ setting_tokens tokens ∷ second) done (omega arith)
          (omega arith) (omega arith))

  -- For every platform, whatever its calls answer: a request refreshes at most once; it stores new
  -- tokens or drops the stored ones exactly as often as it refreshes; and it fetches at most once more
  -- than it stores new tokens.
  pub request-IsBounded : (w : World) → IsBounded (request P path options w).0
  request-IsBounded w =
      Exchange-IsBounded (request P path options w).0 ((request-Exchange P path options).at w)

  unasked :
      (calls : List Call)
      → is_authenticated options ≡ false
      → Exchange P path options calls
      → calls ≡ fetching (request_of P path options none) ∷ []
  unasked calls unauthenticated (once (plain asked e)) = e
  unasked calls unauthenticated (once (no_answer_of_store asked e)) = cc
  unasked calls unauthenticated (once (with_token token asked e)) = cc
  unasked calls unauthenticated (dropped first done asked e) = cc
  unasked calls unauthenticated (stored first tokens done asked e) = cc
  unasked calls unauthenticated (repeated first second tokens done again asked e) = cc

  -- A request that is not authenticated makes one call of the platform, the `fetch` without a token,
  -- also where the answer is 401.
  pub request-unauthenticated :
      (w : World)
      → is_authenticated options ≡ false
      → (request P path options w).0 ≡ fetching (request_of P path options none) ∷ []
  request-unauthenticated w unauthenticated =
      unasked (request P path options w).0 unauthenticated ((request-Exchange P path options).at w)
