-- ===== src/Session/Laws.antt =====
-- The end of a session.
use coffix.Prelude.{
  ◌+◌, ◌≡◌, ◌⊎◌, refl, sym, subst, true, Option, none, some, [], ◌∷◌, Text, inl, inr,
}
use coffix.Storage.{Outcome, ok, SecureStore, SecureStoreLaws}
use coffix.Service.IntakeStore.{Drafts}
use coffix.Service.IntakeStore.Invariant.{Tracked}
use coffix.Service.IntakeStore.Logout.{Erased}
use coffix.Session.{
  unauthenticated, logout_request, App, finally, delete_tokens, on_clear, clear_tokens,
  get_refresh_token, revoke_and_clear, logout,
}
use coffix.Session.Tokens.{
  without_tokens, get_refresh_token-Returns, clear_all-Returns, delete_tokens-Returns,
}

module _ {S : SecureStore} (laws : SecureStoreLaws S) {Draft : Type 0} (J : Drafts Draft) where
  open laws use {items, grants}

  -- Nothing is left of the session, on the device and in the application.
  pub record IsEnded (app : App S.Device) : Type 0 where
    pub erased : Erased (items app.device)
    pub signed_out : app.status ≡ unauthenticated
    pub no_scope : app.session_scope ≡ none
    pub granting : grants app.device ≡ true
    pub mounted : app.is_subscribed ≡ true

  abbrev pub IsReady : App S.Device → Type 0
  IsReady app =
      (grants app.device ≡ true)
      × (app.is_subscribed ≡ true)
      × Tracked J (without_tokens (items app.device))

  pub clear_tokens-IsEnded :
      (app : App S.Device)
      → IsReady app
      → ((clear_tokens S J app).0 ≡ ok tt) × IsEnded (clear_tokens S J app).1
  unfolding clear_tokens on_clear
  clear_tokens-IsEnded app h =
      let deleted = delete_tokens-Returns laws app.device h.0 in
      let cleared =
        clear_all-Returns laws J (delete_tokens S app.device).1 deleted.granting
          (subst (Tracked J) (sym deleted.good) h.2) in
      rw (deleted.result, h.1)
        (
          cleared.result,
          record {
            erased = cleared.good;
            signed_out = refl;
            no_scope = refl;
            granting = cleared.granting;
            mounted = refl;
          },
        )

  finally_answer :
      (answer r : Outcome (Unit {0})) (app : App S.Device)
      → IsReady app
      → (r ≡ ok tt) ⊎ (r ≡ answer)
      → (((finally r (clear_tokens S J app)).0 ≡ ok tt)
          ⊎ ((finally r (clear_tokens S J app)).0 ≡ answer))
        × IsEnded (finally r (clear_tokens S J app)).1
  finally_answer answer r app h e =
      let (result, ended) = clear_tokens-IsEnded app h in
      subst
        (λ (c : Outcome (Unit {0})).
          (((finally r (c, (clear_tokens S J app).1)).0 ≡ ok tt)
            ⊎ ((finally r (c, (clear_tokens S J app).1)).0 ≡ answer))
          × IsEnded (finally r (c, (clear_tokens S J app).1)).1)
        (sym result) (e, ended)

  revoke_and_clear-IsEnded :
      (answer : Outcome (Unit {0})) (token : Option Text) (app : App S.Device)
      → IsReady app
      → (((revoke_and_clear S J answer token app).0 ≡ ok tt)
          ⊎ ((revoke_and_clear S J answer token app).0 ≡ answer))
        × IsEnded (revoke_and_clear S J answer token app).1
  revoke_and_clear-IsEnded answer none app h = finally_answer answer (ok tt) app h (inl refl)
  revoke_and_clear-IsEnded answer (some []) app h = finally_answer answer (ok tt) app h (inl refl)
  revoke_and_clear-IsEnded answer (some (c ∷ token)) app h =
      finally_answer answer answer
        (record app { requests = logout_request (c ∷ token) ∷ app.requests }) h (inr refl)

  -- When the device grants its calls, the provider is mounted and the registry of drafts accounts for
  -- all items but the tokens: after a logout, with nothing of another operation between its awaits and
  -- whether the server accepts the request or not, no token and no draft is left on the device, and the
  -- application shows no session. The logout itself returns, or is rejected as the request was.
  pub logout-IsEnded :
      (answer : Outcome (Unit {0})) (app : App S.Device)
      → grants app.device ≡ true
      → app.is_subscribed ≡ true
      → Tracked J (without_tokens (items app.device))
      → (((logout S J answer app).0 ≡ ok tt) ⊎ ((logout S J answer app).0 ≡ answer))
        × IsEnded (logout S J answer app).1
  unfolding logout
  logout-IsEnded answer app grant mounted tracked =
      let read = get_refresh_token-Returns laws app.device grant in
      rw (read.result) (
        revoke_and_clear-IsEnded answer read.value
          (record app {
            device = (get_refresh_token S app.device).1;
            push_stops = app.push_stops + 1;
          })
          (
            read.granting,
            mounted,
            subst (λ s. Tracked J (without_tokens s)) (sym read.good.1) tracked,
          ))
