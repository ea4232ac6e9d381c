-- ===== src/Session/Steps/Granted.antt =====
-- Which session the application shows, however the operations are interleaved.
use coffix.Prelude.{
  ℕ, zero, suc, ◌≡◌, refl, Option, none, some, List, [], ◌∷◌, Text, All, All-append, if_ind,
}
use mathlib.Core.List.{Mem, Subset, mem-cons_self, mem-cons_of_mem}
use coffix.Client.{AuthTokens}
use coffix.Session.{SessionStatus, authenticated, loading, unauthenticated, session_scope_from}
use coffix.Session.Steps.{
  Ending, restores, ends, Purpose, restored, signed_in, renewed, Phase, reading, refreshing,
  verifying, stopping_sign_in, storing, stopping_logout, reading_logout, revoking, deleting,
  stopping_clear, erasing, Call, Answer, read, granted, done, rejected, Operation, restore_session,
  logout, expire, sign_in, renew, State, mounted, Next, show_restored, end_clear, on_deleted,
  on_stopped, on_read, on_logout_read, on_stored, on_store_failed, report_stored, resume, begin,
  Event, started, answered, unmounted, phase_at, set_phase, step, run,
}

module _ (history : List Event) where
  -- The server has answered an operation with these tokens.
  abbrev pub WasGranted : AuthTokens → Type 0
  WasGranted tokens = (n : ℕ) × Mem (answered n (granted tokens)) history

  -- An authenticated session is that of tokens that the server has granted and that the secure store has
  -- reported as stored; any other has no scope.
  abbrev pub IsShown : SessionStatus → Option Text → List AuthTokens → Type 0
  IsShown authenticated scope stored =
      (tokens : AuthTokens) × WasGranted tokens
      × Mem tokens stored
      × (scope ≡ session_scope_from tokens.refresh_token)
  IsShown loading scope stored = scope ≡ none
  IsShown unauthenticated scope stored = scope ≡ none

  -- What an operation still means to store and show was granted.
  abbrev Waits : Phase → Type 0
  Waits (stopping_sign_in tokens) = WasGranted tokens
  Waits (storing restored tokens) = WasGranted tokens
  Waits (storing signed_in tokens) = WasGranted tokens
  Waits phase = Unit

  record IsSound (s : State) : Type 0 where
    shown : IsShown s.status s.session_scope s.stored
    waiting : All Waits s.operations

  abbrev Goes : Next → Type 0
  Goes next = Waits next.0 × IsSound next.1

  calling : (call : Call) (s : State) → IsSound s → IsSound (record s { calls = call ∷ s.calls })
  calling call s h = record { shown = h.shown; waiting = h.waiting }

  IsShown-stored :
      (tokens : AuthTokens) (status : SessionStatus) (scope : Option Text)
      (stored : List AuthTokens)
      → IsShown status scope stored
      → IsShown status scope (tokens ∷ stored)
  IsShown-stored tokens authenticated scope stored (t, g, m, e) =
      (t, g, mem-cons_of_mem tokens m, e)
  IsShown-stored tokens loading scope stored h = h
  IsShown-stored tokens unauthenticated scope stored h = h

  show_none-IsSound : (s : State) → IsSound s → IsSound (show_restored none unauthenticated s)
  unfolding show_restored
  show_none-IsSound s h =
      if_ind IsSound s.active (record s { session_scope = none; status = unauthenticated }) s
        (λ _. record { shown = refl; waiting = h.waiting }) (λ _. h)

  end_clear-Goes : (ending : Ending) (s : State) → IsSound s → Goes (end_clear ending s)
  unfolding end_clear
  end_clear-Goes restores s h = (tt, show_none-IsSound s h)
  end_clear-Goes ends s h = (tt, h)

  on_deleted-Goes : (ending : Ending) (s : State) → IsSound s → Goes (on_deleted ending s)
  unfolding on_deleted
  on_deleted-Goes ending s h =
      if_ind Goes s.is_subscribed _ (end_clear ending s) (λ _. (tt, calling _ s h))
        (λ _. end_clear-Goes ending s h)

  on_read-Goes : (token : Option Text) (s : State) → IsSound s → Goes (on_read token s)
  unfolding on_read
  on_read-Goes none s h = (tt, show_none-IsSound s h)
  on_read-Goes (some []) s h = (tt, show_none-IsSound s h)
  on_read-Goes (some (c ∷ token)) s h = (tt, calling _ s h)

  on_logout_read-Goes :
      (token : Option Text) (s : State) → IsSound s → Goes (on_logout_read token s)
  unfolding on_logout_read
  on_logout_read-Goes none s h = (tt, calling _ s h)
  on_logout_read-Goes (some []) s h = (tt, calling _ s h)
  on_logout_read-Goes (some (c ∷ token)) s h = (tt, calling _ s h)

  -- The tokens that have just been stored may be shown.
  on_stored-Goes :
      (purpose : Purpose) (tokens : AuthTokens) (s : State)
      → Waits (storing purpose tokens)
      → IsSound s
      → Goes (on_stored purpose tokens (report_stored tokens s))
  unfolding on_stored show_restored
  on_stored-Goes restored tokens s given h = (
    tt,
    if_ind IsSound s.active
        (record s {
          session_scope = session_scope_from tokens.refresh_token;
          status = authenticated;
          stored = tokens ∷ s.stored;
        })
        (report_stored tokens s)
        (λ _. record { shown = (tokens, given, mem-cons_self, refl); waiting = h.waiting })
        (λ _. record {
          shown = IsShown-stored tokens s.status s.session_scope s.stored h.shown;
          waiting = h.waiting;
        }),
  )
  on_stored-Goes signed_in tokens s given h =
      (tt, record { shown = (tokens, given, mem-cons_self, refl); waiting = h.waiting })
  on_stored-Goes renewed tokens s given h = (
    tt,
    record {
      shown = IsShown-stored tokens s.status s.session_scope s.stored h.shown;
      waiting = h.waiting;
    },
  )

  on_store_failed-Goes :
      (purpose : Purpose) (s : State) → IsSound s → Goes (on_store_failed purpose s)
  unfolding on_store_failed
  on_store_failed-Goes restored s h = (tt, calling _ s h)
  on_store_failed-Goes signed_in s h = (tt, h)
  on_store_failed-Goes renewed s h = (tt, h)

  resume-Goes :
      (n : ℕ) (phase : Phase) (answer : Answer) (s : State)
      → Mem (answered n answer) history
      → Waits phase
      → IsSound s
      → Goes (resume phase answer s)
  unfolding resume on_stopped
  resume-Goes n reading (read token) s m w h = on_read-Goes token s h
  resume-Goes n reading rejected s m w h = (tt, show_none-IsSound s h)
  resume-Goes n (refreshing token) (granted tokens) s m w h = ((n, m), calling _ s h)
  resume-Goes n (refreshing token) rejected s m w h = (tt, calling _ s h)
  resume-Goes n verifying (granted tokens) s m w h = ((n, m), calling _ s h)
  resume-Goes n verifying rejected s m w h = (tt, h)
  resume-Goes n (stopping_sign_in tokens) done s m w h = (w, calling _ s h)
  resume-Goes n (stopping_sign_in tokens) rejected s m w h = (w, calling _ s h)
  resume-Goes n (storing purpose tokens) done s m w h = on_stored-Goes purpose tokens s w h
  resume-Goes n (storing purpose tokens) rejected s m w h = on_store_failed-Goes purpose s h
  resume-Goes n stopping_logout done s m w h = (tt, calling _ s h)
  resume-Goes n stopping_logout rejected s m w h = (tt, calling _ s h)
  resume-Goes n reading_logout (read token) s m w h = on_logout_read-Goes token s h
  resume-Goes n reading_logout rejected s m w h = (tt, h)
  resume-Goes n revoking done s m w h = (tt, calling _ s h)
  resume-Goes n revoking rejected s m w h = (tt, calling _ s h)
  resume-Goes n (deleting ending) done s m w h = on_deleted-Goes ending s h
  resume-Goes n (deleting ending) rejected s m w h = (tt, h)
  resume-Goes n (stopping_clear ending) done s m w h =
      (tt, record { shown = refl; waiting = h.waiting })
  resume-Goes n (stopping_clear ending) rejected s m w h =
      (tt, record { shown = refl; waiting = h.waiting })
  resume-Goes n (erasing ending) done s m w h = end_clear-Goes ending s h
  resume-Goes n (erasing ending) rejected s m w h = (tt, h)
  resume-Goes n _ _ s m w h = (w, h)

  begin-Goes : (operation : Operation) (s : State) → IsSound s → Goes (begin operation s)
  unfolding begin
  begin-Goes restore_session s h = (tt, calling _ s h)
  begin-Goes logout s h = (tt, calling _ s h)
  begin-Goes expire s h = (tt, calling _ s h)
  begin-Goes (sign_in phone code) s h = (tt, calling _ s h)
  begin-Goes (renew tokens) s h = (tt, calling _ s h)

  phase_at-Waits : (n : ℕ) (phases : List Phase) → All Waits phases → Waits (phase_at n phases)
  phase_at-Waits n [] h = tt
  phase_at-Waits zero (phase ∷ phases) h = h.0
  phase_at-Waits (suc n) (phase ∷ phases) h = phase_at-Waits n phases h.1

  set_phase-Waits :
      (n : ℕ) (next : Phase) (phases : List Phase)
      → Waits next
      → All Waits phases
      → All Waits (set_phase n next phases)
  set_phase-Waits n next [] w h = tt
  set_phase-Waits zero next (phase ∷ phases) w h = (w, h.1)
  set_phase-Waits (suc n) next (phase ∷ phases) w h = (h.0, set_phase-Waits n next phases w h.1)

  step-IsSound :
      (event : Event) (s : State) → Mem event history → IsSound s → IsSound (step event s)
  unfolding step
  step-IsSound (started operation) s m h =
      let (w, sound) = begin-Goes operation s h in
      record {
        shown = sound.shown;
        waiting =
            All-append Waits (begin operation s).1.operations ((begin operation s).0 ∷ [])
              sound.waiting (w, tt);
      }
  step-IsSound (answered n answer) s m h =
      let (w, sound) =
        resume-Goes n (phase_at n s.operations) answer s m (phase_at-Waits n s.operations h.waiting)
          h in
      let next = resume (phase_at n s.operations) answer s in
      record {
        shown = sound.shown;
        waiting = set_phase-Waits n next.0 next.1.operations w sound.waiting;
      }
  step-IsSound unmounted s m h = record { shown = h.shown; waiting = h.waiting }

  run-IsSound :
      (events : List Event) (s : State) → Subset events history → IsSound s → IsSound (run events s)
  unfolding run
  run-IsSound [] s heard h = h
  run-IsSound (event ∷ events) s heard h =
      run-IsSound events (step event s) (λ later m. heard later (mem-cons_of_mem event m))
        (step-IsSound event s (heard event mem-cons_self) h)

-- From the mounting of the provider, however restores, sign-ins, logouts, renewals and expiries are
-- interleaved at their awaits and whatever is answered: while the application shows an authenticated
-- session, its scope is that of tokens that the server has granted and that the secure store has
-- reported as stored; while it shows none or loads, there is no scope.
pub run-IsShown :
    (events : List Event)
    → IsShown events
        (run events mounted).status
        (run events mounted).session_scope
        (run events mounted).stored
run-IsShown events =
    (run-IsSound events events mounted (λ event m. m) (record { shown = refl; waiting = tt })).shown
