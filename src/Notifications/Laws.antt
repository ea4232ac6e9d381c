-- ===== src/Notifications/Laws.antt =====
-- A push session repeats neither a refresh nor an opening among the last 200.
use coffix.Prelude.{
  ℕ, zero, suc, ◌≡◌, refl, ap, ◌∙◌, subst, Bool, true, false, not, ◌&&◌, Option, none, some, List,
  [], ◌∷◌, Text, ltb, length, take, if◌then◌else◌, if_ind, arith,
}
use coffix.Notifications.{
  MessageData, notification_id_from, State, initial, has_id, delete_oldest, capped, remember,
  receive, open_tapped, on_id, on_message, stop_session, Event, arrived, stop, step, run,
}

-- Each id is not among the 200 before it; the last one stands first.
abbrev pub AreSpaced : List Text → Type 0
AreSpaced [] = Unit
AreSpaced (id ∷ before) = (has_id id (take 200 before) ≡ false) × AreSpaced before

capped_cons :
    (n : ℕ) (x y : Text) (more : List Text)
    → capped (suc n) (x ∷ y ∷ more) ≡ x ∷ capped n (y ∷ more)
capped_cons n x y more = ltb_suc n (length (y ∷ more)) (delete_oldest (y ∷ more)) (y ∷ more)
  where
    ltb_suc :
        (n l : ℕ) (deleted kept : List Text)
        → (if ltb (suc n) (suc l) then x ∷ deleted else x ∷ kept)
          ≡ x ∷ (if ltb n l then deleted else kept)
    ltb_suc n l deleted kept = ground arith

capped-take :
    (n : ℕ) (x : Text) (log : List Text) → capped (suc n) (x ∷ take (suc n) log) ≡ x ∷ take n log
capped-take zero x [] = refl
capped-take (suc n) x [] = ground arith
capped-take zero x (y ∷ log) = refl
capped-take (suc n) x (y ∷ log) =
    capped_cons (suc n) x y (take (suc n) log) ∙ ap (λ set. x ∷ set) (capped-take n y log)

-- While the session runs its sets are the last 200 of what it did.
record IsWindowed (s : State) : Type 0 where
  spaced_refreshed : AreSpaced s.refreshed
  spaced_opens : AreSpaced s.opens
  received_last : s.stopped ≡ false → s.received ≡ take 200 s.refreshed
  opened_last : s.stopped ≡ false → s.opened ≡ take 200 s.opens

remember-take :
    (set log : List Text) (id : Text) → set ≡ take 200 log → remember set id ≡ take 200 (id ∷ log)
remember-take set log id e = ap (λ known. capped 200 (id ∷ known)) e ∙ capped-take 199 id log

receive-IsWindowed :
    (id : Text) (s : State) → s.stopped ≡ false → IsWindowed s → IsWindowed (receive id s)
unfolding receive
receive-IsWindowed id s running h =
    if_ind IsWindowed (has_id id s.received) s
      (record s { received = remember s.received id; refreshed = id ∷ s.refreshed }) (λ _. h)
      (λ new. record {
        spaced_refreshed = (
          subst (λ set. has_id id set ≡ false) (h.received_last running) new,
          h.spaced_refreshed,
        );
        spaced_opens = h.spaced_opens;
        received_last = λ _. remember-take s.received s.refreshed id (h.received_last running);
        opened_last = h.opened_last;
      })

receive-stopped : (id : Text) (s : State) → (receive id s).stopped ≡ s.stopped
unfolding receive
receive-stopped id s = ground arith

open-IsWindowed :
    (id : Text) (tapped : Bool) (s : State)
    → s.stopped ≡ false
    → IsWindowed s
    → IsWindowed (open_tapped id tapped s)
unfolding open_tapped
open-IsWindowed id tapped s running h =
    if_ind IsWindowed (tapped && not (has_id id s.opened))
      (record s { opened = remember s.opened id; opens = id ∷ s.opens }) s
      (λ new. record {
        spaced_refreshed = h.spaced_refreshed;
        spaced_opens = (
          subst (λ set. has_id id set ≡ false) (h.opened_last running)
              (and_not tapped (has_id id s.opened) new),
          h.spaced_opens,
        );
        received_last = h.received_last;
        opened_last = λ _. remember-take s.opened s.opens id (h.opened_last running);
      })
      (λ _. h)
  where
    and_not : (a b : Bool) → (a && not b) ≡ true → b ≡ false
    and_not a b e = ground arith

on_id-IsWindowed :
    (o : Option Text) (tapped : Bool) (s : State)
    → s.stopped ≡ false
    → IsWindowed s
    → IsWindowed (on_id o tapped s)
on_id-IsWindowed none tapped s running h = h
on_id-IsWindowed (some id) tapped s running h =
    open-IsWindowed id tapped (receive id s) (receive-stopped id s ∙ running)
      (receive-IsWindowed id s running h)

step-IsWindowed : (event : Event) (s : State) → IsWindowed s → IsWindowed (step event s)
unfolding step on_message stop_session
step-IsWindowed (arrived payload tapped) s h =
    if_ind IsWindowed s.stopped s (on_id (notification_id_from payload) tapped s) (λ _. h)
      (λ running. on_id-IsWindowed (notification_id_from payload) tapped s running h)
step-IsWindowed stop s h =
    if_ind IsWindowed s.stopped s (record s { stopped = true; received = []; opened = [] }) (λ _. h)
      (λ _. record {
        spaced_refreshed = h.spaced_refreshed;
        spaced_opens = h.spaced_opens;
        received_last = λ e. cc;
        opened_last = λ e. cc;
      })

run-IsWindowed : (events : List Event) (s : State) → IsWindowed s → IsWindowed (run events s)
unfolding run
run-IsWindowed [] s h = h
run-IsWindowed (event ∷ events) s h =
    run-IsWindowed events (step event s) (step-IsWindowed event s h)

-- Whatever messages arrive, tapped or not, before and after the session is stopped: an id is opened,
-- and the queries are refreshed for it, only when it is not among the last 200 ids of before.
pub run-AreSpaced :
    (events : List Event)
    → AreSpaced (run events initial).opens × AreSpaced (run events initial).refreshed
run-AreSpaced events =
    let h : IsWindowed (run events initial) = run-IsWindowed events initial (record {
      spaced_refreshed = tt;
      spaced_opens = tt;
      received_last = λ _. refl;
      opened_last = λ _. refl;
    }) in
    (h.spaced_opens, h.spaced_refreshed)

open_tapped-stopped :
    (id : Text) (tapped : Bool) (s : State) → (open_tapped id tapped s).stopped ≡ s.stopped
unfolding open_tapped
open_tapped-stopped id tapped s = ground arith

on_id-stopped :
    (o : Option Text) (tapped : Bool) (s : State) → (on_id o tapped s).stopped ≡ s.stopped
on_id-stopped none tapped s = refl
on_id-stopped (some id) tapped s =
    open_tapped-stopped id tapped (receive id s) ∙ receive-stopped id s

pub on_message-stopped :
    (payload : MessageData) (tapped : Bool) (s : State)
    → (on_message payload tapped s).stopped ≡ s.stopped
unfolding on_message
on_message-stopped payload tapped s =
    if_ind (λ (t : State). t.stopped ≡ s.stopped) s.stopped s
      (on_id (notification_id_from payload) tapped s) (λ _. refl)
      (λ _. on_id-stopped (notification_id_from payload) tapped s)
