-- ===== src/Notifications/Tests.antt =====
-- One notification that arrives twice, and one that is no id.
use coffix.Prelude.{trim, All, none, some}
use coffix.Storage.{ok}
use coffix.Notifications.{has_id}
use coffix.Notifications.Registration
use coffix.Notifications.Registration.Tasks
use coffix.Notifications.Registration.Ends.{run_revokes}
use coffix.Notifications.Navigation.{notification_destination, order_page, order_lookup}
use coffix.Notifications.Binding.{bind_push_cleanup, unbind_push_cleanup}
use coffix.Prelude.{text_eq, ◌≡◌, refl, true, false, List, [], ◌∷◌, codes}
use coffix.Notifications.{
  notification_id_from, MessageData, with_id, initial, receive, open_tapped, on_message,
  stop_session, Event, arrived, stop, step, run,
}
use coffix.Notifications.Laws.{AreSpaced, run-AreSpaced}

abbrev order_paid : MessageData
order_paid = with_id (codes "0123abcd-0000-4000-8000-0123456789AB")

abbrev twice : List Event
twice =
    arrived order_paid false
    ∷ arrived (with_id (codes "0123abcd")) true
    ∷ arrived order_paid true
    ∷ arrived order_paid true
    ∷ stop
    ∷ arrived order_paid true
    ∷ []

opens_once : (run twice initial).opens ≡ codes "0123abcd-0000-4000-8000-0123456789AB" ∷ []
unfolding run step text_eq on_message stop_session receive open_tapped notification_id_from
opens_once = refl

run-AreSpaced_example :
    AreSpaced (run twice initial).opens × AreSpaced (run twice initial).refreshed
run-AreSpaced_example = run-AreSpaced twice

-- A token is registered, rotated while its registration is under way, and the session stopped.
abbrev rotated_session : List Registration.Event
rotated_session =
    Registration.started
    ∷ Registration.permitted (ok true)
    ∷ Registration.token_read (ok (codes "t1"))
    ∷ Registration.access_read (ok (some (codes "a")))
    ∷ Registration.rotated (codes "t2")
    ∷ Registration.device_read (ok (record { id = codes "d1"; is_active = true }))
    ∷ Registration.access_read (ok (some (codes "a")))
    ∷ Registration.stop_called
    ∷ Registration.device_read (ok (record { id = codes "d2"; is_active = true }))
    ∷ Registration.deactivated (ok tt)
    ∷ []

both_deactivated :
    (Registration.run rotated_session Tasks.initial).deactivations ≡ codes "d2" ∷ codes "d1" ∷ []
unfolding Registration.run Registration.step Registration.handle Tasks.register Tasks.next_task
    Registration.proceed stop_session text_eq trim
both_deactivated = refl

run_revokes_example :
    All
      (λ id. has_id id (Registration.run rotated_session Tasks.initial).deactivations ≡ true)
      (Registration.run rotated_session Tasks.initial).answered
    × ((Registration.run rotated_session Tasks.initial).task ≡ Tasks.idle)
unfolding Registration.run stop_session text_eq trim
run_revokes_example = run_revokes rotated_session refl

order_opened :
    notification_destination
      (ok (record { related_entity_type = some "order"; related_entity_id = some "o1" }))
      (ok tt)
    ≡ (ok (some (order_page "o1")), order_lookup "o1" ∷ [])
unfolding notification_destination
order_opened = refl

-- A component that is unmounted late does not unbind the session of the next one.
late_unbind : unbind_push_cleanup 1 (bind_push_cleanup 2 (bind_push_cleanup 1 none)) ≡ some 2
unfolding unbind_push_cleanup
late_unbind = refl
