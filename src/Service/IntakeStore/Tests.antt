-- ===== src/Service/IntakeStore/Tests.antt =====
-- Runs of the store on a device of which one call is rejected.
use coffix.Prelude.{ℕ, zero, suc, ◌≡◌, refl, true, none, some, List, [], ◌∷◌, Text, codes}
use coffix.Storage.{Post, ◌>>=◌}
use coffix.Storage.Memory.{Memory, memory, memory_laws}
use coffix.Service.IntakeStore.{
  Operation, loading, saving, encode_from, key_for, load, save, clear, clear_all, run_all,
}
use coffix.Service.IntakeStore.Bodies.{bodies, bodies-DraftsLaws}
use coffix.Service.IntakeStore.Invariant.{Tracked}
use coffix.Service.IntakeStore.Session.{Erased-Tracked, run_all-Tracked, logout_erases}
use coffix.Service.IntakeStore.Logout.{Erased}
use coffix.Service.IntakeStore.Loading.{load-save}
use coffix.Service.IntakeStore.Clearing.{load-clear}

abbrev repeat : ℕ → Text
repeat zero = []
repeat (suc n) = b'x' ∷ repeat n

-- The sixth call of the device is rejected: the third chunk of a draft of three is not written.
abbrev rejecting : Memory
rejecting = ((λ key. none), some 6)

abbrev before_logout : List (Operation Text)
before_logout =
    saving (codes "s1") (repeat 900)
    ∷ loading (codes "s1") (codes "m1")
    ∷ saving (codes "s2") (repeat 10)
    ∷ []

logout_erases_example :
    Post
      (λ (d : Memory). d.0)
      memory_laws.grants
      (λ _. Erased)
      (Tracked bodies)
      (memory_laws.grants (run_all memory bodies before_logout rejecting))
      (clear_all memory bodies (run_all memory bodies before_logout rejecting))
logout_erases_example =
    logout_erases memory_laws bodies bodies-DraftsLaws before_logout rejecting
      ((refl, refl), (tt, ((refl, refl), tt))) (λ j. refl)

abbrev key_of_m1 : Text
key_of_m1 = codes "coffix.serviceDrafts.v1.s1.m1"

load-save_example :
    Post
      (λ (d : Memory). d.0)
      memory_laws.grants
      (λ loaded s. (loaded ≡ repeat 500) × Tracked bodies s)
      (Tracked bodies)
      true
      ((save memory bodies (codes "s1") (repeat 500) >>= λ _.
          load memory bodies (codes "s1") (codes "m1"))
        ((λ key. none), none))
unfolding encode_from key_for
load-save_example =
    load-save memory_laws bodies bodies-DraftsLaws (codes "s1") (repeat 500) key_of_m1
      ((λ key. none), none) refl refl refl
      (Erased-Tracked memory_laws bodies bodies-DraftsLaws (λ key. none) (λ key. refl))

-- After a save that was rejected at its sixth call.
load-clear_example :
    Post
      (λ (d : Memory). d.0)
      memory_laws.grants
      (λ loaded s. (loaded ≡ []) × Tracked bodies s)
      (Tracked bodies)
      (memory_laws.grants (run_all memory bodies (saving (codes "s1") (repeat 900) ∷ []) rejecting))
      ((clear memory bodies (codes "s1") (codes "m1") >>= λ _.
          load memory bodies (codes "s1") (codes "m1"))
        (run_all memory bodies (saving (codes "s1") (repeat 900) ∷ []) rejecting))
unfolding encode_from key_for
load-clear_example =
    load-clear memory_laws bodies bodies-DraftsLaws (codes "s1") (codes "m1") key_of_m1 refl
      (run_all memory bodies (saving (codes "s1") (repeat 900) ∷ []) rejecting) refl refl
      (run_all-Tracked memory_laws bodies bodies-DraftsLaws (saving (codes "s1") (repeat 900) ∷ [])
        rejecting ((refl, refl), tt)
        (Erased-Tracked memory_laws bodies bodies-DraftsLaws (λ key. none) (λ key. refl)))
