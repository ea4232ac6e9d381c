-- ===== src/Machines/Register/Owned.antt =====
-- Which uploaded photos belong to the registered machines.
use coffix.Prelude.{
  ℕ, ◌≡◌, refl, sym, ap, ◌∙◌, subst, Bool, true, false, not, ◌&&◌, ◌||◌, Option, none, some, List,
  [], ◌∷◌, is_some, Text, if_ind, arith,
}
use coffix.Media.Photo
use coffix.Media.Photo.Laws.{IsAccounted, step-IsAccounted}
use coffix.Media.Photo.Shown.{
  IsShown, is_own, step-IsShown, step-retained, unmount-retained, step_settle-resting,
  step_retain-retained,
}
use coffix.Machines.{
  MachineRegisterForm, MachineCreate, any_errors, validate_machine_register_form, to_machine_create,
}
use coffix.Machines.Laws.{to_machine_create-model}
use coffix.Machines.Register.{
  mutate, submit, on_create_settled, is_cancellable, is_enabled, on_photo, leave, Event, left,
  handle,
}
use coffix.Machines.Register.Page.{CreateAnswer, created, refused, State, Runtime}

-- The media of the registered machines, the last one first.
abbrev pub media_of_all : List MachineCreate → List Text
media_of_all [] = []
media_of_all (input ∷ inputs) = Photo.discard_media input.created_media_id (media_of_all inputs)

-- A pending registration was sent from the open page, with the media that the photo shows.
abbrev pub PendingHolds : Option MachineCreate → Bool → Photo.PhotoState → Type 0
PendingHolds none is_open photo = Unit
PendingHolds (some input) is_open photo =
    (is_open ≡ true)
    × (Photo.is_busy photo ≡ false)
    × (Photo.media_of photo ≡ input.created_media_id)

pub record IsOwned (s : State) : Type 0 where
  pub shown : s.is_open ≡ true → IsShown s.photo
  pub holds : PendingHolds s.pending s.is_open s.photo.photo
  pub owned : s.photo.retained ≡ media_of_all s.registered
  pub accounted : (x : Text) → IsAccounted x s.photo

-- What changes neither the photo, the registrations nor whether the page is open.
module _ (s : State) (h : IsOwned s) where
  pub form-IsOwned :
      (form : MachineRegisterForm) (manufacturer brand model : Text) (touched : Bool)
      → IsOwned (record s {
        form = form;
        manufacturer = manufacturer;
        brand_query = brand;
        model_query = model;
        touched = touched;
      })
  form-IsOwned form manufacturer brand model touched = record {
    shown = h.shown;
    holds = h.holds;
    owned = h.owned;
    accounted = h.accounted;
  }

pub submit-IsOwned : (R : Runtime) (s : State) → s.is_open ≡ true → IsOwned s → IsOwned (submit R s)
submit-IsOwned R s opens h =
    if_ind IsOwned (is_some s.pending || Photo.is_busy s.photo.photo) _ _ (λ e. h)
      (λ e.
        if_ind IsOwned (any_errors (validate_machine_register_form R.iso_day R.today s.form)) _ _
          (λ bad. record {
            shown = h.shown;
            holds = h.holds;
            owned = h.owned;
            accounted = h.accounted;
          })
          (λ good. mutated (ground (arith, e)) (to_machine_create R.iso_day R.today values) refl))
  where
    values : MachineRegisterForm
    values = record s.form { media_id = Photo.media_of s.photo.photo }

    mutated :
        Photo.is_busy s.photo.photo ≡ false
        → (input : Option MachineCreate) → to_machine_create R.iso_day R.today values ≡ input
        → IsOwned (mutate R input (record s { touched = true }))
    mutated rest none e = record {
      shown = h.shown;
      holds = h.holds;
      owned = h.owned;
      accounted = h.accounted;
    }
    mutated rest (some input) e =
        let same = (to_machine_create-model R.iso_day R.today values input e).1 in
        record {
          shown = h.shown;
          holds = (opens, rest, sym (ap (λ (i : MachineCreate). i.created_media_id) same));
          owned = h.owned;
          accounted = h.accounted;
        }

pub settled-IsOwned :
    (pending : Option MachineCreate) (answer : CreateAnswer) (s : State)
    → s.pending ≡ pending
    → IsOwned s
    → IsOwned (on_create_settled pending answer s)
settled-IsOwned none answer s e h = h
settled-IsOwned (some input) (refused error) s e h = record {
  shown = h.shown;
  holds = tt;
  owned = h.owned;
  accounted = h.accounted;
}
settled-IsOwned (some input) (created id) s e h =
    let held = subst (λ p. PendingHolds p s.is_open s.photo.photo) e h.holds in
    if_ind IsOwned s.is_open _ _
      (λ opens. record {
        shown = λ closed. cc;
        holds = tt;
        owned =
            unmount-retained (Photo.step Photo.retain s.photo)
            ∙ retained (h.shown opens) held.1 held.2;
        accounted = λ x.
            step-IsAccounted x Photo.unmount (Photo.step Photo.retain s.photo)
              (step-IsAccounted x Photo.retain s.photo (h.accounted x));
      })
      (λ closed. cc (held.0))
  where
    retained :
        IsShown s.photo
        → Photo.is_busy s.photo.photo ≡ false
        → Photo.media_of s.photo.photo ≡ input.created_media_id
        → (Photo.step Photo.retain s.photo).retained ≡ media_of_all (input ∷ s.registered)
    retained shown rest same =
        step_retain-retained s.photo rest shown
        ∙ ap (λ media. Photo.discard_media media s.photo.retained) same
        ∙ ap (Photo.discard_media input.created_media_id) h.owned

nothing_pending :
    (pending : Option MachineCreate) (is_open : Bool) (photo : Photo.PhotoState)
    → is_some pending ≡ false
    → PendingHolds pending is_open photo
nothing_pending none is_open photo e = tt
nothing_pending (some input) is_open photo e = cc

-- The photo of a pending registration can not be cancelled.
cancel_holds :
    (pending : Option MachineCreate) (is_open : Bool) (photo after : Photo.PhotoState)
    → is_cancellable photo (is_some pending) ≡ true
    → PendingHolds pending is_open photo
    → PendingHolds pending is_open after
cancel_holds none is_open photo after e held = tt
cancel_holds (some input) is_open (Photo.uploading progress uri) after e held = cc (held.1)
cancel_holds (some input) is_open (Photo.done media_id uri) after e held = cc
cancel_holds (some input) is_open Photo.idle after e held = cc
cancel_holds (some input) is_open Photo.picking after e held = cc
cancel_holds (some input) is_open (Photo.error image shown) after e held = cc

settle_holds :
    (key : ℕ) (settlement : Photo.Settlement) (pending : Option MachineCreate) (is_open : Bool)
    (photo : Photo.State)
    → (is_open ≡ true → IsShown photo)
    → PendingHolds pending is_open photo.photo
    → PendingHolds pending is_open (Photo.step (Photo.settle key settlement) photo).photo
settle_holds key settlement none is_open photo shown held = tt
settle_holds key settlement (some input) is_open photo shown held =
    subst (λ p. PendingHolds (some input) is_open p)
      (sym (step_settle-resting key settlement photo held.1 (shown held.0))) held

photo_holds :
    (event : Photo.Event) (s : State)
    → is_enabled event s ≡ true
    → IsOwned s
    → PendingHolds s.pending s.is_open (Photo.step event s.photo).photo
photo_holds (Photo.pick source) s e h =
    nothing_pending s.pending s.is_open (Photo.step (Photo.pick source) s.photo).photo
      (ground (arith, e))
photo_holds Photo.retry s e h =
    nothing_pending s.pending s.is_open (Photo.step Photo.retry s.photo).photo (ground (arith, e))
photo_holds Photo.cancel s e h =
    cancel_holds s.pending s.is_open s.photo.photo (Photo.step Photo.cancel s.photo).photo
      (ground (arith, e)) h.holds
photo_holds (Photo.settle key settlement) s e h =
    settle_holds key settlement s.pending s.is_open s.photo h.shown h.holds
photo_holds Photo.unmount s e h = cc
photo_holds Photo.retain s e h = cc

enabled_own : (event : Photo.Event) (s : State) → is_enabled event s ≡ true → is_own event ≡ true
enabled_own (Photo.pick source) s e = refl
enabled_own Photo.retry s e = refl
enabled_own Photo.cancel s e = refl
enabled_own (Photo.settle key settlement) s e = refl
enabled_own Photo.unmount s e = cc
enabled_own Photo.retain s e = cc

pub photo-IsOwned : (event : Photo.Event) (s : State) → IsOwned s → IsOwned (on_photo event s)
photo-IsOwned event s h =
    if_ind IsOwned (is_enabled event s) _ _
      (λ e.
        let own = enabled_own event s e in
        record {
          shown = λ opens. step-IsShown event s.photo own (h.shown opens);
          holds = photo_holds event s e h;
          owned = step-retained event s.photo own ∙ h.owned;
          accounted = λ x. step-IsAccounted x event s.photo (h.accounted x);
        })
      (λ e. h)

-- The page is not left while a registration is pending.
abbrev pub is_staying : Event → State → Bool
is_staying left s = not (s.is_open && is_some s.pending)
is_staying event s = true

unfoldable pub are_staying : Runtime → List Event → State → Bool
unfolding handle
are_staying R [] s = true
are_staying R (event ∷ events) s = is_staying event s && are_staying R events (handle R event s)

pub leave-IsOwned : (s : State) → is_staying left s ≡ true → IsOwned s → IsOwned (leave s)
leave-IsOwned s stays h =
    if_ind IsOwned s.is_open _ _
      (λ opens. record {
        shown = λ closed. cc;
        holds =
            nothing_pending s.pending false (Photo.step Photo.unmount s.photo).photo
              (ground (arith, stays, opens));
        owned = unmount-retained s.photo ∙ h.owned;
        accounted = λ x. step-IsAccounted x Photo.unmount s.photo (h.accounted x);
      })
      (λ closed. h)
