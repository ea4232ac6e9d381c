-- ===== src/Media/Photo/Shown.antt =====
-- What the hook shows agrees with the operation that it keeps.
use coffix.Prelude.{
  ℕ, ◌≡◌, refl, sym, ap, subst, Bool, true, false, Option, none, some, Text, ◌==◌, if_ind,
}
use coffix.Media.Photo.{
  PhotoState, idle, uploading, error, Stage, at_picker, at_upload, over, PhotoOperation, State,
  clear_current, cancel_upload, pick_photo, retry_photo, retain_operation, Settlement, picked,
  pick_failed, progressed, upload_resolved, upload_rejected, Event, pick, retry, cancel, unmount,
  retain, settle, settle_current, on_settled, step, is_busy, media_of, progress_of, discard_media,
}

-- While the picker or the upload is awaited the hook is busy and holds no media; then it shows its media.
abbrev pub AgreesAt : PhotoState → Stage → Option Text → Type 0
AgreesAt photo over media = (is_busy photo ≡ false) × (media_of photo ≡ media)
AgreesAt photo stage media = (is_busy photo ≡ true) × (media ≡ none)

abbrev pub Agrees : PhotoState → Option PhotoOperation → Type 0
Agrees photo none = (is_busy photo ≡ false) × (media_of photo ≡ none)
Agrees photo (some operation) = AgreesAt photo operation.stage operation.media_id

abbrev pub IsShown : State → Type 0
IsShown s = Agrees s.photo s.current

settle_current-IsShown :
    (settlement : Settlement) (stage : Stage) (operation : PhotoOperation) (s : State)
    → s.current ≡ some operation
    → operation.stage ≡ stage
    → AgreesAt s.photo stage operation.media_id
    → IsShown s
    → IsShown (settle_current settlement stage operation s)
unfolding settle_current
settle_current-IsShown (picked none) (at_picker source) operation s e q at h = (refl, sym at.1)
settle_current-IsShown (picked (some image)) (at_picker source) operation s e q at h = (refl, at.1)
settle_current-IsShown (pick_failed permission) (at_picker source) operation s e q at h =
    (refl, sym at.1)
settle_current-IsShown (progressed sent total) (at_upload image) operation s e q at h =
    let shown = uploading (progress_of sent total) image.uri in
    subst (Agrees shown) (sym e)
      (subst (λ stage. AgreesAt shown stage operation.media_id) (sym q) (refl, at.1))
settle_current-IsShown (upload_resolved media_id) (at_upload image) operation s e q at h =
    (refl, refl)
settle_current-IsShown upload_rejected (at_upload image) operation s e q at h = (refl, sym at.1)
settle_current-IsShown _ _ operation s e q at h = h

on_settled-IsShown :
    (key : ℕ) (settlement : Settlement) (current : Option PhotoOperation) (s : State)
    → s.current ≡ current
    → IsShown s
    → IsShown (on_settled key settlement current s)
unfolding on_settled
on_settled-IsShown key settlement none s e h = h
on_settled-IsShown key settlement (some operation) s e h =
    if_ind IsShown (operation.key == key) _ _
      (λ _.
        settle_current-IsShown settlement operation.stage operation s e refl
          (subst (Agrees s.photo) e h) h)
      (λ _. h)

clear_current-gone :
    (current : Option PhotoOperation) (s : State)
    → s.current ≡ current
    → (clear_current current s).current ≡ none
unfolding clear_current
clear_current-gone none s e = e
clear_current-gone (some operation) s e = refl

retry_photo-IsShown : (photo : PhotoState) (s : State) → IsShown s → IsShown (retry_photo photo s)
unfolding retry_photo
retry_photo-IsShown (error (some image) message) s h = (refl, refl)
retry_photo-IsShown _ s h = h

-- Whether an event belongs to the hook, and not to the end of its page.
abbrev pub is_own : Event → Bool
is_own unmount = false
is_own retain = false
is_own _ = true

pub step-IsShown :
    (event : Event) (s : State) → is_own event ≡ true → IsShown s → IsShown (step event s)
unfolding step pick_photo cancel_upload
step-IsShown (pick source) s own h = (refl, refl)
step-IsShown retry s own h = retry_photo-IsShown s.photo s h
step-IsShown cancel s own h =
    subst (Agrees idle) (sym (clear_current-gone s.current s refl)) (refl, refl)
step-IsShown (settle key settlement) s own h = on_settled-IsShown key settlement s.current s refl h
step-IsShown unmount s own h = cc
step-IsShown retain s own h = cc

clear_current-retained :
    (current : Option PhotoOperation) (s : State) → (clear_current current s).retained ≡ s.retained
unfolding clear_current
clear_current-retained none s = refl
clear_current-retained (some operation) s = refl

settle_current-retained :
    (settlement : Settlement) (stage : Stage) (operation : PhotoOperation) (s : State)
    → (settle_current settlement stage operation s).retained ≡ s.retained
unfolding settle_current
settle_current-retained (picked none) (at_picker source) operation s = refl
settle_current-retained (picked (some image)) (at_picker source) operation s = refl
settle_current-retained (pick_failed permission) (at_picker source) operation s = refl
settle_current-retained (progressed sent total) (at_upload image) operation s = refl
settle_current-retained (upload_resolved media_id) (at_upload image) operation s = refl
settle_current-retained upload_rejected (at_upload image) operation s = refl
settle_current-retained _ _ operation s = refl

on_settled-retained :
    (key : ℕ) (settlement : Settlement) (current : Option PhotoOperation) (s : State)
    → (on_settled key settlement current s).retained ≡ s.retained
unfolding on_settled
on_settled-retained key settlement none s = refl
on_settled-retained key settlement (some operation) s =
    if_ind (λ (t : State). t.retained ≡ s.retained) (operation.key == key) _ _
      (λ _. settle_current-retained settlement operation.stage operation s) (λ _. refl)

retry_photo-retained :
    (photo : PhotoState) (s : State) → (retry_photo photo s).retained ≡ s.retained
unfolding retry_photo
retry_photo-retained (error (some image) message) s = clear_current-retained s.current s
retry_photo-retained _ s = refl

-- Only `retain` leaves a media to a registration.
pub step-retained :
    (event : Event) (s : State) → is_own event ≡ true → (step event s).retained ≡ s.retained
unfolding step pick_photo cancel_upload
step-retained (pick source) s own = clear_current-retained s.current s
step-retained retry s own = retry_photo-retained s.photo s
step-retained cancel s own = clear_current-retained s.current s
step-retained (settle key settlement) s own = on_settled-retained key settlement s.current s
step-retained unmount s own = cc
step-retained retain s own = cc

pub unmount-retained : (s : State) → (step unmount s).retained ≡ s.retained
unfolding step
unmount-retained s = clear_current-retained s.current s

over_of_resting :
    (photo : PhotoState) (stage : Stage) (media : Option Text)
    → is_busy photo ≡ false
    → AgreesAt photo stage media
    → stage ≡ over
over_of_resting photo over media rest at = refl
over_of_resting photo (at_picker source) media rest at = cc (at.0)
over_of_resting photo (at_upload image) media rest at = cc (at.0)

settle_over :
    (settlement : Settlement) (operation : PhotoOperation) (s : State)
    → settle_current settlement over operation s ≡ s
unfolding settle_current
settle_over (picked none) operation s = refl
settle_over (picked (some image)) operation s = refl
settle_over (pick_failed permission) operation s = refl
settle_over (progressed sent total) operation s = refl
settle_over (upload_resolved media_id) operation s = refl
settle_over upload_rejected operation s = refl

-- No promise changes what a hook shows that is not busy.
settle-resting :
    (key : ℕ) (settlement : Settlement) (current : Option PhotoOperation) (s : State)
    → s.current ≡ current
    → is_busy s.photo ≡ false
    → IsShown s
    → (on_settled key settlement current s).photo ≡ s.photo
unfolding on_settled
settle-resting key settlement none s e rest h = refl
settle-resting key settlement (some operation) s e rest h =
    if_ind (λ (t : State). t.photo ≡ s.photo) (operation.key == key) _ _
      (λ _.
        let ended =
          over_of_resting s.photo operation.stage operation.media_id rest
            (subst (Agrees s.photo) e h) in
        subst (λ stage. (settle_current settlement stage operation s).photo ≡ s.photo) (sym ended)
          (ap (λ t. t.photo) (settle_over settlement operation s)))
      (λ _. refl)

-- What `retain` leaves to the registration is the media that is shown.
retain-retained :
    (current : Option PhotoOperation) (s : State)
    → s.current ≡ current
    → is_busy s.photo ≡ false
    → IsShown s
    → (retain_operation current s).retained ≡ discard_media (media_of s.photo) s.retained
retain-retained none s e rest h =
    ap (λ media. discard_media media s.retained) (sym (subst (Agrees s.photo) e h).1)
retain-retained (some operation) s e rest h =
    ap (λ media. discard_media media s.retained)
      (sym (shown operation.stage refl (subst (Agrees s.photo) e h)))
  where
    shown :
        (stage : Stage)
        → operation.stage ≡ stage
        → AgreesAt s.photo stage operation.media_id
        → media_of s.photo ≡ operation.media_id
    shown over q at = at.1
    shown (at_picker source) q at = cc (rest, at.0)
    shown (at_upload image) q at = cc (rest, at.0)

pub step_retain-retained :
    (s : State)
    → is_busy s.photo ≡ false
    → IsShown s
    → (step retain s).retained ≡ discard_media (media_of s.photo) s.retained
unfolding step
step_retain-retained s rest h = retain-retained s.current s refl rest h

pub step_settle-resting :
    (key : ℕ) (settlement : Settlement) (s : State)
    → is_busy s.photo ≡ false
    → IsShown s
    → (step (settle key settlement) s).photo ≡ s.photo
unfolding step
step_settle-resting key settlement s rest h = settle-resting key settlement s.current s refl rest h
