-- ===== src/Media/Photo/Tests.antt =====
-- The upload of a first photo resolves after a second one was picked.
use coffix.Prelude.{◌+◌, ◌≡◌, refl, some, List, [], ◌∷◌, codes}
use coffix.Media.Uploader.{UploadMedia}
use coffix.Media.Photo.{
  camera, library, initial, clear_current, pick_photo, picked, upload_resolved, Event, pick, settle,
  settle_current, settle_earlier, on_settled, step, run,
}
use coffix.Media.Photo.Laws.{count, count_some, held_by, run_accounts}

abbrev picture : UploadMedia
picture = record { uri = codes "file:a"; content_type = codes "image/jpeg"; size_bytes = 7 }

abbrev two_photos : List Event
two_photos =
    pick camera
    ∷ settle 0 (picked (some picture))
    ∷ pick library
    ∷ settle 1 (picked (some picture))
    ∷ settle 0 (upload_resolved (codes "m0"))
    ∷ settle 1 (upload_resolved (codes "m1"))
    ∷ []

late_one : (run two_photos initial).discarded ≡ codes "m0" ∷ []
unfolding run step pick_photo clear_current on_settled settle_current settle_earlier
late_one = refl

run_accounts_example :
    count (codes "m1") (run two_photos initial).resolved
    ≡ count_some (codes "m1") (held_by (run two_photos initial).current)
      + count (codes "m1") (run two_photos initial).discarded
      + count (codes "m1") (run two_photos initial).retained
run_accounts_example = run_accounts two_photos (codes "m1")
