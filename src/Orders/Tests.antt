-- ===== src/Orders/Tests.antt =====
-- A history that is out of order.
use coffix.Prelude.{◌≡◌, refl, none, some, List, [], ◌∷◌, map, text_eq, codes}
use mathlib.Core.List.{Perm}
use coffix.Orders.{
  OrderHistoryEntry, OrderedEntry, pending_payment, paid, processing, compare_stamps, insert_entry,
  sort_entries, with_index, text_lt, TimelineEntry, timeline_entry, build_timeline,
}
use coffix.Orders.Timeline.{IsOrdered, build_timeline-IsOrdered}

abbrev paid_first : List OrderHistoryEntry
paid_first =
    record { created_at = some (codes "2025-02-01"); to_state = processing }
    ∷ record { created_at = some (codes "2025-01-31"); to_state = paid }
    ∷ record { created_at = none; to_state = pending_payment }
    ∷ []

sorted :
    map (λ (e : TimelineEntry). e.state) (build_timeline paid_first)
    ≡ pending_payment ∷ paid ∷ processing ∷ []
unfolding build_timeline sort_entries insert_entry with_index compare_stamps text_lt text_eq
sorted = refl

build_timeline-IsOrdered_example :
    (entries : List OrderedEntry) × (build_timeline paid_first ≡ map timeline_entry entries)
    × IsOrdered entries
    × Perm entries (with_index 0 paid_first)
build_timeline-IsOrdered_example = build_timeline-IsOrdered paid_first
