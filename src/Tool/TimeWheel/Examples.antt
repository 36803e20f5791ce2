-- ===== src/Tool/TimeWheel/Examples.antt =====
-- The properties of the time wheel at a concrete wheel, and runs of it.
use trantor_net.Base.{ℕ, ◌≡◌, refl, none, some, [], ◌∷◌}
use trantor_net.Tool.TimeWheel.{
  Wheel, new_wheel, bucket_index, run_after_event, push_entry, on_timer, find_weak, erase_weak,
  owned, owns, destroy_bucket, destroy_entry, forget,
}

abbrev four_buckets : Wheel ℕ
four_buckets = new_wheel ([] ∷ [] ∷ [] ∷ [] ∷ [])

-- A callback that does nothing to the wheel.
abbrev idle : ℕ → Wheel ℕ → Wheel ℕ
idle u w = w

-- A callback that arms its own event again does so in vain: the object of before has expired, its
-- map entry is still there, and a null pointer is pushed.
abbrev again : ℕ → Wheel ℕ → Wheel ℕ
again u w = run_after_event 0 u 5 w

rearmed-in_vain :
    (on_timer again (record four_buckets {
      event_bucket_queue = (some 0 ∷ []) ∷ [] ∷ [] ∷ [] ∷ [];
      weak_entry_map = (5, 0) ∷ [];
      entries = record { cb = 7; event_uuid = some 5 } ∷ [];
    })).event_bucket_queue
    ≡ [] ∷ (none ∷ []) ∷ [] ∷ [] ∷ []
unfolding on_timer destroy_bucket destroy_entry forget run_after_event push_entry find_weak
    erase_weak owned owns bucket_index
rearmed-in_vain = refl
