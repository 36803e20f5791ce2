-- ===== src/Tool/TimeWheel.antt =====
-- TimeWheel (src/tool/inc/TimeWheel.h, src/tool/src/TimeWheel.cc). An entry is an object with an
-- identity; its owners are the buckets, and the bucket that `onTimer` is destroying. What a user's
-- callback does to the wheel is the parameter `run_user`. `uint32_t(delay / interval_)` is the
-- argument `intervals`.
mod Examples
use trantor_net.Base.{
  ℕ, ◌+◌, ◌-◌, ◌%◌, ◌^◌, Bool, true, false, ◌||◌, Option, none, some, List, [], ◌∷◌, ◌++◌, ◌==◌,
  leb, if◌then◌else◌, length, get_or, set, u32, sub64, drop,
}

-- The callback, and the `event_uuid` of the closure around it.
pub record Entry (U : Type 0) : Type 0 where
  pub cb : U
  pub event_uuid : Option ℕ

-- A `shared_ptr`, which may be null.
abbrev pub EntryPtr : Type 0
EntryPtr = Option ℕ

pub record Wheel (U : Type 0) : Type 0 where
  pub event_bucket_queue : List (List EntryPtr)
  pub weak_entry_map : List (ℕ × ℕ)
  pub entries : List (Entry U)  -- every object that was made, by its identity

-- Is the object among the pointers?
unfoldable pub owns : List EntryPtr → ℕ → Bool
owns [] id = false
owns (none ∷ ptrs) id = owns ptrs id
owns (some j ∷ ptrs) id = (j == id) || owns ptrs id

unfoldable pub owned : List (List EntryPtr) → ℕ → Bool
owned [] id = false
owned (bucket ∷ buckets) id = owns bucket id || owned buckets id

unfoldable pub find_weak : List (ℕ × ℕ) → ℕ → Option ℕ
find_weak [] uuid = none
find_weak ((k, id) ∷ m) uuid = if k == uuid then some id else find_weak m uuid

unfoldable pub erase_weak : List (ℕ × ℕ) → ℕ → List (ℕ × ℕ)
erase_weak [] uuid = []
erase_weak ((k, id) ∷ m) uuid = if k == uuid then m else (k, id) ∷ erase_weak m uuid

-- Where `runAfter` puts an entry, in a queue of the given size.
unfoldable pub bucket_index : ℕ → ℕ → ℕ
bucket_index intervals queue_size =
    let bucket_num = u32 (intervals + 1) in
    if leb queue_size bucket_num
    then u32 (queue_size + 2 ^ 32 - 1)
    else u32 (bucket_num + queue_size) % queue_size

module _ {U : Type 0} where
  -- The constructor's `resize`.
  abbrev pub new_wheel : List (List EntryPtr) → Wheel U
  new_wheel empty_buckets = record {
    event_bucket_queue = empty_buckets;
    weak_entry_map = [];
    entries = [];
  }

  unfoldable pub push_entry : ℕ → EntryPtr → Wheel U → Wheel U
  push_entry i ptr w =
      let q = w.event_bucket_queue in
      record w { event_bucket_queue = set q i (get_or q i [] ++ (ptr ∷ [])) }

  -- `runAfter(delay, cb)`
  unfoldable pub run_after_once : ℕ → U → Wheel U → Wheel U
  run_after_once intervals cb w =
      let i = bucket_index intervals (u32 (length w.event_bucket_queue)) in
      let made = record w { entries = w.entries ++ (record { cb = cb; event_uuid = none } ∷ []) } in
      push_entry i (some (length w.entries)) made

  -- `runAfter(delay, cb, event_uuid)`: for a known `event_uuid` the object of before, which may have
  -- expired and is then null.
  unfoldable pub run_after_event : ℕ → U → ℕ → Wheel U → Wheel U
  run_after_event intervals cb uuid w =
      let i = bucket_index intervals (u32 (length w.event_bucket_queue)) in
      elim (find_weak w.weak_entry_map uuid) [
        | some id ↦ push_entry i (if owned w.event_bucket_queue id then some id else none) w
        | none ↦ push_entry i (some (length w.entries)) (record w {
          entries = w.entries ++ (record { cb = cb; event_uuid = some uuid } ∷ []);
          weak_entry_map = (uuid, length w.entries) ∷ w.weak_entry_map;
        })
      ]

  module _ (run_user : U → Wheel U → Wheel U) where
    -- The end of the closure: the `event_uuid` is forgotten if its object has expired; `ptrs` are the
    -- owners that are still to be destroyed.
    unfoldable pub forget : List EntryPtr → Option ℕ → Wheel U → Wheel U
    forget ptrs none w = w
    forget ptrs (some uuid) w = elim (find_weak w.weak_entry_map uuid) [
      | none ↦ w
      | some id ↦
          if owns ptrs id || owned w.event_bucket_queue id
          then w
          else record w { weak_entry_map = erase_weak w.weak_entry_map uuid }
    ]

    -- `~Entry` of the object, if there is one.
    unfoldable pub destroy_entry : List EntryPtr → List (Entry U) → Wheel U → Wheel U
    destroy_entry ptrs [] w = w
    destroy_entry ptrs (e ∷ _) w = forget ptrs e.event_uuid (run_user e.cb w)

    -- The destruction of a bucket: an object goes with its last owner.
    unfoldable pub destroy_bucket : List EntryPtr → Wheel U → Wheel U
    destroy_bucket [] w = w
    destroy_bucket (none ∷ ptrs) w = destroy_bucket ptrs w
    destroy_bucket (some id ∷ ptrs) w = destroy_bucket ptrs (
        if owns ptrs id || owned w.event_bucket_queue id
        then w
        else destroy_entry ptrs (drop id w.entries) w)

    unfoldable pub on_timer : Wheel U → Wheel U
    on_timer w =
        let tmp = get_or w.event_bucket_queue 0 [] in
        destroy_bucket tmp
          (record w { event_bucket_queue = drop 1 w.event_bucket_queue ++ ([] ∷ []) })
