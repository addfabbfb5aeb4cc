-- ===== src/Webhook/Settling.antt =====
-- How long a delivery of services/webhook/internal/worker/worker.go is retried by the worker's batches.
use obvious.Base.{
  String, ℕ, ◌+◌, ◌≤◌, ◌≡◌, ◌⊎◌, false, List, [], ◌∷◌, length, filter, if◌then◌else◌, ◌==◌,
}
use obvious.Webhook.Store.{
  pending, delivered, failed, dead_lettered, Delivery, Tables, Platform, is_due,
}
use obvious.Webhook.Worker.{Trip, batch_size, process_batch}
use obvious.Webhook.Tracked.{Only, Sorts}

-- A batch whose query succeeds: its time, and what each attempt meets.
pub record Tick : Type 0 where
  pub at : ℕ
  pub trips : String → Trip

abbrev pub Settled : Delivery → Type 0
Settled d = (d.status ≡ delivered) ⊎ (d.status ≡ dead_lettered)

-- What the delays and four gaps come to, less what `k` attempts have used of it.
abbrev left : ℕ → ℕ → ℕ
left gap k =
    if k == 0
    then gap + gap + gap + gap + 31000000000
    else if k == 1
    then gap + gap + gap + 30000000000
    else if k == 2
    then gap + gap + 25000000000
    else gap

module _ (p : Platform) where
  unfoldable pub batches : List Tick → Tables → Tables
  batches [] t = t
  batches (tick ∷ ticks) t = batches ticks (process_batch p tick.at false tick.trips t)

  -- Each batch follows the one before by `gap` at most, finds no more due rows than it takes, and
  -- can write the row with the ID.
  abbrev pub Served : String → ℕ → ℕ → List Tick → Tables → Type 0
  Served id gap last [] t = Unit
  Served id gap last (tick ∷ ticks) t =
      (last ≤ tick.at)
      × (tick.at ≤ last + gap)
      × (length (filter (is_due tick.at) t.deliveries) ≤ batch_size)
      × ((tick.trips id).write_fails ≡ false)
      × Served id gap tick.at ticks (process_batch p tick.at false tick.trips t)

  -- The time of the last batch.
  abbrev pub last_at : ℕ → List Tick → ℕ
  last_at last [] = last
  last_at last (tick ∷ ticks) = last_at tick.at ticks

  -- The delivery is settled; or it has made `k` attempts, is not due before the last batch, and
  -- has time left until the deadline.
  abbrev Waiting : ℕ → ℕ → ℕ → ℕ → Delivery → Type 0
  Waiting gap deadline last k d =
      Settled d
      ⊎ (((d.status ≡ pending) ⊎ (d.status ≡ failed))
          × (d.attempts ≡ k)
          × (k ≤ 3)
          × (last ≤ d.next_retry_at)
          × (d.next_retry_at + left gap k ≤ deadline))

  module _ (sorts : Sorts p) (id : String) (gap deadline : ℕ) where
    -- After a batch at a time, the row waits still, with as many attempts or one more.
    Waits : ℕ → Tables → Type 0
    Waits last t = (d : Delivery) × (k : ℕ) × Only id d t.deliveries × Waiting gap deadline last k d
