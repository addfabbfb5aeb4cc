-- ===== src/Webhook/Worker.antt =====
-- services/webhook/internal/worker/worker.go: one poll of the queue. The signature goes into a
-- header alone, so it is left out; what the network and the database do in an attempt is a `Trip`.
use obvious.Base.{
  ℕ, String, Bool, true, false, ◌&&◌, Option, none, some, List, [], ◌∷◌, if◌then◌else◌, ltb, leb,
}
use obvious.Webhook.Store.{
  Endpoint, Delivery, Tables, Platform, get_endpoint, update_where, due_pending_deliveries,
  mark_delivered, mark_failed,
}

abbrev pub batch_size : ℕ
batch_size = 50

-- The request cannot be built, the client fails, or the endpoint answers with a status and a body.
pub data Outcome : Type 0 where
  not_built not_sent : String → Outcome
  answered : ℕ → String → Outcome

pub record Trip : Type 0 where
  pub lookup_fails : Bool
  pub outcome : Outcome
  pub write_fails : Bool

-- fetchEndpoint: a Store has no method GetEndpointByID, so the fallback asks with an empty org.
unfoldable pub fetch_endpoint : Trip → String → Tables → Option Endpoint
unfolding get_endpoint
fetch_endpoint trip endpoint_id t =
    if trip.lookup_fails then none else get_endpoint endpoint_id "" t

module _ (p : Platform) where
  abbrev pub answer_change : ℕ → ℕ → String → ℕ → Delivery → Delivery
  answer_change now code body attempts d =
      if leb 200 code && ltb code 300
      then mark_delivered p now code body d
      else mark_failed p now code body attempts d

  abbrev pub outcome_change : ℕ → Outcome → ℕ → Delivery → Delivery
  outcome_change now (not_built e) attempts d = mark_failed p now 0 e attempts d
  outcome_change now (not_sent e) attempts d = mark_failed p now 0 e attempts d
  outcome_change now (answered code body) attempts d = answer_change now code body attempts d

  -- What an attempt makes of the row, given the endpoint and the attempts that were read.
  unfoldable pub attempt_change : ℕ → Outcome → Option Endpoint → ℕ → Delivery → Delivery
  attempt_change now outcome none attempts d = mark_failed p now 0 "endpoint not found" attempts d
  attempt_change now outcome (some ep) attempts d = outcome_change now outcome attempts d

  unfoldable pub deliver : ℕ → Trip → Delivery → Tables → Tables
  unfolding fetch_endpoint attempt_change update_where
  deliver now trip d t =
      let change =
        attempt_change now trip.outcome (fetch_endpoint trip d.endpoint_id t) d.attempts in
      if trip.write_fails
      then t
      else record t { deliveries = update_where d.id change t.deliveries }

  unfoldable pub deliver_each : ℕ → (String → Trip) → List Delivery → Tables → Tables
  unfolding deliver
  deliver_each now trips [] t = t
  deliver_each now trips (d ∷ ds) t = deliver_each now trips ds (deliver now (trips d.id) d t)

  abbrev pub batch : Bool → List Delivery → List Delivery
  batch true ds = []
  batch false ds = ds

  -- processBatch, where the query may fail.
  unfoldable pub process_batch : ℕ → Bool → (String → Trip) → Tables → Tables
  unfolding deliver_each due_pending_deliveries
  process_batch now query_fails trips t =
      deliver_each now trips (batch query_fails (due_pending_deliveries p now batch_size t)) t
