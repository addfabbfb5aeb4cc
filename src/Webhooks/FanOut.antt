-- ===== src/Webhooks/FanOut.antt =====
-- The whole of services/webhooks/internal/delivery/delivery.go on the tables: dispatches, retry
-- batches, and the goroutines that they start, in any order.
use mathlib.Core.Path.{subst}
use obvious.Base.{
  ℕ, zero, suc, ◌≡◌, refl, sym, ap, String, Bool, true, false, Bool-cases, inl, inr, Option, none,
  some, List, [], ◌∷◌, ◌++◌, if◌then◌else◌, ◌==◌, arith, All, filter, take,
}
use obvious.Base.Json.{Fields}
use obvious.Webhooks.Delivery.{
  WebhookDelivery, create_delivery, scan_delivery, Outcome, is_success, attempt,
}
use obvious.Webhooks.Subscriptions.{
  WebhookSubscription, CreateSubscriptionRequest, UpdateSubscriptionRequest, Tables,
  create_subscription, update_subscription, is_empty, delete_subscription,
  active_subscriptions_for_event, pending_deliveries,
}
use obvious.Webhooks.Dispatch.{
  Started, Database, scan_all, fan_out, dispatch, retry_scanned, run_retry_batch, retry_batch_size,
  new_row, retry_each,
}

-- The tables and the goroutines that run.
pub record Service : Type 0 where
  pub tables : Tables
  pub running : List Started

-- What may happen next; the first of the goroutines ends with an outcome.
pub data Step : Type 0 where
  subscribing : ℕ → ℕ → ℕ → String → CreateSubscriptionRequest → Step
  updating : ℕ → ℕ → ℕ → UpdateSubscriptionRequest → Step
  deleting : ℕ → ℕ → ℕ → Step
  dispatching : Database → ℕ → ℕ → String → Option Fields → Step
  retrying : Database → ℕ → Step
  ending : ℕ → Outcome → Step

abbrev launched : Service → Option (Tables × List Started) → Service
launched s none = s
launched s (some (t, new)) = record { tables = t; running = s.running ++ new }

abbrev or_same : WebhookDelivery → Option WebhookDelivery → WebhookDelivery
or_same d none = d
or_same d (some new) = new

module _ (print : ℕ → String) where
  -- What the end of an attempt makes of the row: the count of a failure is from the goroutine's copy.
  abbrev landed : ℕ → Outcome → WebhookDelivery → WebhookDelivery → WebhookDelivery
  landed now o copy d =
      if is_success o
      then or_same d (attempt print now o d)
      else or_same d (attempt print now o (record d { attempt_count = copy.attempt_count }))

  unfoldable pub land : ℕ → Outcome → WebhookDelivery → List WebhookDelivery → List WebhookDelivery
  land now o copy [] = []
  land now o copy (d ∷ ds) =
      (if d.id == copy.id then landed now o copy d else d) ∷ land now o copy ds

  abbrev ended : ℕ → Outcome → Service → List Started → Service
  ended now o s [] = s
  ended now o s (a ∷ rest) = record {
    tables = record s.tables { deliveries = land now o a.delivery s.tables.deliveries };
    running = rest;
  }

  unfoldable pub serve : Step → Service → Service
  serve (subscribing id now org hash req) s = record s {
    tables = (create_subscription id now org hash req s.tables).0;
  }
  serve (updating now org id req) s = record s {
    tables = (update_subscription now org id req s.tables).0;
  }
  serve (deleting now org id) s = record s { tables = delete_subscription now org id s.tables }
  serve (dispatching db now org event_type payload) s =
      launched s (dispatch db now org event_type payload s.tables)
  serve (retrying db now) s = record s { running = s.running ++ run_retry_batch db now s.tables }
  serve (ending now o) s = ended now o s s.running

  unfoldable pub serve_all : List Step → Service → Service
  serve_all [] s = s
  serve_all (c ∷ cs) s = serve_all cs (serve c s)

-- A row whose column error_message is NULL.
abbrev pub Blank : WebhookDelivery → Type 0
Blank d = d.error_message ≡ none

-- What is known of the driver and the database: NULL is not scanned into a Go string, and sorting
-- rows leaves what they hold.
abbrev pub Documented : Database → Type 0
Documented db =
    (db.of_null ≡ none)
    × ((ds : List WebhookDelivery) → All Blank ds → All Blank (db.oldest_first ds))

abbrev pub DocumentedStep : Step → Type 0
DocumentedStep (dispatching db now org event_type payload) = Documented db
DocumentedStep (retrying db now) = Documented db
DocumentedStep _ = Unit

record Quiet (s : Service) : Type 0 where
  idle : s.running ≡ []
  blank : All Blank s.tables.deliveries

scan-Blank :
    (of_null : Option String) (d : WebhookDelivery)
    → of_null ≡ none
    → Blank d
    → scan_delivery of_null d ≡ none
unfolding scan_delivery
scan-Blank of_null d e blank = ground (arith, e, blank)

fan_out-Blank :
    (db : Database) (now org : ℕ) (event_type : String) (payload : Option Fields)
    (subs : List WebhookSubscription) (t : Tables)
    → db.of_null ≡ none
    → All Blank t.deliveries
    → ((fan_out db now org event_type payload subs t).1 ≡ [])
      × All Blank (fan_out db now org event_type payload subs t).0.deliveries
unfolding fan_out create_delivery
fan_out-Blank db now org event_type payload [] t e h = (refl, h)
fan_out-Blank db now org event_type payload (sub ∷ subs) t e h =
    elim (Bool-cases (db.insert_fails sub.id)) [
      | inl lost ↦ rw (fan_out, lost) (fan_out-Blank db now org event_type payload subs t e h)
      | inr kept ↦
          let d = new_row db now org event_type payload sub in
          let t' : Tables = record t { deliveries = d ∷ t.deliveries } in
          let unscanned = scan-Blank db.of_null d e refl in
          rw (fan_out, kept, unscanned)
            (fan_out-Blank db now org event_type payload subs t' e (refl, h))
    ]

All-filter-Blank :
    (test : WebhookDelivery → Bool) (ds : List WebhookDelivery)
    → All Blank ds
    → All Blank (filter test ds)
All-filter-Blank test [] h = tt
All-filter-Blank test (d ∷ ds) h = elim (Bool-cases (test d)) [
  | inl kept ↦ rw kept (h.0, All-filter-Blank test ds h.1)
  | inr dropped ↦ rw dropped (All-filter-Blank test ds h.1)
]

All-take-Blank : (n : ℕ) (ds : List WebhookDelivery) → All Blank ds → All Blank (take n ds)
All-take-Blank zero ds h = tt
All-take-Blank (suc n) [] h = tt
All-take-Blank (suc n) (d ∷ ds) h = (h.0, All-take-Blank n ds h.1)

scanned-nothing :
    (db : Database) (now : ℕ) (t : Tables) (ds : List WebhookDelivery)
    → db.of_null ≡ none
    → All Blank ds
    → retry_scanned db now t (scan_all db.of_null ds) ≡ []
unfolding scan_all retry_each
scanned-nothing db now t [] e h = refl
scanned-nothing db now t (d ∷ ds) e h = rw (scan_all, scan-Blank db.of_null d e h.0) refl

if-nothing : (b : Bool) (xs : List Started) → xs ≡ [] → (if b then [] else xs) ≡ []
if-nothing true xs e = refl
if-nothing false xs e = e

retry-nothing :
    (db : Database) (now : ℕ) (t : Tables)
    → Documented db
    → All Blank t.deliveries
    → run_retry_batch db now t ≡ []
unfolding run_retry_batch pending_deliveries
retry-nothing db now t known h = if-nothing db.query_fails _ (
    scanned-nothing db now t _ known.0
      (All-take-Blank retry_batch_size _ (known.1 _ (All-filter-Blank _ t.deliveries h))))

launch-Quiet :
    (db : Database) (now org : ℕ) (event_type : String) (payload : Option Fields) (s : Service)
    → db.of_null ≡ none
    → Quiet s
    → Quiet (launched s (dispatch db now org event_type payload s.tables))
unfolding dispatch
launch-Quiet db now org event_type payload s e q = elim (Bool-cases db.query_fails) [
  | inl fails ↦ rw fails q
  | inr works ↦
      let out =
        fan_out-Blank db now org event_type payload
          (active_subscriptions_for_event org event_type s.tables) s.tables e q.blank in
      rw works (record { idle = rw (q.idle, out.0) refl; blank = out.1 })
]

update-deliveries :
    (now org id : ℕ) (req : UpdateSubscriptionRequest) (t : Tables)
    → (update_subscription now org id req t).0.deliveries ≡ t.deliveries
unfolding update_subscription
update-deliveries now org id req t = elim (Bool-cases (is_empty req)) [
  | inl empty ↦ rw empty refl
  | inr given ↦ rw given refl
]

module _ (print : ℕ → String) where
  serve-Quiet : (c : Step) (s : Service) → DocumentedStep c → Quiet s → Quiet (serve print c s)
  unfolding serve create_subscription update_subscription delete_subscription
  serve-Quiet (subscribing id now org hash req) s known q = record {
    idle = q.idle;
    blank = q.blank;
  }
  serve-Quiet (updating now org id req) s known q = record {
    idle = q.idle;
    blank = subst (All Blank) (sym (update-deliveries now org id req s.tables)) q.blank;
  }
  serve-Quiet (deleting now org id) s known q = record { idle = q.idle; blank = q.blank }
  serve-Quiet (dispatching db now org event_type payload) s known q =
      launch-Quiet db now org event_type payload s known.0 q
  serve-Quiet (retrying db now) s known q = record {
    idle = rw (q.idle, retry-nothing db now s.tables known q.blank) refl;
    blank = q.blank;
  }
  serve-Quiet (ending now o) s known q = subst Quiet (sym (ap (ended print now o s) q.idle)) q

  -- Each step is one that the documentation allows.
  abbrev pub AllDocumented : List Step → Type 0
  AllDocumented cs = All DocumentedStep cs

  steps-Quiet :
      (cs : List Step) (s : Service)
      → All DocumentedStep cs
      → Quiet s
      → Quiet (serve_all print cs s)
  unfolding serve_all
  steps-Quiet [] s known q = q
  steps-Quiet (c ∷ cs) s known q =
      steps-Quiet cs (serve print c s) known.1 (serve-Quiet c s known.0 q)

abbrev pub idle_service : Service
idle_service = record { tables = record { subscriptions = []; deliveries = [] }; running = [] }

-- Where the driver does not scan NULL into a Go string, no attempt is ever started: from empty
-- tables, after any subscriptions, updates, deletions, dispatches, retry batches and ends of
-- attempts, no goroutine runs, and every delivery that was inserted still has no error message.
pub no_attempt :
    (print : ℕ → String) (cs : List Step)
    → All DocumentedStep cs
    → let s = serve_all print cs idle_service in (s.running ≡ []) × All Blank s.tables.deliveries
no_attempt print cs known =
    let q = steps-Quiet print cs idle_service known (record { idle = refl; blank = tt }) in
    (q.idle, q.blank)
