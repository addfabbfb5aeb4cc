-- ===== src/Webhook/Undelivered.antt =====
-- The whole of services/webhook: its handlers and the polls of its worker, one after another.
use obvious.Base.{ℕ, ◌≢◌, String, Bool, Option, List, [], ◌∷◌, All}
use obvious.Webhook.Store.{due_pending_deliveries, delivered, Delivery, Tables, Platform}
use obvious.Webhook.Worker.{Trip, process_batch, batch, batch_size}
use obvious.Webhook.Handler.{
  Texts, Body, EndpointRequest, DispatchRequest, create_endpoint_call, delete_endpoint_call,
  dispatch_event,
}
use obvious.Webhook.Waiting.{Undelivered, each-Undelivered}
use obvious.Webhook.Requests.{dispatch-Undelivered, create-Undelivered, delete-Undelivered}

-- What the service meets, with what the header, the database and the network give.
pub data Call : Type 0 where
  creating : String → ℕ → Option String → Bool → String → Body EndpointRequest → Call
  deleting : Bool → String → String → Call
  dispatching : (String → String) → (String → Bool) → Bool → ℕ → Body DispatchRequest → Call
  polling : ℕ → Bool → (String → Trip) → Call

module _ (p : Platform) (x : Texts) where
  unfoldable pub serve : Call → Tables → Tables
  serve (creating id now secret fails org body) t =
      (create_endpoint_call x id now secret fails org body t).0
  serve (deleting fails org id) t = (delete_endpoint_call x fails org id t).0
  serve (dispatching fresh fails query_fails now body) t =
      (dispatch_event x fresh fails query_fails now body t).0
  serve (polling now query_fails trips) t = process_batch p now query_fails trips t

  unfoldable pub serve_all : List Call → Tables → Tables
  serve_all [] t = t
  serve_all (c ∷ cs) t = serve_all cs (serve c t)

  serve-Undelivered : (c : Call) (t : Tables) → Undelivered t → Undelivered (serve c t)
  unfolding serve process_batch
  serve-Undelivered (creating id now secret fails org body) t u =
      create-Undelivered x id now secret fails org body t u
  serve-Undelivered (deleting fails org id) t u = delete-Undelivered x fails org id t u
  serve-Undelivered (dispatching fresh fails query_fails now body) t u =
      dispatch-Undelivered x fresh fails query_fails now body t u
  serve-Undelivered (polling now query_fails trips) t u =
      each-Undelivered p now trips (batch p query_fails (due_pending_deliveries p now batch_size t))
        t u

  calls-Undelivered : (cs : List Call) (t : Tables) → Undelivered t → Undelivered (serve_all cs t)
  unfolding serve_all
  calls-Undelivered [] t u = u
  calls-Undelivered (c ∷ cs) t u = calls-Undelivered cs (serve c t) (serve-Undelivered c t u)

-- Whatever calls and polls the service meets from empty tables on, no delivery is ever delivered.
pub none_delivered :
    (p : Platform) (x : Texts) (cs : List Call)
    → All
        (λ (d : Delivery). d.status ≢ delivered)
        (serve_all p x cs (record { endpoints = []; deliveries = [] })).deliveries
none_delivered p x cs =
    (calls-Undelivered p x cs (record { endpoints = []; deliveries = [] })
      (record { owned = tt; waiting = tt })).waiting
