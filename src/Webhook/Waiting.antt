-- ===== src/Webhook/Waiting.antt =====
-- The worker of services/webhook/internal/worker/worker.go on the service's own store: it looks an
-- endpoint up under the empty organisation, which no endpoint has.
use obvious.Base.{
  ℕ, ◌≡◌, ◌≢◌, refl, ap, inl, inr, String, Bool, false, ◌&&◌, Bool-cases, Option, none, some, List,
  [], ◌∷◌, arith, str_eq, str_eq_iff, All, filter,
}
use obvious.Webhook.Store.{
  delivered, Endpoint, Delivery, Tables, Platform, get_endpoint, first, update_where, mark_failed,
}
use obvious.Webhook.Worker.{Trip, fetch_endpoint, attempt_change, deliver, deliver_each}

-- No endpoint has an empty organisation, and no delivery is delivered.
pub record Undelivered (t : Tables) : Type 0 where
  pub owned : All (λ (ep : Endpoint). ep.org_id ≢ "") t.endpoints
  pub waiting : All (λ (d : Delivery). d.status ≢ delivered) t.deliveries

module _ {ℓ} {A : Type ℓ} (P : A → Type 0) where
  pub All-filter : (test : A → Bool) (xs : List A) → All P xs → All P (filter test xs)
  All-filter test [] h = tt
  All-filter test (x ∷ xs) h = elim (Bool-cases (test x)) [
    | inl kept ↦ rw kept (h.0, All-filter test xs h.1)
    | inr dropped ↦ rw dropped (All-filter test xs h.1)
  ]

not-owned :
    (id : String) (eps : List Endpoint)
    → All (λ (ep : Endpoint). ep.org_id ≢ "") eps
    → filter (λ (ep : Endpoint). str_eq ep.id id && str_eq ep.org_id "") eps ≡ []
not-owned id [] h = refl
not-owned id (ep ∷ eps) h =
    let other : str_eq ep.org_id "" ≡ false = ground (arith, str_eq_iff ep.org_id "", h.0) in
    ground (arith, other, not-owned id eps h.1)

fetch-none :
    (trip : Trip) (id : String) (t : Tables) → Undelivered t → fetch_endpoint trip id t ≡ none
unfolding fetch_endpoint get_endpoint
fetch-none trip id t u = ground (arith, ap first (not-owned id t.endpoints u.owned))

module _ (p : Platform) where
  failed-waiting :
      (now code : ℕ) (body : String) (attempts : ℕ) (d : Delivery)
      → (mark_failed p now code body attempts d).status ≢ delivered
  unfolding mark_failed
  failed-waiting now code body attempts d e = ground arith

  update-waiting :
      (id : String) (change : Delivery → Delivery) (ds : List Delivery)
      → ((d : Delivery) → (change d).status ≢ delivered)
      → All (λ (d : Delivery). d.status ≢ delivered) ds
      → All (λ (d : Delivery). d.status ≢ delivered) (update_where id change ds)
  unfolding update_where
  update-waiting id change [] c h = tt
  update-waiting id change (d ∷ ds) c h = elim (Bool-cases (str_eq d.id id)) [
    | inl same ↦ rw same (c d, update-waiting id change ds c h.1)
    | inr other ↦ rw other (h.0, update-waiting id change ds c h.1)
  ]

  attempt-waiting :
      (now : ℕ) (trip : Trip) (ep : Option Endpoint) (attempts : ℕ)
      → ep ≡ none
      → (d : Delivery) → (attempt_change p now trip.outcome ep attempts d).status ≢ delivered
  unfolding attempt_change
  attempt-waiting now trip none attempts e d = failed-waiting now 0 "endpoint not found" attempts d
  attempt-waiting now trip (some ep) attempts e d = cc

  deliver-Undelivered :
      (now : ℕ) (trip : Trip) (d : Delivery) (t : Tables)
      → Undelivered t
      → Undelivered (deliver p now trip d t)
  unfolding deliver
  deliver-Undelivered now trip d t u = elim (Bool-cases trip.write_fails) [
    | inl fails ↦ rw fails u
    | inr writes ↦ rw writes (record {
      owned = u.owned;
      waiting =
          update-waiting d.id _ t.deliveries
            (attempt-waiting now trip (fetch_endpoint trip d.endpoint_id t) d.attempts
              (fetch-none trip d.endpoint_id t u))
            u.waiting;
    })
  ]

  pub each-Undelivered :
      (now : ℕ) (trips : String → Trip) (ds : List Delivery) (t : Tables)
      → Undelivered t
      → Undelivered (deliver_each p now trips ds t)
  unfolding deliver_each
  each-Undelivered now trips [] t u = u
  each-Undelivered now trips (d ∷ ds) t u =
      each-Undelivered now trips ds (deliver p now (trips d.id) d t)
        (deliver-Undelivered now (trips d.id) d t u)
