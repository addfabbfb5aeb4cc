-- ===== src/Webhook/Requests.antt =====
-- The handlers of services/webhook/internal/handler/handler.go give no endpoint an empty organisation
-- and deliver nothing.
use obvious.Base.{
  ◌+◌, ℕ, ◌≢◌, inl, inr, String, Bool, true, false, not, ◌&&◌, Bool-cases, Option, none, some, List,
  [], ◌∷◌, arith, str_eq, str_eq_iff, ◌||◌,
}
use obvious.Base.Json.{Json}
use obvious.Webhook.Store.{
  enabled_endpoints_for_event, Endpoint, Tables, create_endpoint, delete_endpoint, enqueue_delivery,
}
use obvious.Webhook.Handler.{
  Texts, Body, decoded, malformed, EndpointRequest, DispatchRequest, create_decoded,
  create_endpoint_call, delete_endpoint_call, enqueue_each, dispatch_event, with_secret, decoding,
  dispatch_encoded, dispatch_payload,
}
use obvious.Webhook.Waiting.{Undelivered, All-filter}

module _ (x : Texts) where
  enqueue-Undelivered :
      (fresh : String → String) (fails : String → Bool) (now : ℕ) (event_type payload : String)
      (eps : List Endpoint) (t : Tables) (n : ℕ)
      → Undelivered t
      → Undelivered (enqueue_each x fresh fails now event_type payload eps (t, n)).0
  unfolding enqueue_each enqueue_delivery
  enqueue-Undelivered fresh fails now event_type payload [] t n u = u
  enqueue-Undelivered fresh fails now event_type payload (ep ∷ eps) t n u =
      elim (Bool-cases (fails ep.id)) [
        | inl lost ↦
            rw (enqueue_each, lost)
              (enqueue-Undelivered fresh fails now event_type payload eps t n u)
        | inr kept ↦
            rw (enqueue_each, kept)
              (enqueue-Undelivered fresh fails now event_type payload eps _ (n + 1)
                (record { owned = u.owned; waiting = ((λ e. ground arith), u.waiting) }))
      ]

  encoded-Undelivered :
      (fresh : String → String) (fails : String → Bool) (query_fails : Bool) (now : ℕ)
      (req : DispatchRequest) (t : Tables) (payload : Option String)
      → Undelivered t
      → Undelivered (dispatch_encoded x fresh fails query_fails now req t payload).0
  encoded-Undelivered fresh fails query_fails now req t none u = u
  encoded-Undelivered fresh fails true now req t (some payload) u = u
  encoded-Undelivered fresh fails false now req t (some payload) u =
      enqueue-Undelivered fresh fails now req.event_type payload
        (enabled_endpoints_for_event req.org_id req.event_type t) t 0 u

  payload-Undelivered :
      (fresh : String → String) (fails : String → Bool) (query_fails : Bool) (now : ℕ)
      (req : DispatchRequest) (t : Tables) (payload : Option Json)
      → Undelivered t
      → Undelivered (dispatch_payload x fresh fails query_fails now req t payload).0
  payload-Undelivered fresh fails query_fails now req t none u = u
  payload-Undelivered fresh fails query_fails now req t (some payload) u =
      encoded-Undelivered fresh fails query_fails now req t (x.marshal payload) u

  pub dispatch-Undelivered :
      (fresh : String → String) (fails : String → Bool) (query_fails : Bool) (now : ℕ)
      (body : Body DispatchRequest) (t : Tables)
      → Undelivered t
      → Undelivered (dispatch_event x fresh fails query_fails now body t).0
  unfolding dispatch_event
  dispatch-Undelivered fresh fails query_fails now (malformed problem) t u = u
  dispatch-Undelivered fresh fails query_fails now (decoded req) t u =
      elim (Bool-cases (str_eq req.org_id "" || str_eq req.event_type "")) [
        | inl missing ↦ rw missing u
        | inr given ↦ rw given (payload-Undelivered fresh fails query_fails now req t req.payload u)
      ]

  with_secret-Undelivered :
      (id : String) (now : ℕ) (org : String) (req : EndpointRequest) (fails : Bool) (t : Tables)
      (secret : Option String)
      → org ≢ ""
      → Undelivered t
      → Undelivered (with_secret x id now org req fails t secret).0
  with_secret-Undelivered id now org req fails t none o u = u
  with_secret-Undelivered id now org req true t (some s) o u = u
  with_secret-Undelivered id now org req false t (some s) o u =
      unfold create_endpoint in record { owned = (o, u.owned); waiting = u.waiting }

  decoded-Undelivered :
      (id : String) (now : ℕ) (secret : Option String) (fails : Bool) (org : String)
      (req : EndpointRequest) (t : Tables)
      → org ≢ ""
      → Undelivered t
      → Undelivered (create_decoded x id now secret fails org req t).0
  unfolding create_decoded
  decoded-Undelivered id now secret fails org req t o u = elim (Bool-cases (str_eq req.url "")) [
    | inl missing ↦ rw missing u
    | inr given ↦
        rw given
          (elim (Bool-cases
            (not (x.has_prefix req.url "http://") && not (x.has_prefix req.url "https://"))) [
              | inl bad ↦ rw bad u
              | inr good ↦ rw good (with_secret-Undelivered id now org req fails t secret o u)
            ])
  ]

  decoding-Undelivered :
      (id : String) (now : ℕ) (secret : Option String) (fails : Bool) (org : String)
      (body : Body EndpointRequest) (t : Tables)
      → org ≢ ""
      → Undelivered t
      → Undelivered (decoding x id now secret fails org body t).0
  decoding-Undelivered id now secret fails org (malformed problem) t o u = u
  decoding-Undelivered id now secret fails org (decoded req) t o u =
      decoded-Undelivered id now secret fails org req t o u

  pub create-Undelivered :
      (id : String) (now : ℕ) (secret : Option String) (fails : Bool) (org : String)
      (body : Body EndpointRequest) (t : Tables)
      → Undelivered t
      → Undelivered (create_endpoint_call x id now secret fails org body t).0
  unfolding create_endpoint_call
  create-Undelivered id now secret fails org body t u = elim (Bool-cases (str_eq org "")) [
    | inl missing ↦ rw missing u
    | inr given ↦ rw given (
        decoding-Undelivered id now secret fails org body t
          (λ e. ground (arith, given, e, str_eq_iff org "")) u)
  ]

  pub delete-Undelivered :
      (fails : Bool) (org id : String) (t : Tables)
      → Undelivered t
      → Undelivered (delete_endpoint_call x fails org id t).0
  unfolding delete_endpoint_call delete_endpoint
  delete-Undelivered fails org id t u = elim (Bool-cases (str_eq org "")) [
    | inl missing ↦ rw missing u
    | inr given ↦ rw given (elim (Bool-cases fails) [
      | inl failing ↦ rw failing u
      | inr working ↦ rw working (record {
        owned =
            All-filter (λ (ep : Endpoint). ep.org_id ≢ "")
              (λ ep. not (str_eq ep.id id && str_eq ep.org_id org)) t.endpoints u.owned;
        waiting = u.waiting;
      })
    ])
  ]
