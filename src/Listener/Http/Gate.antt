-- ===== src/Listener/Http/Gate.antt =====
-- Who is let in, and a GET request that is cut off.
use n2kafka.Prelude.{
  ℕ, ◌≡◌, refl, ◌∙◌, Bool, true, length, List, Option-cases, false, none, some, [], ◌∷◌, ◌⊎◌,
  if◌then◌else◌, Bytes, Bool-cases, inl, inr, codes, equal_refl, take,
}
use n2kafka.Prelude.Run.{Run, ret, fault}
use n2kafka.Listener.Api.{Listener}
use n2kafka.Listener.Http.Auth.{http_authenticate}
use n2kafka.Listener.Http.{
  null, Request, send_buffered_response, send_http_unauthorized_basic, Mhd, HttpConfig,
  basic_auth_ok, handle_http_post_init, handle_post, handle_get, handle_request, request_completed,
}

module _ {W S O Z : Type 0} (mhd : Mhd Z) (config : HttpConfig) (listener : Listener W S O)
    (fuel : ℕ) (url : Bytes) (w : W) where
  -- A first call of a request.
  abbrev fresh : Request W S Z
  fresh = record { ptr = null; world = w; queued = [] }

  refused_lem :
      (htpasswd : Bytes)
      → config.htpasswd ≡ some htpasswd
      → (mhd.basic_auth ≡ none)
        ⊎ ((user : Bytes) × (password : Bytes) × (mhd.basic_auth ≡ some (user, password))
            × (http_authenticate fuel config.ndebug user password htpasswd ≡ ret false))
      → basic_auth_ok mhd config listener fuel ≡ ret false
  unfolding basic_auth_ok
  refused_lem htpasswd db (inl anonymous) = rw (basic_auth_ok, db, anonymous) refl
  refused_lem htpasswd db (inr (user, password, given, refused)) =
      rw (basic_auth_ok, db, given, refused) refl

  -- The client has an address, and a certificate without error where one is asked for.
  abbrev pub HasAddress : Type 0
  HasAddress = (client : Bytes) × (mhd.client_address ≡ some client)

  abbrev pub MayEnter : Type 0
  MayEnter = HasAddress × ((if config.client_tls_ca then mhd.client_cert_error else none) ≡ none)

  -- The ways a first call is refused: what is queued, and what is returned to MHD.
  pub data Refusal : List (ℕ × Bytes) → Bool → Type 0 where
    no_address : mhd.client_address ≡ none → Refusal [] false
    bad_cert :
        (error : Bytes)
        → config.client_tls_ca ≡ true
        → mhd.client_cert_error ≡ some error
        → HasAddress
        → mhd.create_response ≡ true
        → mhd.queue_response ≡ true
        → Refusal ((403, take (length error) error) ∷ []) true
    bad_cert_unanswered :
        (error : Bytes)
        → config.client_tls_ca ≡ true
        → mhd.client_cert_error ≡ some error
        → HasAddress
        → (mhd.create_response ≡ false) ⊎ (mhd.queue_response ≡ false)
        → Refusal [] true
    unauthorized : MayEnter → mhd.queue_response ≡ true → Refusal ((401, []) ∷ []) true
    unanswered : MayEnter → mhd.queue_response ≡ false → Refusal [] false

  -- A call that leaves no connection and no decoder session, and queues a refusal or nothing.
  pub record Refused (m : Run (Request W S Z × Bool)) : Type 0 where
    pub queued : List (ℕ × Bytes)
    pub ok : Bool
    pub returns : m ≡ ret (record { ptr = null; world = w; queued = queued }, ok)
    pub refusal : Refusal queued ok

  Refused-same : {m n : Run (Request W S Z × Bool)} → m ≡ n → Refused n → Refused m
  Refused-same e r = record {
    queued = r.queued;
    ok = r.ok;
    returns = e ∙ r.returns;
    refusal = r.refusal;
  }

  cert-Refused :
      (error : Bytes)
      → config.client_tls_ca ≡ true
      → mhd.client_cert_error ≡ some error
      → HasAddress
      → Refused (
          ret ((send_buffered_response mhd config listener fresh (length error) error 403).0, true))
  cert-Refused error asked bad here = elim (Bool-cases mhd.create_response) [
    | inr none_made ↦ record {
      queued = [];
      ok = true;
      returns = rw none_made refl;
      refusal = bad_cert_unanswered error asked bad here (inl none_made);
    }
    | inl made ↦ elim (Bool-cases mhd.queue_response) [
      | inr unqueued ↦ record {
        queued = [];
        ok = true;
        returns = rw (made, unqueued) refl;
        refusal = bad_cert_unanswered error asked bad here (inr unqueued);
      }
      | inl put ↦ record {
        queued = (403, take (length error) error) ∷ [];
        ok = true;
        returns = rw (made, put) refl;
        refusal = bad_cert error asked bad here made put;
      }
    ]
  ]

  unauthorized-Refused :
      MayEnter → Refused (ret (send_http_unauthorized_basic mhd config listener fresh))
  unauthorized-Refused enters = elim (Bool-cases mhd.queue_response) [
    | inr unqueued ↦ record {
      queued = [];
      ok = false;
      returns = rw unqueued refl;
      refusal = unanswered enters unqueued;
    }
    | inl put ↦ record {
      queued = (401, []) ∷ [];
      ok = true;
      returns = rw put refl;
      refusal = unauthorized enters put;
    }
  ]

  -- With a password database, a POST request without credentials, or with credentials that
  -- http_authenticate refuses: whatever the client's address, its certificate and the responses that can be
  -- made, the first call returns, leaves no connection and the decoders' world as it was, and what is queued
  -- is nothing for a client without an address, else 403 with the error of a certificate that is asked for and
  -- bad, or else 401, where MHD makes and queues the response.
  pub handle_request-unauthorized :
      (htpasswd upload : Bytes)
      → config.htpasswd ≡ some htpasswd
      → (mhd.basic_auth ≡ none)
        ⊎ ((user : Bytes) × (password : Bytes) × (mhd.basic_auth ≡ some (user, password))
            × (http_authenticate fuel config.ndebug user password htpasswd ≡ ret false))
      → Refused (handle_request mhd config listener fuel fresh url (codes "POST") upload)
  unfolding handle_request handle_post handle_http_post_init
  handle_request-unauthorized htpasswd upload db why = elim (Option-cases mhd.client_address) [
    | inl no_client ↦ record {
      queued = [];
      ok = false;
      returns = rw (equal_refl (codes "POST"), handle_http_post_init, no_client) refl;
      refusal = no_address no_client;
    }
    | inr (client, address) ↦
        elim (Option-cases (if config.client_tls_ca then mhd.client_cert_error else none)) [
          | inl fine ↦
              Refused-same
                (rw
                  (
                    equal_refl (codes "POST"),
                    handle_http_post_init,
                    address,
                    fine,
                    refused_lem htpasswd db why,
                  )
                  refl)
                (unauthorized-Refused ((client, address), fine))
          | inr (error, bad) ↦ elim (Bool-cases config.client_tls_ca) [
            | inr unasked ↦ absurd (cc (rw unasked at bad))
            | inl asked ↦
                Refused-same
                  (rw (equal_refl (codes "POST"), handle_http_post_init, address, bad) refl)
                  (cert-Refused error asked (rw asked at bad) (client, address))
          ]
        ]
  ]

  -- A GET request that ends between its two calls: its mark is taken for a connection, a fault.
  pub handle_get-interrupted :
      request_completed mhd config listener
        (handle_get mhd config listener fresh url (codes "GET") []).0
      ≡ fault
  unfolding handle_get request_completed
  handle_get-interrupted = refl
