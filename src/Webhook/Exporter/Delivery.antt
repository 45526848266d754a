-- ===== src/Webhook/Exporter/Delivery.antt =====
-- How deliveries of pkg/webhook/exporter.go end, and what they post and wait on the way.
use llm_slo_e_bpf_toolkit.Prelude.{
  ℕ, zero, suc, ◌+◌, ◌-◌, ◌*◌, ◌^◌, ◌≤◌, ◌<◌, ◌≡◌, refl, ap, ◌∙◌, Bool, true, false, String, str_eq,
  str_eq_refl, List, [], ◌∷◌, Option, none, some, All, Bool-cases, inl, inr, arith,
}
use llm_slo_e_bpf_toolkit.Prelude.Int.{ℤ, pos_part}
use llm_slo_e_bpf_toolkit.Prelude.Float64.{Float64}
use llm_slo_e_bpf_toolkit.Prelude.Time.{second}
use llm_slo_e_bpf_toolkit.Schema.{IncidentAttribution}
use llm_slo_e_bpf_toolkit.Webhook.Payloads.{Formats}
use llm_slo_e_bpf_toolkit.Webhook.Exporter.{
  Exporter, Message, Encoded, encoded, Request, Response, PostError, create_request, http_post,
  drain_body, server_error, client_error, SendResult, delivered, refused, exhausted, Action, sleep,
  post, compute_hmac, verify_hmac, request_of, post_error, backoff, pause, conclude, try_from,
  build_payload, deliver, send,
}
use llm_slo_e_bpf_toolkit.Webhook.Exporter.Pauses.{
  posts, slept, pow_pos, slept-pause, posts-pause, waited, waited_next,
}

abbrev pub is_retryable : Option PostError → Bool
is_retryable none = false
is_retryable (some (client_error code)) = false
is_retryable (some (create_request e)) = true
is_retryable (some (http_post e)) = true
is_retryable (some (drain_body e)) = true
is_retryable (some (server_error code)) = true

-- The result of an attempt after which none follows.
abbrev pub outcome : Option PostError → SendResult
outcome none = delivered
outcome (some e) = refused e

module _ (answer : ℕ → Request → Response) (request : Request) where
  -- From attempt `a` on, `k` attempts fail in a way that is retried, and the next one ends with `r`.
  abbrev pub EndsAt : ℕ → ℕ → Option PostError → Type 0
  EndsAt a zero r = post_error (answer a request) ≡ r
  EndsAt a (suc k) r = (is_retryable (post_error (answer a request)) ≡ true) × EndsAt (a + 1) k r

  conclude-final :
      (r : Option PostError) (later : SendResult × List Action)
      → is_retryable r ≡ false
      → conclude r later ≡ (outcome r, [])
  conclude-final none later h = refl
  conclude-final (some (client_error code)) later h = refl
  conclude-final (some (create_request e)) later h = cc
  conclude-final (some (http_post e)) later h = cc
  conclude-final (some (drain_body e)) later h = cc
  conclude-final (some (server_error code)) later h = cc

  conclude-retry :
      (r : Option PostError) (later : SendResult × List Action)
      → is_retryable r ≡ true
      → conclude r later ≡ later
  conclude-retry none later h = cc
  conclude-retry (some (client_error code)) later h = cc
  conclude-retry (some (create_request e)) later h = refl
  conclude-retry (some (http_post e)) later h = refl
  conclude-retry (some (drain_body e)) later h = refl
  conclude-retry (some (server_error code)) later h = refl

  conclude-All :
      (P : Action → Type 0) (r : Option PostError) (later : SendResult × List Action)
      → All P later.1
      → All P (conclude r later).1
  conclude-All P none later ps = tt
  conclude-All P (some (client_error code)) later ps = tt
  conclude-All P (some (create_request e)) later ps = ps
  conclude-All P (some (http_post e)) later ps = ps
  conclude-All P (some (drain_body e)) later ps = ps
  conclude-All P (some (server_error code)) later ps = ps

  try_from-ends :
      (max_retry : ℤ) (a k n : ℕ) (last r : Option PostError)
      → k < n
      → a + k ≤ 34
      → is_retryable r ≡ false
      → EndsAt a k r
      → let (result, log) = try_from answer max_retry request a n last in
        (result ≡ outcome r)
        × (posts log ≡ suc k)
        × (slept log + waited a * second ≡ (2 ^ (a + k) - 1) * second)
  unfolding try_from
  try_from-ends max_retry a k zero last r k<n small final ends = absurd (omega (arith, k<n))
  try_from-ends max_retry a zero (suc n) last r k<n small final ends =
      rw (ends, conclude-final r (try_from answer max_retry request (a + 1) n r) final)
        (
          refl,
          posts-pause a (post request ∷ []),
          omega (
            arith,
            slept-pause a (post request ∷ []) (omega arith),
            ap (λ i. (2 ^ i - 1) * second) {x = a} {y = a + 0} (omega arith),
          ),
        )
  try_from-ends max_retry a (suc k) (suc n) last r k<n small final (retried, ends) =
      let error = post_error (answer a request) in
      let later = try_from answer max_retry request (a + 1) n error in
      let (result, posted, total) =
        try_from-ends max_retry (a + 1) k n error r (omega arith) (omega arith) final ends in
      rw (conclude-retry error later retried) (
        result,
        posts-pause a (post request ∷ later.1) ∙ ap suc posted,
        omega (
          arith,
          slept-pause a (post request ∷ later.1) (omega arith),
          waited_next a,
          total,
          ap (λ i. (2 ^ i - 1) * second) {x = a + 1 + k} {y = a + suc k} (omega arith),
          pow_pos a,
        ),
      )

  -- From attempt `a` on, `n` attempts fail in a way that is retried, the last of them with `r`.
  abbrev pub Fails : ℕ → ℕ → Option PostError → Option PostError → Type 0
  Fails a zero last r = last ≡ r
  Fails a (suc n) last r =
      let error = post_error (answer a request) in
      (is_retryable error ≡ true) × Fails (a + 1) n error r

  try_from-Fails :
      (max_retry : ℤ) (a n : ℕ) (last r : Option PostError)
      → Fails a n last r
      → let (result, log) = try_from answer max_retry request a n last in
        (result ≡ exhausted max_retry r) × (posts log ≡ n)
  unfolding try_from
  try_from-Fails max_retry a zero last r fails = (ap (exhausted max_retry) fails, refl)
  try_from-Fails max_retry a (suc n) last r (retried, fails) =
      let error = post_error (answer a request) in
      let later = try_from answer max_retry request (a + 1) n error in
      let (result, posted) = try_from-Fails max_retry (a + 1) n error r fails in
      rw (conclude-retry error later retried)
        (result, posts-pause a (post request ∷ later.1) ∙ ap suc posted)

  -- Whatever is posted satisfies a predicate that the request satisfies.
  All-pause :
      (P : Action → Type 0) (a : ℕ) (log : List Action)
      → ((t : ℤ) → P (sleep t))
      → All P log
      → All P (pause a log)
  All-pause P zero log s ps = ps
  All-pause P (suc n) log s ps = (s (backoff (suc n)), ps)

  try_from-All :
      (P : Action → Type 0) (max_retry : ℤ) (a n : ℕ) (last : Option PostError)
      → ((t : ℤ) → P (sleep t))
      → P (post request)
      → All P (try_from answer max_retry request a n last).1
  unfolding try_from
  try_from-All P max_retry a zero last s p = tt
  try_from-All P max_retry a (suc n) last s p =
      let error = post_error (answer a request) in
      let later = try_from answer max_retry request (a + 1) n error in
      All-pause P a (post request ∷ (conclude error later).1) s
        (p, conclude-All P error later (try_from-All P max_retry (a + 1) n error s p))

module _ (digest : String → String → String) where
  -- A receiver that knows the secret accepts the signature; without a secret there is none.
  abbrev pub accepts : String → String → Option String → Bool
  accepts secret body none = str_eq secret ""
  accepts secret body (some sig) = verify_hmac digest body secret sig

  -- A post carries the payload, and its receiver accepts it.
  abbrev pub IsSigned : String → String → Action → Type 0
  IsSigned secret payload (sleep t) = Unit
  IsSigned secret payload (post r) = (r.body ≡ payload) × (accepts secret r.body r.signature ≡ true)

  request_of-accepts :
      (e : Exporter) (payload : String)
      → (let r = request_of digest e payload in accepts e.secret r.body r.signature ≡ true)
  unfolding request_of verify_hmac
  request_of-accepts e payload = elim (Bool-cases (str_eq e.secret "")) [
    | inl bare ↦ rw bare bare
    | inr secret ↦ rw secret (str_eq_refl (compute_hmac digest payload e.secret))
  ]

  request_of-body : (e : Exporter) (payload : String) → (request_of digest e payload).body ≡ payload
  unfolding request_of
  request_of-body e payload = refl

module _ {F : Type 0} ⦃d : Float64 F⦄ (answer : ℕ → Request → Response) (fmt : Formats F)
    (encode : Message F → Encoded) (digest : String → String → String) (e : Exporter)
    (attr : IncidentAttribution F) (payload : String)
    (built : build_payload fmt encode e attr ≡ encoded payload) where
  send_lem :
      send answer fmt encode digest e attr
      ≡ try_from answer e.max_retry (request_of digest e payload) 0 (pos_part e.max_retry) none
  unfolding send deliver
  send_lem = rw built

  -- If the payload can be built and `k` attempts fail in a way that is retried before one, still
  -- within the limit and at most the 35th, that succeeds or is refused, then `Send` returns its result
  -- after `k + 1` posts and `2^k - 1` seconds of sleep, and each post carries the payload and
  -- a signature that `VerifyHMAC` accepts, or none if there is no secret.
  pub send-ends :
      (k : ℕ) (r : Option PostError)
      → k < pos_part e.max_retry
      → k ≤ 34
      → is_retryable r ≡ false
      → EndsAt answer (request_of digest e payload) 0 k r
      → let (result, log) = send answer fmt encode digest e attr in
        (result ≡ outcome r)
        × (posts log ≡ suc k)
        × (slept log ≡ (2 ^ k - 1) * second)
        × All (IsSigned digest e.secret payload) log
  send-ends k r limit small final ends =
      let request = request_of digest e payload in
      let (result, posted, total) =
        try_from-ends answer request e.max_retry 0 k (pos_part e.max_retry) none r limit
          (omega arith) final ends in
      rw send_lem (
        result,
        posted,
        omega (arith, total, ap (λ i. (2 ^ i - 1) * second) {x = 0 + k} {y = k} (omega arith)),
        try_from-All answer request (IsSigned digest e.secret payload) e.max_retry 0
            (pos_part e.max_retry) none (λ t. tt)
            (request_of-body digest e payload, request_of-accepts digest e payload),
      )

  -- If the payload can be built and every attempt fails in a way that is retried, `Send` reports the
  -- failure of the last one after as many posts as the limit says.
  pub send-exhausts :
      (r : Option PostError)
      → Fails answer (request_of digest e payload) 0 (pos_part e.max_retry) none r
      → let (result, log) = send answer fmt encode digest e attr in
        (result ≡ exhausted e.max_retry r) × (posts log ≡ pos_part e.max_retry)
  send-exhausts r fails = rw send_lem (
      try_from-Fails answer (request_of digest e payload) e.max_retry 0 (pos_part e.max_retry) none
        r fails)
