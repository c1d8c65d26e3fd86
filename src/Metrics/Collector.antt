-- ===== src/Metrics/Collector.antt =====
-- internal/broker/metrics/collector.go and metrics.go: scraping the metrics of the process, sending
-- them to the proxy of the node, the loop that does so, and the names that samples are recorded with.
use Prim.Native.String.{◌++◌ as cat}
use Prim.Native.Nat.{◌/◌}
use edge_q.Prelude.{
  ℕ, String, ◌≡◌, refl, sym, ap, ◌∙◌, ◌⊎◌, inl, inr, ◌==◌, Option, none, some, List, [], ◌∷◌, ◌++◌,
  eqb, eqb_iff, Bool-cases, if◌then◌else◌,
}
use edge_q.Prelude.Int.{ℤ}
use edge_q.Outcome.{Outcome, ok, ok_inj, ◌>>=◌, >>=-eq-ok}
use edge_q.Maps.{Map}
use edge_q.Metrics.{LabelNames, Runtime, Floats, MetricFamily, WriteRequest}
use edge_q.Metrics.Request.{metric_families_to_write_request}

unfoldable pub get_edge_proxy_address : (String → String) → String
get_edge_proxy_address getenv =
    let port : String = getenv "METRICS_PROXY_PORT" in
    cat "http://" (
      cat (getenv "NODE_IP") (cat ":" (cat (if port == "" then "19101" else port) "/api/v1/write")))

pub record Post : Type 0 where
  pub url : String
  pub body : String

-- What a call of a library gives: an error, or a value.
abbrev pub Answer : Type 0 → Type 0
Answer A = String ⊎ A

-- The names that the samples of metrics.go are recorded with.
pub record PodNames : Type 0 where
  pub pod : String
  pub container : String
  pub request_sleep_second : ℤ

abbrev pub or_unknown : String → String
or_unknown name = if name == "" then "unknown" else name

-- `atoi` is strconv.Atoi.
unfoldable pub init : (String → String) → (String → Option ℤ) → ℤ → PodNames
init getenv atoi request_sleep_second = record {
  pod = or_unknown (getenv "POD_NAME");
  container = or_unknown (getenv "CONTAINER_NAME");
  request_sleep_second = elim (atoi (getenv "REQUEST_SLEEP_SECOND")) [
    | none ↦ request_sleep_second
    | some sleep_second ↦ sleep_second
  ];
}

Answer-cases : {A : Type 0} (o : Answer A) → ((e : String) × (o ≡ inl e)) ⊎ ((a : A) × (o ≡ inr a))
Answer-cases (inl e) = inl (e, refl)
Answer-cases (inr a) = inr (a, refl)

failed :
    {posts others : List Post} {e : String}
    → ¬ (◌≡◌ {A = List Post × Option String} (posts, some e) (others, none))
failed h = absurd (some_not_none (ap (λ (x : List Post × Option String). x.1) h))
  where
    some_not_none : {e : String} → ¬ (some e ≡ none)
    some_not_none h = cc

module _ (r : Runtime) (n : LabelNames) (fs : Floats) where
  -- The libraries during one scrape: the text of the metrics and its parse, which gives the families
  -- and the order in which they are visited, the encoding of a request, and the answer to a post.
  pub record Network : Type 0 where
    pub get : String → Answer String
    pub text_to_metric_families : String → Answer (List String × Map (MetricFamily fs))
    pub clock : ℕ → ℤ
    pub marshal : WriteRequest fs → Answer String
    pub encode : String → String
    pub new_request : String → String → Answer Post
    pub status : Post → Answer ℕ
    pub itoa : ℕ → String

  -- The posts that were sent, and the error.
  unfoldable pub send_remote_write_request :
      Network → String → WriteRequest fs → List Post × Option String
  send_remote_write_request net url req = elim (net.marshal req) [
    | inl e ↦ ([], some (cat "failed to marshal request: " e))
    | inr encoded ↦ elim (net.new_request url (net.encode encoded)) [
      | inl e ↦ ([], some (cat "failed to create HTTP request: " e))
      | inr post ↦ elim (net.status post) [
        | inl e ↦ (post ∷ [], some (cat "failed to send remote write request: " e))
        | inr status ↦ (
          post ∷ [],
          if eqb (status / 100) 2
              then none
              else some (cat "unexpected status code: " (net.itoa status)),
        )
      ]
    ]
  ]

  unfoldable pub metric_text_to_write_request :
      Network → String → Map String → Outcome String (Answer (WriteRequest fs))
  metric_text_to_write_request net input labels = elim (net.text_to_metric_families input) [
    | inl e ↦ ok (inl e)
    | inr (order, mf) ↦ metric_families_to_write_request r n fs net.clock order mf labels >>= λ res.
        ok (elim res.1 [ none ↦ inr res.0 | some e ↦ inl e ])
  ]

  -- The rest of a scrape, after the text was translated.
  unfoldable pub send_answer :
      (String → String)
      → Network
      → Answer (WriteRequest fs)
      → Outcome String (List Post × Option String)
  send_answer getenv net (inl e) = ok ([], some e)
  send_answer getenv net (inr wreq) =
      ok (send_remote_write_request net (get_edge_proxy_address getenv) wreq)

  unfoldable pub scrape :
      (String → String) → String → Network → Outcome String (List Post × Option String)
  scrape getenv metric_addr net = elim (net.get (cat "http://" (cat metric_addr "/metrics"))) [
    | inl e ↦ ok ([], some e)
    | inr body ↦ metric_text_to_write_request net body [] >>= send_answer getenv net
  ]

  -- What `select` finds ready: the context is done, the collector is stopped, or the interval is over.
  pub data Event : Type 0 where
    done stop : Event
    after : Network → Event

  -- The posts, and what the loop returns; none where it still waits.
  unfoldable pub run :
      (String → String)
      → String
      → List Event
      → Option String
      → Outcome String (List Post × Option (Option String))
  run getenv metric_addr [] failure = ok ([], none)
  run getenv metric_addr (done ∷ events) failure = ok ([], some failure)
  run getenv metric_addr (stop ∷ events) failure = ok ([], some failure)
  run getenv metric_addr (after net ∷ events) failure = scrape getenv metric_addr net >>= λ res.
      run getenv metric_addr events res.1 >>= λ rest. ok (res.0 ++ rest.0, rest.1)

  -- The request was encoded and posted, and the answer has a status of success.
  pub record Accepted (net : Network) (url : String) (req : WriteRequest fs) (posts : List Post)
      : Type 0 where
    pub encoded : String
    pub post : Post
    pub status : ℕ
    pub marshalled : net.marshal req ≡ inr encoded
    pub made : net.new_request url (net.encode encoded) ≡ inr post
    pub posted : posts ≡ post ∷ []
    pub answered : net.status post ≡ inr status
    pub success : status / 100 ≡ 2

  send_remote_write_request-Accepted :
      (net : Network) (url : String) (req : WriteRequest fs) (posts : List Post)
      → send_remote_write_request net url req ≡ (posts, none)
      → Accepted net url req posts
  unfolding send_remote_write_request
  send_remote_write_request-Accepted net url req posts h = elim (Answer-cases (net.marshal req)) [
    | inl (e, m) ↦ absurd (failed (rw (send_remote_write_request, m) at h))
    | inr (encoded, m) ↦ elim (Answer-cases (net.new_request url (net.encode encoded))) [
      | inl (e, q) ↦ absurd (failed (rw (send_remote_write_request, m, q) at h))
      | inr (post, q) ↦ elim (Answer-cases (net.status post)) [
        | inl (e, a) ↦ absurd (failed (rw (send_remote_write_request, m, q, a) at h))
        | inr (status, a) ↦ elim (Bool-cases (eqb (status / 100) 2)) [
          | inl two ↦ record {
            encoded = encoded;
            post = post;
            status = status;
            marshalled = m;
            made = q;
            posted = sym (
                ap (λ (x : List Post × Option String). x.0)
                  (rw (send_remote_write_request, m, q, a, two) at h));
            answered = a;
            success = (eqb_iff (status / 100) 2).0 two;
          }
          | inr other ↦ absurd (failed (rw (send_remote_write_request, m, q, a, other) at h))
        ]
      ]
    ]
  ]

  unanswered :
      (getenv : String → String) (net : Network) (wr : WriteRequest fs) (failure : Option String)
      (answer : Answer (WriteRequest fs)) (posts : List Post)
      → ◌≡◌ {A = Answer (WriteRequest fs)} (elim failure [ none ↦ inr wr | some e ↦ inl e ]) answer
      → send_answer getenv net answer ≡ ok (posts, none)
      → (failure ≡ none) × Accepted net (get_edge_proxy_address getenv) wr posts
  unfolding send_answer
  unanswered getenv net wr none answer posts e sent = (
    refl,
    send_remote_write_request-Accepted net _ wr posts
        (ok_inj (ap (send_answer getenv net) e ∙ sent)),
  )
  unanswered getenv net wr (some e) answer posts f sent =
      absurd (failed (ok_inj (ap (send_answer getenv net) f ∙ sent)))

  -- A scrape without an error has read, translated and posted all the metrics.
  pub scrape-Accepted :
      (getenv : String → String) (metric_addr : String) (net : Network) (posts : List Post)
      → scrape getenv metric_addr net ≡ ok (posts, none)
      → (body : String) × (order : List String) × (mf : Map (MetricFamily fs)) × (wr : WriteRequest
          fs)
        × (net.get (cat "http://" (cat metric_addr "/metrics")) ≡ inr body)
        × (net.text_to_metric_families body ≡ inr (order, mf))
        × (metric_families_to_write_request r n fs net.clock order mf [] ≡ ok (wr, none))
        × Accepted net (get_edge_proxy_address getenv) wr posts
  unfolding scrape metric_text_to_write_request send_answer
  scrape-Accepted getenv metric_addr net posts h =
      elim (Answer-cases (net.get (cat "http://" (cat metric_addr "/metrics")))) [
        | inl (e, g) ↦ absurd (failed (ok_inj (rw (scrape, g) at h)))
        | inr (body, g) ↦ elim (Answer-cases (net.text_to_metric_families body)) [
          | inl (e, p) ↦
              absurd (failed (ok_inj (rw (scrape, g, metric_text_to_write_request, p) at h)))
          | inr ((order, mf), p) ↦
              let (answer, a, sent) =
                >>=-eq-ok _ (send_answer getenv net)
                  (rw (scrape, g, metric_text_to_write_request, p) at h) in
              let ((wr, failure), f, e) =
                >>=-eq-ok (metric_families_to_write_request r n fs net.clock order mf []) _ a in
              let (fine, accepted) =
                unanswered getenv net wr failure answer posts (ok_inj e) sent in
              (body, order, mf, wr, g, p, f ∙ ap (λ x. ok (wr, x)) fine, accepted)
        ]
      ]
