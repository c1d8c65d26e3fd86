-- ===== src/Webhook/Registration.antt =====
-- internal/controller/webhook.go: the registration of the webhook with the API server,
-- `CreateOrUpdateMutatingWebhookConfiguration` and `CheckWebhookUpdated`. `reflect.DeepEqual` is the
-- equality of the values, where a nil list counts as an empty one.
pub mod Converges
use edge_q.Prelude.{
  ℕ, String, ◌≡◌, ◌↔◌, refl, ap, sym, ◌∙◌, inl, inr, Bool, Bool-cases, true, false, not, ◌&&◌, ◌==◌,
  eq_iff, Option, none, some, List, [], ◌∷◌, map, length, arith, eqb, if◌then◌else◌,
}
use edge_q.Prelude.Int.{ℤ, eqb_ℤ, pos, negsuc}
use edge_q.Outcome.{Outcome, ok, err, panic}
use edge_q.Maps.{Map}
use edge_q.K8s.{ApiError, not_found, is_not_found}

-- A test that decides equality.
pub record Equality (A : Type 0) : Type 0 where
  pub test : A → A → Bool
  pub test_iff : (a b : A) → (test a b ≡ true) ↔ (a ≡ b)

abbrev pub text_eq : Equality String
text_eq = record { test = λ a b. a == b; test_iff = eq_iff }

module _ {A : Type 0} (e : Equality A) where
  abbrev pub test_list : List A → List A → Bool
  test_list [] [] = true
  test_list [] (y ∷ ys) = false
  test_list (x ∷ xs) [] = false
  test_list (x ∷ xs) (y ∷ ys) = e.test x y && test_list xs ys

  abbrev pub test_option : Option A → Option A → Bool
  test_option none none = true
  test_option none (some b) = false
  test_option (some a) none = false
  test_option (some a) (some b) = e.test a b

  pub test_list_iff : (xs ys : List A) → (test_list xs ys ≡ true) ↔ (xs ≡ ys)
  test_list_iff [] [] = (λ h. refl, λ h. refl)
  test_list_iff [] (y ∷ ys) = ground arith
  test_list_iff (x ∷ xs) [] = ground arith
  test_list_iff (x ∷ xs) (y ∷ ys) = ground (arith, e.test_iff x y, test_list_iff xs ys)

  pub test_option_iff : (a b : Option A) → (test_option a b ≡ true) ↔ (a ≡ b)
  test_option_iff none none = (λ h. refl, λ h. refl)
  test_option_iff none (some b) = ground arith
  test_option_iff (some a) none = ground arith
  test_option_iff (some a) (some b) = ground (arith, e.test_iff a b)

  abbrev pub list_eq : Equality (List A)
  list_eq = record { test = test_list; test_iff = test_list_iff }

  abbrev pub option_eq : Equality (Option A)
  option_eq = record { test = test_option; test_iff = test_option_iff }

module _ {A B : Type 0} (e : Equality A) (f : Equality B) where
  abbrev pub test_pair : A × B → A × B → Bool
  test_pair (a, b) (c, d) = e.test a c && f.test b d

  pub test_pair_iff : (x y : A × B) → (test_pair x y ≡ true) ↔ (x ≡ y)
  test_pair_iff (a, b) (c, d) = ground (arith, e.test_iff a c, f.test_iff b d)

  abbrev pub pair_eq : Equality (A × B)
  pair_eq = record { test = test_pair; test_iff = test_pair_iff }

pub eqb_ℤ_iff : (a b : ℤ) → (eqb_ℤ a b ≡ true) ↔ (a ≡ b)
eqb_ℤ_iff (pos a) (pos b) = ground arith
eqb_ℤ_iff (pos a) (negsuc b) = ground arith
eqb_ℤ_iff (negsuc a) (pos b) = ground arith
eqb_ℤ_iff (negsuc a) (negsuc b) = ground arith

abbrev int_eq : Equality ℤ
int_eq = record { test = eqb_ℤ; test_iff = eqb_ℤ_iff }

-- The operations, groups, versions and resources of a rule.
abbrev pub Rule : Type 0
Rule = List String × (List String × (List String × List String))

-- The name, namespace, path and port of the service behind the webhook.
abbrev pub ServiceReference : Type 0
ServiceReference = String × (String × (String × ℤ))

pub record MutatingWebhook : Type 0 where
  pub name : String
  pub admission_review_versions : List String
  pub side_effects : Option String
  pub ca_bundle : String
  pub service : Option ServiceReference
  pub rules : List Rule
  pub namespace_selector : Option (Map String)
  pub object_selector : Option (Map String)
  pub failure_policy : Option String

pub record MutatingWebhookConfiguration : Type 0 where
  pub name : String
  pub resource_version : String
  pub webhooks : List MutatingWebhook

abbrev texts_eq : Equality (List String)
texts_eq = list_eq text_eq

abbrev rule_eq : Equality Rule
rule_eq = pair_eq texts_eq (pair_eq texts_eq (pair_eq texts_eq texts_eq))

abbrev service_eq : Equality ServiceReference
service_eq = pair_eq text_eq (pair_eq text_eq (pair_eq text_eq int_eq))

abbrev selector_eq : Equality (Option (Map String))
selector_eq = option_eq (list_eq (pair_eq text_eq text_eq))

-- The fields that are compared: the selector of objects is none of them.
unfoldable pub same_webhook : MutatingWebhook → MutatingWebhook → Bool
same_webhook old new =
    text_eq.test old.name new.name
    && texts_eq.test old.admission_review_versions new.admission_review_versions
    && (option_eq text_eq).test old.side_effects new.side_effects
    && (option_eq text_eq).test old.failure_policy new.failure_policy
    && (list_eq rule_eq).test old.rules new.rules
    && selector_eq.test old.namespace_selector new.namespace_selector
    && text_eq.test old.ca_bundle new.ca_bundle
    && (option_eq service_eq).test old.service new.service

-- The loop over the webhooks of lists of one length.
unfoldable pub some_differs : List MutatingWebhook → List MutatingWebhook → Bool
some_differs (old ∷ olds) (new ∷ news) =
    let rest : Bool = some_differs olds news in if not (same_webhook old new) then true else rest
some_differs [] news = false
some_differs (old ∷ olds) [] = false

unfoldable pub check_webhook_updated :
    MutatingWebhookConfiguration → MutatingWebhookConfiguration → Bool
check_webhook_updated old_cfg new_cfg =
    if not (eqb (length old_cfg.webhooks) (length new_cfg.webhooks))
    then true
    else some_differs old_cfg.webhooks new_cfg.webhooks

-- One of the two webhooks, for client pods (proxy) or for model pods (broker).
abbrev pub webhook_for : String → String → String → String → String → String → ℤ → MutatingWebhook
webhook_for name label path ca_pem service namespace port = record {
  name = name;
  admission_review_versions = "v1" ∷ "v1beta1" ∷ [];
  side_effects = some "None";
  ca_bundle = ca_pem;
  service = some (service, (namespace, (path, port)));
  rules = ("CREATE" ∷ "UPDATE" ∷ [], ("" ∷ [], ("v1" ∷ [], "pods" ∷ []))) ∷ [];
  namespace_selector = none;
  object_selector = some ((label, "enabled") ∷ []);
  failure_policy = some "Fail";
}

unfoldable pub wanted_configuration : String → String → String → ℤ → MutatingWebhookConfiguration
wanted_configuration ca_pem service namespace port = record {
  name = "edge-qos-injector-webhook";
  resource_version = "";
  webhooks =
      webhook_for "proxy.edge-qos.edgewize.io" "proxy.edge-qos.edgewize.io/injection" "/proxy"
        ca_pem service namespace port
      ∷ webhook_for "broker.edge-qos.edgewize.io" "broker.edge-qos.edgewize.io/injection" "/broker"
          ca_pem service namespace port
      ∷ [];
}

pub data ConfigWrite : Type 0 where
  create update : MutatingWebhookConfiguration → ConfigWrite

-- What is asked of the API server, and the result: `found` is what it has, and `write` its answer.
unfoldable pub create_or_update :
    Outcome ApiError MutatingWebhookConfiguration
    → (ConfigWrite → Outcome ApiError (Unit {0}))
    → String
    → String
    → String
    → ℤ
    → List ConfigWrite × Outcome ApiError (Unit {0})
create_or_update found write ca_pem service namespace port =
    let wanted : MutatingWebhookConfiguration =
      wanted_configuration ca_pem service namespace port in
    elim found [
      | err e ↦ if is_not_found e then (create wanted ∷ [], write (create wanted)) else ([], err e)
      | panic ↦ ([], panic)
      | ok cfg ↦
          let changed = record wanted { resource_version = cfg.resource_version } in
          if check_webhook_updated cfg wanted
          then (update changed ∷ [], write (update changed))
          else ([], ok tt)
    ]
