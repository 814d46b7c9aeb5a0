-- ===== src/Webhook/Dispatch/Redriving.antt =====
-- Which attempt a redriven delivery is built from.
use envelope.Prelude.{
  ℕ, ◌≡◌, ◌≢◌, ◌⊎◌, refl, ap, subst, true, false, Bool-cases, Option, none, some, Option-cases, inl,
  inr, String, ◌=ₛ◌, eq_iff, List, [], ◌∷◌, ◌++◌, All, arith,
}
use envelope.Prelude.Dict.{insert}
use envelope.Context.{background, Error, ok, err, Result-cases}
use envelope.Queue.Claims.Enqueueing.{enqueue_live}
use envelope.Webhook.{Subscription, DeliveryAttempt, event_queue}
use envelope.Webhook.Dispatch.{
  Parts, Config, World, new_job, prefixed, find_subscription, last_attempt, redrive_to, redrive,
}
use envelope.Webhook.Dispatch.FanOut.{delivery_job}

-- The attempt is the most recent one for the event: none after it is for that event.
pub record IsLatest (event_id : String) (attempts : List DeliveryAttempt) (last : DeliveryAttempt)
    : Type 0 where
  pub earlier : List DeliveryAttempt
  pub later : List DeliveryAttempt
  pub split : attempts ≡ earlier ++ last ∷ later
  pub of_event : last.event_id ≡ event_id
  pub none_later : All (λ a. a.event_id ≢ event_id) later

abbrev Found : String → List DeliveryAttempt → Option DeliveryAttempt → Type 0
Found event_id attempts o =
    (last : DeliveryAttempt) × (o ≡ some last) × IsLatest event_id attempts last

later_on :
    (event_id : String) (a : DeliveryAttempt) (rest : List DeliveryAttempt)
    (o : Option DeliveryAttempt)
    → Found event_id rest o
    → Found event_id (a ∷ rest) o
later_on event_id a rest o (last, e, l) = (
  last,
  e,
  record {
    earlier = a ∷ l.earlier;
    later = l.later;
    split = ap (◌∷◌ a) l.split;
    of_event = l.of_event;
    none_later = l.none_later;
  },
)

last_attempt-Found :
    (event_id : String) (attempts : List DeliveryAttempt) (o : Option DeliveryAttempt)
    → (All (λ a. a.event_id ≢ event_id) attempts × (last_attempt event_id attempts o ≡ o))
      ⊎ Found event_id attempts (last_attempt event_id attempts o)
unfolding last_attempt
last_attempt-Found event_id [] o = inl (tt, refl)
last_attempt-Found event_id (a ∷ rest) o = elim (Bool-cases (a.event_id =ₛ event_id)) [
  | inl e ↦
      rw (e, last_attempt)
        (elim (last_attempt-Found event_id rest (some a)) [
          | inl (clear, h) ↦ inr (
            a,
            h,
            record {
              earlier = [];
              later = rest;
              split = refl;
              of_event = (eq_iff a.event_id event_id).0 e;
              none_later = clear;
            },
          )
          | inr found ↦ inr (later_on event_id a rest _ found)
        ])
  | inr e ↦
      rw (e, last_attempt)
        (elim (last_attempt-Found event_id rest o) [
          | inl (clear, h) ↦ inl ((ground (arith, e, eq_iff a.event_id event_id), clear), h)
          | inr found ↦ inr (later_on event_id a rest _ found)
        ])
]

last_attempt-IsLatest :
    (event_id : String) (attempts : List DeliveryAttempt) (last : DeliveryAttempt)
    → last_attempt event_id attempts none ≡ some last
    → IsLatest event_id attempts last
last_attempt-IsLatest event_id attempts last h = elim (last_attempt-Found event_id attempts none) [
  | inl (clear, e) ↦ absurd (cc (h, e))
  | inr (a, e, l) ↦ subst (IsLatest event_id attempts) (cc (h, e)) l
]

-- The subscription is the first of its ID.
pub record IsFirst (id : String) (subs : List Subscription) (sub : Subscription) : Type 0 where
  pub earlier : List Subscription
  pub later : List Subscription
  pub split : subs ≡ earlier ++ sub ∷ later
  pub of_id : sub.id ≡ id
  pub none_earlier : All (λ s. s.id ≢ id) earlier

abbrev Sought : String → List Subscription → Option Subscription → Type 0
Sought id subs none = All (λ s. s.id ≢ id) subs
Sought id subs (some sub) = IsFirst id subs sub

further :
    (id : String) (s : Subscription) (subs : List Subscription) (o : Option Subscription)
    → s.id ≢ id
    → Sought id subs o
    → Sought id (s ∷ subs) o
further id s subs none h k = (h, k)
further id s subs (some sub) h k = record {
  earlier = s ∷ k.earlier;
  later = k.later;
  split = ap (◌∷◌ s) k.split;
  of_id = k.of_id;
  none_earlier = (h, k.none_earlier);
}

find_subscription-Sought :
    (id : String) (subs : List Subscription) → Sought id subs (find_subscription id subs)
unfolding find_subscription
find_subscription-Sought id [] = tt
find_subscription-Sought id (s ∷ rest) = elim (Bool-cases (s.id =ₛ id)) [
  | inl e ↦
      rw (e, find_subscription)
        (record {
          earlier = [];
          later = rest;
          split = refl;
          of_id = (eq_iff s.id id).0 e;
          none_earlier = tt;
        })
  | inr e ↦
      rw (e, find_subscription)
        (further id s rest _ (λ h. ground (arith, e, h, eq_iff s.id id))
          (find_subscription-Sought id rest))
]

last_attempt-none :
    (event_id : String) (attempts : List DeliveryAttempt)
    → last_attempt event_id attempts none ≡ none
    → All (λ a. a.event_id ≢ event_id) attempts
last_attempt-none event_id attempts h = elim (last_attempt-Found event_id attempts none) [
  | inl (clear, e) ↦ clear
  | inr (a, e, l) ↦ absurd (cc (h, e))
]

module _ (p : Parts) (cfg : Config) where
  module _ (correlation_id vhost id event_id : String) (now : ℕ) (uuid : String) (w : World p) where
    -- Why Redrive fails: the store does, the vhost has no such subscription or it is disabled, or no
    -- attempt for the event is recorded.
    pub data IsRefused : Type 0 where
      unlisted :
          (x : Error)
          → p.store.list_subscriptions (background correlation_id) vhost w.history ≡ err x
          → IsRefused
      unknown :
          (subs : List Subscription)
          → p.store.list_subscriptions (background correlation_id) vhost w.history ≡ ok subs
          → All (λ s. s.id ≢ id) subs
          → IsRefused
      off :
          (subs : List Subscription) (sub : Subscription)
          → p.store.list_subscriptions (background correlation_id) vhost w.history ≡ ok subs
          → IsFirst id subs sub
          → sub.disabled ≡ true
          → IsRefused
      unread :
          (subs : List Subscription) (sub : Subscription) (x : Error)
          → p.store.list_subscriptions (background correlation_id) vhost w.history ≡ ok subs
          → IsFirst id subs sub
          → p.store.list_attempts (background correlation_id) vhost sub.id w.history ≡ err x
          → IsRefused
      never_attempted :
          (subs : List Subscription) (sub : Subscription) (attempts : List DeliveryAttempt)
          → p.store.list_subscriptions (background correlation_id) vhost w.history ≡ ok subs
          → IsFirst id subs sub
          → p.store.list_attempts (background correlation_id) vhost sub.id w.history ≡ ok attempts
          → All (λ a. a.event_id ≢ event_id) attempts
          → IsRefused

    -- What Redrive does: nothing, or one job for the latest attempt at the subscription as it is now.
    pub data Redriven : Option Error × World p → Type 0 where
      refused : (e : Error) → IsRefused → Redriven (some e, w)
      redriven :
          (subs : List Subscription) (sub : Subscription) (attempts : List DeliveryAttempt)
          (last : DeliveryAttempt)
          → p.store.list_subscriptions (background correlation_id) vhost w.history ≡ ok subs
          → IsFirst id subs sub
          → sub.disabled ≡ false
          → p.store.list_attempts (background correlation_id) vhost sub.id w.history ≡ ok attempts
          → IsLatest event_id attempts last
          → Redriven (
            none,
            record w {
              queue = record w.queue {
                jobs =
                    insert uuid
                      (delivery_job uuid vhost sub event_id last.event_type last.payload now
                        correlation_id)
                      w.queue.jobs;
              };
            },
          )

    redrive_to-Redriven :
        (subs : List Subscription) (sub : Subscription)
        → uuid ≢ ""
        → p.store.list_subscriptions (background correlation_id) vhost w.history ≡ ok subs
        → IsFirst id subs sub
        → sub.disabled ≡ false
        → Redriven (redrive_to p cfg (background correlation_id) vhost sub event_id now uuid w)
    unfolding redrive_to prefixed new_job event_queue
    redrive_to-Redriven subs sub fresh e f g =
        elim (Result-cases
          (p.store.list_attempts (background correlation_id) vhost sub.id w.history)) [
            | inr (x, h) ↦ rw (h, redrive_to) (refused _ (unread subs sub x e f h))
            | inl (attempts, h) ↦ elim (Option-cases (last_attempt event_id attempts none)) [
              | inl k ↦
                  rw (h, k, redrive_to)
                    (refused _ (
                      never_attempted subs sub attempts e f h
                        (last_attempt-none event_id attempts k)))
              | inr (last, k) ↦
                  rw
                    (
                      h,
                      k,
                      enqueue_live event_queue correlation_id
                          (delivery_job uuid vhost sub event_id last.event_type last.payload now
                            correlation_id)
                          w.queue fresh,
                      redrive_to,
                    )
                    (redriven subs sub attempts last e f g h
                      (last_attempt-IsLatest event_id attempts last k))
            ]
          ]

    -- Redrive, under a fresh UUID and a context that is not cancelled, fails only if the store does, if
    -- the vhost has no such subscription or it is disabled, or if no attempt for the event is
    -- recorded; then it changes nothing. Otherwise it adds one job, due now and not attempted yet. The job goes to the vhost's subscription of
    -- this ID, which is enabled, at its current URL and secret, with the type and payload of the most
    -- recent recorded attempt of the event.
    pub redrive-Redriven :
        uuid ≢ ""
        → Redriven (redrive p cfg (background correlation_id) vhost id event_id now uuid w)
    unfolding redrive
    redrive-Redriven fresh =
        elim (Result-cases
          (p.store.list_subscriptions (background correlation_id) vhost w.history)) [
            | inr (x, e) ↦ rw (e, redrive) (refused _ (unlisted x e))
            | inl (subs, e) ↦ elim (Option-cases (find_subscription id subs)) [
              | inl f ↦
                  rw (e, f, redrive)
                    (refused _ (
                      unknown subs e (subst (Sought id subs) f (find_subscription-Sought id subs))))
              | inr (sub, f) ↦
                  let first = subst (Sought id subs) f (find_subscription-Sought id subs) in
                  elim (Bool-cases sub.disabled) [
                    | inl g ↦ simp (e, f, g, redrive) (refused _ (off subs sub e first g))
                    | inr g ↦ simp (e, f, g, redrive) (redrive_to-Redriven subs sub fresh e first g)
                  ]
            ]
          ]
