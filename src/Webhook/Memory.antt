-- ===== src/Webhook/Memory.antt =====
-- internal/webhook/memory.go: subscriptions and delivery attempts in two maps; the page size is in
-- postgres.go.
pub mod Tenants
use envelope.Prelude.{
  ℕ, suc, ◌+◌, ℤ, pos, pos_part, ltb_ℤ, is_positive, length, take, drop, Bool, true, false, not,
  ◌||◌, Option, none, some, String, ◌<>◌, ◌=ₛ◌, before, quote, List, [], ◌∷◌, ◌++◌, keep, map,
  if◌then◌else◌,
}
use envelope.Prelude.Dict.{Dict, lookup, insert}
use envelope.Context.{
  Context, Error, plain, wrap, sentinel, webhook_not_found, Result, ok, err, ◌>>=◌,
}
use envelope.Webhook.{Subscription, DeliveryAttempt}

pub record MemoryStore : Type 0 where
  pub subscriptions : Dict Subscription
  pub attempts : Dict (List DeliveryAttempt)

unfoldable pub new_memory_store : MemoryStore
new_memory_store = record { subscriptions = []; attempts = [] }

unfoldable pub create_subscription :
    Context → Subscription → MemoryStore → Option Error × MemoryStore
create_subscription ctx sub m = elim ctx.done [
  | some e ↦ (some e, m)
  | none ↦
      if sub.id =ₛ ""
      then (some (plain "webhook: subscription ID is required"), m)
      else (none, record m { subscriptions = insert sub.id sub m.subscriptions })
]

-- sort.Slice by ID: the IDs of the map are distinct.
insert_by_id : Subscription → List Subscription → List Subscription
insert_by_id sub [] = sub ∷ []
insert_by_id sub (s ∷ rest) =
    let later = insert_by_id sub rest in if before s.id sub.id then s ∷ later else sub ∷ s ∷ rest

sort_by_id : List Subscription → List Subscription
unfolding insert_by_id
sort_by_id [] = []
sort_by_id (s ∷ rest) = insert_by_id s (sort_by_id rest)

unfoldable pub of_vhost : String → Dict Subscription → List Subscription
of_vhost vhost [] = []
of_vhost vhost ((id, sub) ∷ rest) =
    let others = of_vhost vhost rest in if sub.vhost =ₛ vhost then sub ∷ others else others

unfoldable pub list_subscriptions : Context → String → MemoryStore → Result (List Subscription)
unfolding sort_by_id
list_subscriptions ctx vhost m = elim ctx.done [
  | some e ↦ err e
  | none ↦ ok (sort_by_id (of_vhost vhost m.subscriptions))
]

abbrev pub default_page_size : ℕ
default_page_size = 100

abbrev pub max_page_size : ℕ
max_page_size = 500

unfoldable pub page_limit : ℤ → ℕ
page_limit limit =
    if not (is_positive limit)
    then default_page_size
    else if ltb_ℤ (pos max_page_size) limit
    then max_page_size
    else pos_part limit

-- What the loop finds: the first element past the cursor, or the end.
unfoldable pub past_id : String → List Subscription → List Subscription
past_id cursor [] = []
past_id cursor (s ∷ rest) =
    let later = past_id cursor rest in if before cursor s.id then s ∷ rest else later

unfoldable pub past_attempt : String → List DeliveryAttempt → List DeliveryAttempt
past_attempt cursor [] = []
past_attempt cursor (a ∷ rest) =
    let later = past_attempt cursor rest in if a.id =ₛ cursor then rest else later

unfoldable pub list_subscriptions_page :
    Context → String → String → ℤ → MemoryStore → Result (List Subscription)
list_subscriptions_page ctx vhost cursor limit m = list_subscriptions ctx vhost m >>= λ all.
    ok (take (page_limit limit) (if cursor =ₛ "" then all else past_id cursor all))

unfoldable pub not_of : String → Option Subscription → Bool
not_of vhost none = true
not_of vhost (some sub) = not (sub.vhost =ₛ vhost)

unfoldable pub disabled_in : String → Option Subscription → Dict Subscription → Dict Subscription
disabled_in id none subs = subs
disabled_in id (some sub) subs = insert id (record sub { disabled = true }) subs

unfoldable pub no_subscription : String → Error
no_subscription id =
    wrap ("webhook: subscription " <> (quote id <> ": ")) (sentinel webhook_not_found)

unfoldable pub disable_subscription :
    Context → String → String → MemoryStore → Option Error × MemoryStore
unfolding not_of disabled_in
disable_subscription ctx vhost id m = elim ctx.done [
  | some e ↦ (some e, m)
  | none ↦
      let sub = lookup id m.subscriptions in
      if not_of vhost sub
      then (some (no_subscription id), m)
      else (none, record m { subscriptions = disabled_in id sub m.subscriptions })
]

abbrev pub or_nil : Option (List DeliveryAttempt) → List DeliveryAttempt
or_nil none = []
or_nil (some attempts) = attempts

-- The vhost that RecordAttempt writes down.
unfoldable pub vhost_of : String → Option Subscription → String
vhost_of claimed none = claimed
vhost_of claimed (some sub) = sub.vhost

-- `uuid` is the fresh ID of the attempt.
unfoldable pub record_attempt :
    Context → String → DeliveryAttempt → MemoryStore → Option Error × MemoryStore
record_attempt ctx uuid attempt m = elim ctx.done [
  | some e ↦ (some e, m)
  | none ↦
      if attempt.subscription_id =ₛ ""
      then (some (plain "webhook: attempt subscription ID is required"), m)
      else (let id = attempt.subscription_id in
          let entry : DeliveryAttempt = record attempt {
            id = uuid;
            vhost = vhost_of attempt.vhost (lookup id m.subscriptions);
          } in
          (
            none,
            record m {
              attempts = insert id (or_nil (lookup id m.attempts) ++ entry ∷ []) m.attempts;
            },
          ))
]

unfoldable pub list_attempts :
    Context → String → String → MemoryStore → Result (List DeliveryAttempt)
unfolding not_of
list_attempts ctx vhost subscription_id m = elim ctx.done [
  | some e ↦ err e
  | none ↦
      if not_of vhost (lookup subscription_id m.subscriptions)
      then ok []
      else ok (or_nil (lookup subscription_id m.attempts))
]

unfoldable pub list_attempts_page :
    Context → String → String → String → ℤ → MemoryStore → Result (List DeliveryAttempt)
list_attempts_page ctx vhost subscription_id cursor limit m =
    list_attempts ctx vhost subscription_id m >>= λ all.
    ok (take (page_limit limit) (if cursor =ₛ "" then all else past_attempt cursor all))
