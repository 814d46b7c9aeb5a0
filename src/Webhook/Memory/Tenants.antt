-- ===== src/Webhook/Memory/Tenants.antt =====
-- What a call for one vhost can see and change of another vhost's.
use envelope.Prelude.{
  ◌≡◌, ◌≢◌, refl, true, false, Option, none, some, ◌∙◌, Bool-cases, Option-cases, inl, inr, String,
  eq_iff, [], arith,
}
use envelope.Prelude.Dict.{Dict, lookup, lookup-insert}
use envelope.Context.{Context, ok}
use envelope.Webhook.{Subscription}
use envelope.Webhook.Memory.{MemoryStore, not_of, disabled_in, disable_subscription, list_attempts}

disabled_in-other :
    (vhost id k : String) (sub : Subscription) (found : Option Subscription)
    (subs : Dict Subscription)
    → lookup id subs ≡ found
    → not_of vhost found ≡ false
    → lookup k subs ≡ some sub
    → sub.vhost ≢ vhost
    → lookup k (disabled_in id found subs) ≡ some sub
unfolding disabled_in not_of
disabled_in-other vhost id k sub none subs e f g h = g
disabled_in-other vhost id k sub (some s) subs e f g h =
    lookup-insert id k _ subs ∙ ground (arith, eq_iff id k, eq_iff s.vhost vhost, e, f, g, h)

-- Disabling a subscription for one vhost leaves every subscription of another vhost as it was,
-- whatever ID is named, and the attempts under another vhost's subscription are not listed.
pub disable_subscription-isolated :
    (ctx : Context) (vhost id k : String) (sub : Subscription) (m : MemoryStore)
    → lookup k m.subscriptions ≡ some sub
    → sub.vhost ≢ vhost
    → (lookup k (disable_subscription ctx vhost id m).1.subscriptions ≡ some sub)
      × (ctx.done ≡ none → list_attempts ctx vhost k m ≡ ok [])
unfolding disable_subscription list_attempts not_of
disable_subscription-isolated ctx vhost id k sub m e h = (kept, hidden)
  where
    kept : lookup k (disable_subscription ctx vhost id m).1.subscriptions ≡ some sub
    kept = elim (Option-cases ctx.done) [
      | inr (x, f) ↦ rw (f, disable_subscription) e
      | inl f ↦ elim (Bool-cases (not_of vhost (lookup id m.subscriptions))) [
        | inl g ↦ rw (f, g, disable_subscription) e
        | inr g ↦
            rw (f, g, disable_subscription)
              (disabled_in-other vhost id k sub _ m.subscriptions refl g e h)
      ]
    ]

    foreign : not_of vhost (some sub) ≡ true
    foreign = ground (arith, eq_iff sub.vhost vhost)

    hidden : ctx.done ≡ none → list_attempts ctx vhost k m ≡ ok []
    hidden f = rw (f, e, foreign, list_attempts) refl
