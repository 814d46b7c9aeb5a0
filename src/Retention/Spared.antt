-- ===== src/Retention/Spared.antt =====
-- What a purge leaves alone.
use envelope.Prelude.{
  ℕ, ◌≡◌, ◌≢◌, ◌<◌, ◌⊎◌, refl, sym, ◌∙◌, ℤ, pos, is_positive, true, false, arith, Option, none,
  some, Bool-cases, inl, inr, List, [], ◌∷◌, All,
}
use envelope.Context.{Context, ok}
use envelope.Storage.{Store, MessageRef, MessageMeta}
use envelope.Directory.{Vhost}
use envelope.Retention.{Parts, days_of, default_days, has_expired, purge_messages, purge_vhost}

-- Delete of one message leaves the others readable as they were.
pub record DeletesOnly (store : Store) : Type 0 where
  pub others :
      (ctx : Context) (ref other : MessageRef) (s : store.State)
      → ref ≢ other
      → store.read ctx other (store.delete_message ctx ref s).1 ≡ store.read ctx other s

-- The retention of a vhost in days: its own, or the Purger's, or 90, the first that is positive.
abbrev pub IsRetention : ℤ → Vhost → ℤ → Type 0
IsRetention configured v days =
    ((is_positive v.retention_days ≡ true) × (days ≡ v.retention_days))
    ⊎ ((is_positive v.retention_days ≡ false)
        × (((is_positive configured ≡ true) × (days ≡ configured))
            ⊎ ((is_positive configured ≡ false) × (days ≡ pos 90))))

days_of-IsRetention :
    (configured : ℤ) (v : Vhost) (days : ℤ)
    → IsRetention configured v days
    → days_of configured v ≡ days
unfolding days_of default_days
days_of-IsRetention configured v days (inl (e, h)) = rw (e, days_of) (sym h)
days_of-IsRetention configured v days (inr (e, inl (f, h))) =
    rw (e, f, days_of, default_days) (sym h)
days_of-IsRetention configured v days (inr (e, inr (f, h))) =
    rw (e, f, days_of, default_days) (sym h)

-- The listing shows the message, wherever it does, with an unknown age or as younger than the cutoff.
abbrev pub IsSpared : ℕ → MessageRef → List MessageMeta → Type 0
IsSpared cutoff ref messages =
    All
      (λ m.
        m.ref ≡ ref
        → (m.created_at ≡ none)
          ⊎ ((created : ℕ) × (m.created_at ≡ some created) × (cutoff < created)))
      messages

spared-has_expired :
    (cutoff : ℕ) (o : Option ℕ)
    → (o ≡ none) ⊎ ((created : ℕ) × (o ≡ some created) × (cutoff < created))
    → has_expired cutoff o ≡ false
unfolding has_expired
spared-has_expired cutoff o (inl e) = rw (e, has_expired) refl
spared-has_expired cutoff o (inr (created, e, l)) = rw (e, has_expired) (ground (arith, l))

module _ (p : Parts) (configured : ℤ) (now : Vhost → ℕ) where
  purge_messages-IsSpared :
      (ctx : Context) (cutoff : ℕ) (ref : MessageRef) (messages : List MessageMeta)
      (s : p.store.State)
      → DeletesOnly p.store
      → IsSpared cutoff ref messages
      → p.store.read ctx ref (purge_messages p configured now ctx cutoff messages s)
        ≡ p.store.read ctx ref s
  unfolding purge_messages
  purge_messages-IsSpared ctx cutoff ref [] s law _ = refl
  purge_messages-IsSpared ctx cutoff ref (m ∷ rest) s law (h, hs) =
      elim (Bool-cases (has_expired cutoff m.created_at)) [
        | inl e ↦
            rw (e, purge_messages)
              (purge_messages-IsSpared ctx cutoff ref rest _ law hs
                ∙ law.others ctx m.ref ref s (λ same.
                  let spared = spared-has_expired cutoff m.created_at (h same) in cc (e, spared)))
        | inr e ↦ rw (e, purge_messages) (purge_messages-IsSpared ctx cutoff ref rest s law hs)
      ]

  -- For a store whose Delete touches one message only: a message that the listing of its vhost shows
  -- with an unknown age, or as created later than as many days ago as the vhost's retention has, reads
  -- after a purge of the vhost as it did before. The retention is the vhost's own, or else the
  -- configured one, or else 90 days, each only if positive.
  pub purge_vhost-IsSpared :
      (ctx : Context) (v : Vhost) (days : ℤ) (ref : MessageRef) (messages : List MessageMeta)
      (s : p.store.State)
      → DeletesOnly p.store
      → IsRetention configured v days
      → p.store.list_vhost ctx v.domain s ≡ ok messages
      → IsSpared (p.days_before days (now v)) ref messages
      → p.store.read ctx ref (purge_vhost p configured now ctx v s) ≡ p.store.read ctx ref s
  unfolding purge_vhost
  purge_vhost-IsSpared ctx v days ref messages s law kept e h =
      rw (e, days_of-IsRetention configured v days kept, purge_vhost)
        (purge_messages-IsSpared ctx _ ref messages s law h)
