-- ===== src/Queue/Claims/Enqueueing.antt =====
-- Enqueue under a context that nobody cancels.
use envelope.Prelude.{◌≡◌, ◌≢◌, refl, String, ◌=ₛ◌, eq_iff, none, inl, inr, Bool-cases}
use envelope.Prelude.Dict.{insert}
use envelope.Context.{background}
use envelope.Queue.Claims.{RetryJob, Backend, enqueue}

module _ {J : Type 0} (q : RetryJob J) where
  pub enqueue_live :
      (correlation_id : String) (job : J) (m : Backend J)
      → q.id job ≢ ""
      → enqueue q (background correlation_id) job m
        ≡ (none, record m { jobs = insert (q.id job) job m.jobs })
  unfolding enqueue
  enqueue_live correlation_id job m h = elim (Bool-cases (q.id job =ₛ "")) [
    | inl e ↦ absurd (h ((eq_iff (q.id job) "").0 e))
    | inr e ↦ simp (e, enqueue) refl
  ]
