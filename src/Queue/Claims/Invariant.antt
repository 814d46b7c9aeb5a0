-- ===== src/Queue/Claims/Invariant.antt =====
-- What holds of a retry queue between two calls, and what Dequeue promises.
use envelope.Prelude.{
  ℕ, ◌≤◌, ◌≡◌, ◌≢◌, refl, String, inl, inr, Bool, true, false, Option, none, some, [], ◌∷◌, arith,
  eq_iff, ◌=ₛ◌, Bool-cases, Option-cases, subst, ◌∙◌, if◌then◌else◌,
}
use envelope.Prelude.Dict.{Dict, lookup, insert, delete, lookup-insert, lookup-delete}
use envelope.Context.{Context, Error, Result, ok, err}
use envelope.Queue.Claims.{
  RetryJob, IsLawful, Backend, is_claimed, new_backend, select, enqueue, dequeue, complete, fail,
}
use envelope.Queue.Claims.Select.{Keyed, Eligible, AtMost, select_earliest, select-Eligible}

pub is_claimed-insert :
    (id k : String) (b : Bool) (claimed : Dict Bool)
    → is_claimed (insert id b claimed) k ≡ (if id =ₛ k then b else is_claimed claimed k)
unfolding is_claimed
is_claimed-insert id k b claimed = simp lookup-insert (ground arith)

pub is_claimed-delete :
    (id k : String) (claimed : Dict Bool)
    → is_claimed (delete id claimed) k ≡ (if id =ₛ k then false else is_claimed claimed k)
unfolding is_claimed
is_claimed-delete id k claimed = simp lookup-delete (ground arith)

module _ {J : Type 0} (q : RetryJob J) where
  Keyed-id : (k : String) (j : J) (m : Dict J) → Keyed q m → lookup k m ≡ some j → q.id j ≡ k
  unfolding lookup
  Keyed-id k j [] h e = absurd (cc e)
  Keyed-id k j ((i, x) ∷ m) (own, fresh, rest) e = ground (arith, eq_iff i k, Keyed-id k j m rest)

  insert-Keyed : (k : String) (j : J) (m : Dict J) → q.id j ≡ k → Keyed q m → Keyed q (insert k j m)
  unfolding insert lookup
  insert-Keyed k j [] e h = (e, refl, tt)
  insert-Keyed k j ((i, x) ∷ m) e (own, fresh, rest) =
      ground (arith, eq_iff i k, eq_iff k i, insert-Keyed k j m e rest, lookup-insert k i j m)

  delete-Keyed : (k : String) (m : Dict J) → Keyed q m → Keyed q (delete k m)
  unfolding delete
  delete-Keyed k [] h = tt
  delete-Keyed k ((i, x) ∷ m) (own, fresh, rest) =
      ground (arith, delete-Keyed k m rest, lookup-delete k i m)

  -- A claim is held on a job of the queue, and no job has the empty ID.
  pub record Inv (m : Backend J) : Type 0 where
    pub keyed : Keyed q m.jobs
    pub claims_live : (k : String) → is_claimed m.claimed k ≡ true → lookup k m.jobs ≢ none
    pub named : lookup "" m.jobs ≡ none

  pub new_backend-Inv : Inv new_backend
  unfolding new_backend is_claimed lookup
  new_backend-Inv = record { keyed = tt; claims_live = λ k h. cc; named = refl }

  pub enqueue-Inv : (ctx : Context) (job : J) (m : Backend J) → Inv m → Inv (enqueue q ctx job m).1
  unfolding enqueue
  enqueue-Inv ctx job m v = elim (Option-cases ctx.done) [
    | inr (e, stopped) ↦ rw (stopped, enqueue) v
    | inl live ↦ elim (Bool-cases (q.id job =ₛ "")) [
      | inl unnamed ↦ rw (live, unnamed, enqueue) v
      | inr isnamed ↦
          rw (live, isnamed, enqueue)
            (record {
              keyed = insert-Keyed (q.id job) job m.jobs refl v.keyed;
              claims_live = λ k h. simp lookup-insert (ground (arith, v.claims_live k h));
              named = simp lookup-insert (ground (arith, isnamed, v.named));
            })
    ]
  ]

  -- What a call of Dequeue did: `served` is the case in which it hands a job out.
  pub data Dequeued (halt : Option Error) (now : ℕ) (m : Backend J)
      : Result (Option J) × Backend J → Type 0 where
    stopped : {e : Error} → halt ≡ some e → Dequeued halt now m (err e, m)
    idle :
        halt ≡ none
        → ((k : String) (j : J) → ¬ Eligible q now m.claimed m.jobs k j)
        → Dequeued halt now m (ok none, m)
    served :
        (j : J)
        → halt ≡ none
        → Eligible q now m.claimed m.jobs (q.id j) j
        → ((k : String) (i : J)
            → Eligible q now m.claimed m.jobs k i
            → q.next_attempt_at j ≤ q.next_attempt_at i)
        → Dequeued halt now m (ok (some j), record m { claimed = insert (q.id j) true m.claimed })

  -- Dequeue hands out an unclaimed job that is due, none of which is due earlier, and claims that
  -- one; it hands out nothing only if there is no such job.
  pub dequeue_lem :
      (ctx : Context) (now : ℕ) (m : Backend J)
      → Inv m
      → Dequeued ctx.done now m (dequeue q ctx now m)
  unfolding dequeue
  dequeue_lem ctx now m v = elim (Option-cases ctx.done) [
    | inr (e, halted) ↦ rw (halted, dequeue) (stopped refl)
    | inl live ↦ elim (Option-cases (select q now m.claimed m.jobs none)) [
      | inl nothing ↦
          rw (live, nothing, dequeue)
            (idle refl λ k j h.
              subst (AtMost q (q.next_attempt_at j)) nothing
                (select_earliest q now m.claimed m.jobs none k j h))
      | inr (b, chosen) ↦
          rw (live, chosen, dequeue)
            (served b refl
              (elim (select-Eligible q now m.claimed m.jobs none b v.keyed chosen) [
                | inl begun ↦ absurd (cc begun)
                | inr good ↦ good
              ])
              (λ k i h.
                subst (AtMost q (q.next_attempt_at i)) chosen
                  (select_earliest q now m.claimed m.jobs none k i h)))
    ]
  ]

  pub dequeue-Inv : (ctx : Context) (now : ℕ) (m : Backend J) → Inv m → Inv (dequeue q ctx now m).1
  dequeue-Inv ctx now m v = kept (dequeue q ctx now m) (dequeue_lem ctx now m v)
    where
      kept : (r : Result (Option J) × Backend J) → Dequeued ctx.done now m r → Inv r.1
      kept r (stopped h) = v
      kept r (idle h none_left) = v
      kept r (served j h e first) = record {
        keyed = v.keyed;
        claims_live = λ k held. ground (
          arith,
          is_claimed-insert (q.id j) k true m.claimed,
          v.claims_live k,
          e.0,
          held,
          eq_iff (q.id j) k,
        );
        named = v.named;
      }

  pub complete-Inv :
      (ctx : Context) (id : String) (m : Backend J) → Inv m → Inv (complete q ctx id m).1
  unfolding complete
  complete-Inv ctx id m v = elim (Option-cases ctx.done) [
    | inr (e, halted) ↦ rw (halted, complete) v
    | inl live ↦ elim (Option-cases (lookup id m.jobs)) [
      | inl missing ↦ rw (live, missing, complete) v
      | inr (job, found) ↦
          rw (live, found, complete)
            (record {
              keyed = delete-Keyed id m.jobs v.keyed;
              claims_live = λ k held.
                  simp lookup-delete
                    (ground (arith, is_claimed-delete id k m.claimed, v.claims_live k, held));
              named = simp lookup-delete (ground (arith, v.named));
            })
    ]
  ]

  pub fail-Inv :
      (lawful : IsLawful q) (ctx : Context) (id : String) (cause : Option String) (next : ℕ)
      (m : Backend J)
      → Inv m
      → Inv (fail q ctx id cause next m).1
  unfolding fail
  fail-Inv lawful ctx id cause next m v = elim (Option-cases ctx.done) [
    | inr (e, halted) ↦ rw (halted, fail) v
    | inl live ↦ elim (Option-cases (lookup id m.jobs)) [
      | inl missing ↦ rw (live, missing, fail) v
      | inr (job, found) ↦
          rw (live, found, fail)
            (record {
              keyed =
                  insert-Keyed id (q.reschedule job cause next) m.jobs
                    (lawful.id_kept job cause next ∙ Keyed-id id job m.jobs v.keyed found) v.keyed;
              claims_live = λ k held.
                  simp lookup-insert
                    (ground (arith, is_claimed-delete id k m.claimed, v.claims_live k, held));
              named = simp lookup-insert (ground (arith, v.named, found, eq_iff id ""));
            })
    ]
  ]
