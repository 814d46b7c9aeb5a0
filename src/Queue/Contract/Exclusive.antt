-- ===== src/Queue/Contract/Exclusive.antt =====
-- Claims are exclusive in every backend that keeps the contract.
use envelope.Prelude.{
  ◌≡◌, ◌≢◌, sym, ap, ◌∙◌, String, eq_iff, arith, true, false, Option, some, List, [], ◌∷◌, All,
}
use envelope.Context.{Error, Result}
use envelope.Queue.Claims.{RetryJob, IsLawful}
use envelope.Queue.Claims.Traces.{Call, enqueues, completes, fails, given, releases}
use envelope.Queue.Contract.{
  View, Does, halted, unnamed, taken, queued, nothing_due, handed_out, no_such_job, completed,
  nothing_to_fail, put_off,
}

some_injective : {A : Type 0} {a b : A} → some a ≡ some b → a ≡ b
some_injective h = cc

module _ {J : Type 0} (q : RetryJob J) where
  -- Every job stands under its own ID.
  abbrev pub Named : View J → Type 0
  Named v = (k : String) (j : J) → v.job k ≡ some j → q.id j ≡ k

  Does-Named :
      {halt : Option Error} {v v' : View J} {c : Call J} {r : Result (Option J)}
      → IsLawful q
      → Named v
      → Does q halt v c r v'
      → Named v'
  Does-Named lawful n (halted e h) = n
  Does-Named lawful n (unnamed e h) = n
  Does-Named lawful n (taken e h) = n
  Does-Named lawful n (nothing_due h) = n
  Does-Named lawful n (no_such_job e h) = n
  Does-Named lawful n (nothing_to_fail e h) = n
  Does-Named {v = v} {c = enqueues _ job} lawful n (queued h new same) =
      λ k j e. ground (arith, sym (new k) ∙ e, eq_iff (q.id job) k, n k j)
  Does-Named lawful n (handed_out k j ready first same held) = λ i x e. n i x (sym (same i) ∙ e)
  Does-Named {c = completes _ id} lawful n (completed j h gone held) =
      λ k x e. ground (arith, sym (gone k) ∙ e, n k x)
  Does-Named {c = fails _ id cause next} lawful n (put_off j h new held) = λ k x e.
      ground (arith, sym (new k) ∙ e, n k x, n id j h, eq_iff id k, lawful.id_kept j cause next)

  -- A call that does not complete or fail the claimed job leaves it claimed, and does not hand it out.
  Does-held :
      {halt : Option Error} {v v' : View J} {c : Call J} {r : Result (Option J)} (id : String)
      → Named v
      → v.held id ≡ true
      → releases id c ≡ false
      → Does q halt v c r v'
      → (v'.held id ≡ true) × ((j : J) → given r ≡ some j → q.id j ≢ id)
  Does-held id n h l (halted e x) = (h, λ j e. cc)
  Does-held id n h l (unnamed e x) = (h, λ j e. cc)
  Does-held id n h l (taken e x) = (h, λ j e. cc)
  Does-held id n h l (nothing_due x) = (h, λ j e. cc)
  Does-held id n h l (no_such_job e x) = (h, λ j e. cc)
  Does-held id n h l (nothing_to_fail e x) = (h, λ j e. cc)
  Does-held id n h l (queued named new same) = (same id ∙ h, λ j e. cc)
  Does-held {c = completes _ k} id n h l (completed j there gone held) =
      (ground (arith, held id, h, l), λ j e. cc)
  Does-held {c = fails _ k cause next} id n h l (put_off j there new held) =
      (ground (arith, held id, h, l), λ j e. cc)
  Does-held {v = v} id n h l (handed_out k j (there, free, due) first same held) = (
    ground (arith, held id, h),
    λ i e same_id.
        let is_j : j ≡ i = some_injective e in
        let at_id : k ≡ id = sym (n k j there) ∙ ap q.id is_j ∙ same_id in
        let busy : v.held k ≡ true = ap v.held at_id ∙ h in absurd (cc (busy, free)),
  )

  -- Any sequence of calls and their answers.
  pub data Trace : List (Call J × Result (Option J)) → View J → View J → Type 0 where
    stop : {v : View J} → Trace [] v v
    next :
        {halt : Option Error} {c : Call J} {r : Result (Option J)} {v v' v'' : View J}
        {calls : List (Call J × Result (Option J))}
        → Does q halt v c r v'
        → Trace calls v' v''
        → Trace ((c, r) ∷ calls) v v''

  -- In a backend that keeps the contract, a claimed job is not handed out by any sequence of calls
  -- that does not complete or fail it, whatever errors occur.
  pub Trace-exclusive :
      {v v' : View J} {calls : List (Call J × Result (Option J))} (lawful : IsLawful q)
      (id : String)
      → Named v
      → v.held id ≡ true
      → Trace calls v v'
      → All (λ call. releases id call.0 ≡ false) calls
      → All (λ call. (j : J) → given call.1 ≡ some j → q.id j ≢ id) calls
  Trace-exclusive lawful id n h stop l = tt
  Trace-exclusive lawful id n h (next d t) (l, ls) =
      let (held, other) = Does-held id n h l d in
      (other, Trace-exclusive lawful id (Does-Named lawful n d) held t ls)
