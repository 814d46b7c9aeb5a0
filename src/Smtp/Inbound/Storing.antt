-- ===== src/Smtp/Inbound/Storing.antt =====
-- What DATA stores, and what it fires, on each of its branches.
use Prim.Native.String.{len}
use envelope.Prelude.{
  ℕ, suc, ap, ◌<>◌, ◌≡◌, ◌⊎◌, ◌++◌, pos, ltb_ℤ, Bool-cases, refl, Bool, true, false, Option, none,
  some, Option-cases, inl, inr, String, List, [], ◌∷◌,
}
use envelope.Context.{Context, background, Error, Result, ok, err, Result-cases}
use envelope.Storage.{Store, MessageRef}
use envelope.Directory.{Vhost, parse_address, mailbox_path}
use envelope.Filter.{evaluate, Verdict, accept, quarantine, reject}
use envelope.Webhook.{Fired, received_data, new_event_payload}
use envelope.Smtp.{Config, refusal}
use envelope.Smtp.Inbound.Events.{IsGrouping, by_vhost-IsGrouping}
use envelope.Smtp.Inbound.Sizes.{
  Fits, Exceeds, FitsAll, ExceedsOne, server_limit, effective-Fits, effective-Exceeds,
}
use envelope.Smtp.Inbound.{
  Parts, Session, World, effective_max_bytes, read_bounded, store_all, input, fire_received,
  received_events, received_event, by_vhost, after_store, act_on, receive,
}

-- Where a message goes: the vhost and the mailbox of each recipient whose address parses.
abbrev pub places : String → List (String × Vhost) → List (String × String)
places folder [] = []
places folder ((to, v) ∷ rest) = elim (parse_address to) [
  | none ↦ places folder rest
  | some (local, domain) ↦ (v.domain, mailbox_path local folder) ∷ places folder rest
]

-- The folder of a verdict, and whether the event tells of a quarantine; nothing for a rejection.
abbrev pub filing : Verdict → Option (String × Bool)
filing accept = some ("INBOX", false)
filing quarantine = some ("Quarantine", true)
filing reject = none

module _ (store : Store) (ctx : Context) (body : String) where
  -- The writes of the body to these places, in order, took the store from one state to another.
  pub data Written : List (String × String) → store.State → store.State → Type 0 where
    nothing : (s : store.State) → Written [] s s
    one_more :
        (vhost mailbox : String) (rest : List (String × String)) (s s' : store.State)
        (ref : MessageRef)
        → (store.write ctx vhost mailbox body s).0 ≡ ok ref
        → Written rest (store.write ctx vhost mailbox body s).1 s'
        → Written ((vhost, mailbox) ∷ rest) s s'

  -- The writes succeeded up to one that failed.
  pub data Broken : List (String × String) → store.State → store.State → Type 0 where
    here :
        (vhost mailbox : String) (rest : List (String × String)) (s : store.State) (e : Error)
        → (store.write ctx vhost mailbox body s).0 ≡ err e
        → Broken ((vhost, mailbox) ∷ rest) s (store.write ctx vhost mailbox body s).1
    later :
        (vhost mailbox : String) (rest : List (String × String)) (s s' : store.State)
        (ref : MessageRef)
        → (store.write ctx vhost mailbox body s).0 ≡ ok ref
        → Broken rest (store.write ctx vhost mailbox body s).1 s'
        → Broken ((vhost, mailbox) ∷ rest) s s'

  -- What a run of the loop of store can end in.
  pub data Stored (at : List (String × String)) (s : store.State)
      : Option Error × store.State → Type 0 where
    all_written : (s' : store.State) → Written at s s' → Stored at s (none, s')
    broken_off :
        (s' : store.State)
        → Broken at s s'
        → Stored at s (some (refusal 451 (4, 3, 0) "temporary storage failure"), s')

module _ (p : Parts) (cfg : Config) where
  after_write :
      (ctx : Context) (body vhost mailbox : String) (at : List (String × String))
      (s : p.store.State) (ref : MessageRef) {r : Option Error × p.store.State}
      → (p.store.write ctx vhost mailbox body s).0 ≡ ok ref
      → Stored p.store ctx body at (p.store.write ctx vhost mailbox body s).1 r
      → Stored p.store ctx body ((vhost, mailbox) ∷ at) s r
  after_write ctx body vhost mailbox at s ref e (all_written s' w) =
      all_written s' (one_more vhost mailbox at s s' ref e w)
  after_write ctx body vhost mailbox at s ref e (broken_off s' b) =
      broken_off s' (later vhost mailbox at s s' ref e b)

  store_all-Stored :
      (ctx : Context) (body folder : String) (rcpts : List (String × Vhost)) (s : p.store.State)
      → Stored p.store ctx body (places folder rcpts) s (store_all p cfg ctx body folder rcpts s)
  unfolding store_all
  store_all-Stored ctx body folder [] s = all_written s (nothing s)
  store_all-Stored ctx body folder ((to, v) ∷ rest) s = elim (Option-cases (parse_address to)) [
    | inl e ↦ rw (e, store_all, places) (store_all-Stored ctx body folder rest s)
    | inr ((local, domain), e) ↦
        elim (Result-cases (p.store.write ctx v.domain (mailbox_path local folder) body s).0) [
          | inl (ref, f) ↦
              rw (e, f, store_all, places)
                (after_write ctx body v.domain (mailbox_path local folder) (places folder rest) s
                  ref f (store_all-Stored ctx body folder rest _))
          | inr (x, f) ↦ rw (e, f, store_all, places) (broken_off _ (here _ _ _ s x f))
        ]
  ]

  -- The events of these groups, under consecutive UUIDs from the n-th on.
  abbrev pub events_of :
      Session p → Bool → ℕ → (ℕ → String) → ℕ → List (String × List String) → List Fired
  events_of s is_quarantined now uuids n [] = []
  events_of s is_quarantined now uuids n ((domain, rcpts) ∷ groups) =
      record {
        ctx = background s.correlation_id;
        vhost = domain;
        event_type = "message.received";
        payload = record {
          event_id = uuids n;
          event_type = "message.received";
          vhost = domain;
          created_at = now;
          content = received_data s.from rcpts is_quarantined;
        };
      }
      ∷ events_of s is_quarantined now uuids (suc n) groups

  -- With webhooks, one message.received for each vhost of the recipients, with its recipients.
  abbrev pub Announced : Session p → Bool → ℕ → (ℕ → String) → List Fired → List Fired → Type 0
  Announced s is_quarantined now uuids old new =
      ((cfg.webhooks ≡ false) × (new ≡ old))
      ⊎ ((cfg.webhooks ≡ true)
          × ((groups : List (String × List String)) × IsGrouping s.rcpts groups
              × (new ≡ old ++ events_of s is_quarantined now uuids 0 groups)))

  received_events_of :
      (s : Session p) (is_quarantined : Bool) (now : ℕ) (uuids : ℕ → String) (n : ℕ)
      (groups : List (String × List String))
      → received_events (background s.correlation_id) s.from is_quarantined now uuids n groups
        ≡ events_of s is_quarantined now uuids n groups
  unfolding received_events received_event new_event_payload
  received_events_of s is_quarantined now uuids n [] = refl
  received_events_of s is_quarantined now uuids n ((domain, rcpts) ∷ groups) =
      rw (received_events_of s is_quarantined now uuids (suc n) groups) refl

  fire_received-Announced :
      (s : Session p) (is_quarantined : Bool) (now : ℕ) (uuids : ℕ → String) (log : List Fired)
      → Announced s is_quarantined now uuids log
          (fire_received p cfg (background s.correlation_id) s is_quarantined now uuids log)
  unfolding fire_received
  fire_received-Announced s is_quarantined now uuids log = elim (Bool-cases cfg.webhooks) [
    | inr off ↦ inl (off, rw (off, fire_received) refl)
    | inl on ↦ inr (
      on,
      (
        by_vhost s.rcpts [],
        by_vhost-IsGrouping s.rcpts,
        rw (on, fire_received)
            (ap (λ es. log ++ es)
              (received_events_of s is_quarantined now uuids 0 (by_vhost s.rcpts []))),
      ),
    )
  ]

  -- The message that was read is within the limits of the server and of the recipients' vhosts.
  abbrev pub Readable : Result String → Session p → String → Type 0
  Readable read s body = (read ≡ ok body) × Fits body (server_limit cfg) × FitsAll body s.rcpts

  -- What a DATA command can do, by what came in, what the filter makes of it and what the store does.
  pub data Received (read : Result String) (now : ℕ) (uuids : ℕ → String) (s : Session p)
      (w : World p) : Option Error × World p → Type 0 where
    unread : (e : Error) → read ≡ err e → Received read now uuids s w (some e, w)
    too_big :
        (body : String)
        → read ≡ ok body
        → Exceeds body (server_limit cfg) ⊎ ExceedsOne body s.rcpts
        → Received read now uuids s w
            (some (refusal 552 (5, 3, 4) "message exceeds maximum size"), w)
    refused :
        (body : String)
        → Readable read s body
        → filing (evaluate p.checks (input p cfg s body)).verdict ≡ none
        → Received read now uuids s w (
          some (
              refusal 550
                (5, 7, 1)
                ("message rejected: " <> (evaluate p.checks (input p cfg s body)).reason)),
          w,
        )
    filed :
        (body folder : String) (is_quarantined : Bool) (stored : p.store.State) (fired : List Fired)
        → Readable read s body
        → filing (evaluate p.checks (input p cfg s body)).verdict ≡ some (folder, is_quarantined)
        → Written p.store (background s.correlation_id) body (places folder s.rcpts) w.stored stored
        → Announced s is_quarantined now uuids w.fired fired
        → Received read now uuids s w (none, record w { stored = stored; fired = fired })
    broken :
        (body folder : String) (is_quarantined : Bool) (stored : p.store.State)
        → Readable read s body
        → filing (evaluate p.checks (input p cfg s body)).verdict ≡ some (folder, is_quarantined)
        → Broken p.store (background s.correlation_id) body (places folder s.rcpts) w.stored stored
        → Received read now uuids s w
            (some (refusal 451 (4, 3, 0) "temporary storage failure"), record w { stored = stored })

  module _ (read : Result String) (now : ℕ) (uuids : ℕ → String) (s : Session p) (w : World p) where
    after_store-Received :
        (body folder : String) (is_quarantined : Bool) {r : Option Error × p.store.State}
        → Readable read s body
        → filing (evaluate p.checks (input p cfg s body)).verdict ≡ some (folder, is_quarantined)
        → Stored p.store (background s.correlation_id) body (places folder s.rcpts) w.stored r
        → Received read now uuids s w
            (after_store p cfg (background s.correlation_id) s is_quarantined now uuids w r)
    unfolding after_store
    after_store-Received body folder q e v (all_written stored x) =
        filed body folder q stored _ e v x (fire_received-Announced s q now uuids w.fired)
    after_store-Received body folder q e v (broken_off stored x) = broken body folder q stored e v x

    act_on-Received :
        (body : String) (verdict : Verdict)
        → Readable read s body
        → (evaluate p.checks (input p cfg s body)).verdict ≡ verdict
        → Received read now uuids s w (
            act_on p cfg
              (background s.correlation_id)
              s
              now
              uuids
              w
              body
              (evaluate p.checks (input p cfg s body)).reason
              verdict)
    unfolding act_on
    act_on-Received body reject e v = refused body e (ap filing v)
    act_on-Received body quarantine e v =
        after_store-Received body "Quarantine" true e (ap filing v)
          (store_all-Stored _ body "Quarantine" s.rcpts w.stored)
    act_on-Received body accept e v =
        after_store-Received body "INBOX" false e (ap filing v)
          (store_all-Stored _ body "INBOX" s.rcpts w.stored)

    read-Received :
        (r : Result String)
        → read ≡ r
        → Received read now uuids s w (elim (read_bounded r (effective_max_bytes cfg s.rcpts)) [
          | err e ↦ (some e, w)
          | ok body ↦
              let outcome = evaluate p.checks (input p cfg s body) in
              act_on p cfg
                (background s.correlation_id)
                s
                now
                uuids
                w
                body
                outcome.reason
                outcome.verdict
        ])
    unfolding read_bounded
    read-Received (err x) e = unread x e
    read-Received (ok body) e =
        elim (Bool-cases (ltb_ℤ (effective_max_bytes cfg s.rcpts) (pos (len body)))) [
          | inl big ↦
              rw (big, read_bounded) (too_big body e (effective-Exceeds body cfg s.rcpts big))
          | inr small ↦
              rw (small, read_bounded)
                (act_on-Received body _
                  (let (server, all) = effective-Fits body cfg s.rcpts small in (e, server, all))
                  refl)
        ]

    -- DATA answers the reader's error for a message that cannot be read, 552 for one that is larger than
    -- the server's limit or than that of a recipient's vhost, and 550 for one that the filter
    -- rejects: nothing is stored and no event is fired. An accepted message is written, in order, to
    -- the INBOX of each recipient at that recipient's vhost, a quarantined one to the Quarantine
    -- mailbox, and only after all writes succeeded is one message.received fired for each vhost of the
    -- recipients, with its recipients in order, if webhooks are set. When a write fails the answer is
    -- 451, nothing is written after it, and no event is fired.
    pub receive-Received : Received read now uuids s w (receive p cfg read now uuids s w)
    unfolding receive
    receive-Received = read-Received read refl
