-- ===== src/Smtp/Inbound/Relay.antt =====
-- A session over a sequence of commands: whom it can have as recipients.
use envelope.Prelude.{
  ◌≡◌, ℕ, true, some, Option-cases, Bool-cases, inl, inr, String, List, [], ◌∷◌, ◌++◌, All,
}
use envelope.Context.{background, Result}
use envelope.Directory.{Vhost, parse_address}
use envelope.Smtp.{Config}
use envelope.Smtp.Inbound.{
  Parts, Session, World, check_rate_limit, new_session, reset, mail, rcpt, receive,
}

-- What a client can send; the fresh identifiers and the time come with the command.
pub data Command : Type 0 where
  mails : String → String → Command
  rcpts : String → Command
  datas : Result String → ℕ → (ℕ → String) → Command
  resets : Command

-- A recipient at a domain that is hosted and active, with its vhost.
pub record IsHosted (p : Parts) (r : String × Vhost) : Type 0 where
  pub local : String
  pub domain : String
  pub parsed : parse_address r.0 ≡ some (local, domain)
  pub found : p.dir.vhost domain ≡ some r.1
  pub active : r.1.active ≡ true

All-append :
    {A : Type 0} (P : A → Type 0) (xs : List A) (y : A) → All P xs → P y → All P (xs ++ y ∷ [])
All-append P [] y _ k = (k, tt)
All-append P (x ∷ xs) y (h, hs) k = (h, All-append P xs y hs k)

module _ (p : Parts) (cfg : Config) where
  -- The session after a command; go-smtp resets it after DATA.
  unfoldable pub step : Command → Session p × World p → Session p × World p
  step (mails id from) (s, w) = let r = mail p cfg id from s w in (r.1, r.2)
  step (rcpts to) (s, w) = ((rcpt p cfg to s).1, w)
  step (datas read now uuids) (s, w) = (reset p cfg s, (receive p cfg read now uuids s w).1)
  step resets (s, w) = (reset p cfg s, w)

  unfoldable pub run : List Command → Session p × World p → Session p × World p
  run [] c = c
  run (x ∷ xs) c = run xs (step x c)

  Hosted : Session p → Type 0
  Hosted s = All (IsHosted p) s.rcpts

  rcpt-Hosted : (to : String) (s : Session p) → Hosted s → Hosted (rcpt p cfg to s).1
  unfolding rcpt Hosted
  rcpt-Hosted to s h = elim (Option-cases (parse_address to)) [
    | inl e ↦ rw (e, rcpt) h
    | inr ((local, domain), e) ↦ elim (Option-cases (p.dir.vhost domain)) [
      | inl f ↦ rw (e, f, rcpt) h
      | inr (v, f) ↦ elim (Bool-cases v.active) [
        | inl g ↦
            simp (e, f, g, rcpt)
              (All-append _ s.rcpts (to, v) h
                (record { local = local; domain = domain; parsed = e; found = f; active = g }))
        | inr g ↦ simp (e, f, g, rcpt) h
      ]
    ]
  ]

  mail-Hosted :
      (id from : String) (s : Session p) (w : World p)
      → Hosted s
      → Hosted (mail p cfg id from s w).1
  unfolding mail Hosted
  mail-Hosted id from s w h =
      elim (Option-cases
        (check_rate_limit p cfg (background "") (record s { correlation_id = id }) from
          w.buckets).0) [ inl e ↦ rw (e, mail) h | inr (x, e) ↦ rw (e, mail) h ]

  step-Hosted : (x : Command) (c : Session p × World p) → Hosted c.0 → Hosted (step x c).0
  unfolding step reset Hosted
  step-Hosted (mails id from) (s, w) h = mail-Hosted id from s w h
  step-Hosted (rcpts to) (s, w) h = rcpt-Hosted to s h
  step-Hosted (datas read now uuids) (s, w) h = tt
  step-Hosted resets (s, w) h = tt

  run-Hosted : (xs : List Command) (c : Session p × World p) → Hosted c.0 → Hosted (run xs c).0
  unfolding run
  run-Hosted [] c h = h
  run-Hosted (x ∷ xs) c h = run-Hosted xs (step x c) (step-Hosted x c h)

  -- Whatever commands a client sends to a new session, every recipient that the session holds is an
  -- address whose domain the directory hosts, with the vhost that the directory gave for it, which
  -- was active: the inbound server relays for nobody.
  pub run-rcpts-IsHosted :
      (client_ip : p.checks.Ip) (helo_domain : String) (xs : List Command) (w : World p)
      → All (IsHosted p) (run xs (new_session p cfg client_ip helo_domain, w)).0.rcpts
  unfolding Hosted new_session
  run-rcpts-IsHosted client_ip helo_domain xs w = run-Hosted xs _ tt
