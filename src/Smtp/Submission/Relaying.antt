-- ===== src/Smtp/Submission/Relaying.antt =====
-- A submission session over a sequence of commands: who can have set its sender.
use envelope.Prelude.{
  ◌≡◌, ◌≢◌, refl, true, Bool-cases, some, Option-cases, inl, inr, String, ◌=ₛ◌, eq_iff, List, [],
  ◌∷◌, arith,
}
use envelope.Directory.{parse_address}
use envelope.Directory.Addresses.{parse_address_iff}
use envelope.Smtp.{Config}
use envelope.Smtp.Submission.{
  Parts, Session, authentication_required, new_session, reset, mail, rcpt, auth,
}

-- What a client can send before DATA; the fresh correlation ID comes with MAIL.
pub data Command : Type 0 where
  auths : String → String → Command
  mails : String → String → Command
  rcpts : String → Command
  resets : Command

anonymous_mail :
    (id from : String) (s : Session)
    → s.auth_local ≡ ""
    → mail id from s ≡ (some authentication_required, s)
unfolding mail
anonymous_mail id from s e = elim (Bool-cases (s.auth_local =ₛ "")) [
  | inl f ↦ simp (f, mail) refl
  | inr f ↦ ground (arith, f, e, eq_iff s.auth_local "")
]

module _ (p : Parts) (cfg : Config) where
  unfoldable pub step : Command → Session → Session
  step (auths username password) s = (auth p cfg username password s).1
  step (mails id from) s = (mail id from s).1
  step (rcpts to) s = (rcpt to s).1
  step resets s = reset s

  unfoldable pub run : List Command → Session → Session
  run [] s = s
  run (x ∷ xs) s = run xs (step x s)

  -- Nobody has logged in and MAIL has set nothing, or the directory took a password for the identity.
  pub data IsAuthentic (s : Session) : Type 0 where
    anonymous : s.auth_local ≡ "" → s.auth_vhost ≡ "" → s.from ≡ "" → IsAuthentic s
    known :
        (password : String)
        → p.dir.authenticate s.auth_vhost s.auth_local password ≡ true
        → s.auth_local ≢ ""
        → IsAuthentic s

  auth-IsAuthentic :
      (username password : String) (s : Session)
      → IsAuthentic s
      → IsAuthentic (auth p cfg username password s).1
  unfolding auth
  auth-IsAuthentic username password s h = elim (Option-cases (parse_address username)) [
    | inl e ↦ rw (e, auth) h
    | inr ((local, vhost), e) ↦ elim (Bool-cases (p.dir.authenticate vhost local password)) [
      | inl f ↦ rw (e, f, auth) (known password f ((parse_address_iff username local vhost).0 e).2)
      | inr f ↦ rw (e, f, auth) h
    ]
  ]

  mail-IsAuthentic :
      (id from : String) (s : Session) → IsAuthentic s → IsAuthentic (mail id from s).1
  unfolding mail
  mail-IsAuthentic id from s (anonymous e f g) = rw (anonymous_mail id from s e) (anonymous e f g)
  mail-IsAuthentic id from s (known password e n) = elim (Bool-cases (s.auth_local =ₛ "")) [
    | inl f ↦ absurd (n ((eq_iff s.auth_local "").0 f))
    | inr f ↦ simp (f, mail) (known password e n)
  ]

  step-IsAuthentic : (x : Command) (s : Session) → IsAuthentic s → IsAuthentic (step x s)
  unfolding step reset rcpt
  step-IsAuthentic (auths username password) s h = auth-IsAuthentic username password s h
  step-IsAuthentic (mails id from) s h = mail-IsAuthentic id from s h
  step-IsAuthentic (rcpts to) s (anonymous e f g) = anonymous e f g
  step-IsAuthentic (rcpts to) s (known password e n) = known password e n
  step-IsAuthentic resets s (anonymous e f g) = anonymous e f refl
  step-IsAuthentic resets s (known password e n) = known password e n

  run-IsAuthentic_from : (xs : List Command) (s : Session) → IsAuthentic s → IsAuthentic (run xs s)
  unfolding run
  run-IsAuthentic_from [] s h = h
  run-IsAuthentic_from (x ∷ xs) s h = run-IsAuthentic_from xs (step x s) (step-IsAuthentic x s h)

  -- Whatever commands a client sends, the session is anonymous, and then
  -- no sender is set, or its mailbox and vhost are an identity whose password the directory took.
  pub run-IsAuthentic : (xs : List Command) → IsAuthentic (run xs new_session)
  unfolding new_session
  run-IsAuthentic xs = run-IsAuthentic_from xs _ (anonymous refl refl refl)
