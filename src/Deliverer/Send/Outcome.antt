-- ===== src/Deliverer/Send/Outcome.antt =====
-- The loop of send over the MX hosts.
use envelope.Prelude.{
  ℕ, suc, ◌≡◌, refl, Bool, true, false, Option, none, some, String, List, [], ◌∷◌, ◌++◌, ap, All,
  Bool-cases, Option-cases, inl, inr, ◌≢◌,
}
use envelope.Context.{SmtpError, Error}
use envelope.Queue.{Job}
use envelope.Deliverer.Config.{Config}
use envelope.Deliverer.Classify.{is_permanent}
use envelope.Deliverer.Send.{Mx, Network, send_to_host, send_from, send}

module _ (nets : ℕ → Network) (temporary : SmtpError → Bool) where
  -- What each host would answer, in the order of the hosts.
  pub answers_from : ℕ → List Mx → Config → Job → String → List (Option Error)
  answers_from n [] cfg job body = []
  answers_from n (mx ∷ mxs) cfg job body =
      send_to_host (nets n) temporary cfg mx.host job body ∷ answers_from (suc n) mxs cfg job body

-- A failure after which the next host is tried.
abbrev pub IsDeferral : (SmtpError → Bool) → Option Error → Type 0
IsDeferral temporary none = ⊥
IsDeferral temporary (some e) = is_permanent temporary e ≡ false

-- The outcome of the answers that the hosts give, in their order.
pub data Sent (temporary : SmtpError → Bool) (answers : List (Option Error))
    : Option Error → Type 0 where
  delivered :
      (front back : List (Option Error))
      → answers ≡ front ++ (none ∷ back)
      → All (IsDeferral temporary) front
      → Sent temporary answers none
  refused :
      (front back : List (Option Error)) (e : Error)
      → answers ≡ front ++ (some e ∷ back)
      → All (IsDeferral temporary) front
      → is_permanent temporary e ≡ true
      → Sent temporary answers (some e)
  deferred :
      (front : List (Option Error)) (e : Error)
      → answers ≡ front ++ (some e ∷ [])
      → All (IsDeferral temporary) answers
      → Sent temporary answers (some e)
  no_host : answers ≡ [] → Sent temporary answers none

-- One more host in front, which defers.
Sent-cons :
    (temporary : SmtpError → Bool) (e : Error) (answers : List (Option Error)) {r : Option Error}
    → is_permanent temporary e ≡ false
    → answers ≢ []
    → Sent temporary answers r
    → Sent temporary (some e ∷ answers) r
Sent-cons temporary e answers soft some_host (delivered front back split hs) =
    delivered (some e ∷ front) back (ap (◌∷◌ (some e)) split) (soft, hs)
Sent-cons temporary e answers soft some_host (refused front back f split hs hard) =
    refused (some e ∷ front) back f (ap (◌∷◌ (some e)) split) (soft, hs) hard
Sent-cons temporary e answers soft some_host (deferred front f split hs) =
    deferred (some e ∷ front) f (ap (◌∷◌ (some e)) split) (soft, hs)
Sent-cons temporary e answers soft some_host (no_host empty) = absurd (some_host empty)

module _ (nets : ℕ → Network) (temporary : SmtpError → Bool) where
  -- The first host decides, or defers to the others.
  first_host :
      (n : ℕ) (mx : Mx) (mxs : List Mx) (cfg : Config) (job : Job) (body : String)
      (last : Option Error)
      → ((e : Error)
          → is_permanent temporary e ≡ false
          → Sent temporary
              (some e ∷ answers_from nets temporary (suc n) mxs cfg job body)
              (send_from nets temporary (suc n) mxs cfg job body (some e)))
      → Sent temporary
          (answers_from nets temporary n (mx ∷ mxs) cfg job body)
          (send_from nets temporary n (mx ∷ mxs) cfg job body last)
  unfolding answers_from send_from
  first_host n mx mxs cfg job body last next =
      elim (Option-cases (send_to_host (nets n) temporary cfg mx.host job body)) [
        | inl sent ↦ rw (sent, send_from) (delivered [] _ refl tt)
        | inr (e, failed) ↦ elim (Bool-cases (is_permanent temporary e)) [
          | inl hard ↦ rw (failed, hard, send_from) (refused [] _ e refl tt hard)
          | inr soft ↦ rw (failed, soft, send_from) (next e soft)
        ]
      ]

  send_from-Sent :
      (n : ℕ) (mx : Mx) (mxs : List Mx) (cfg : Config) (job : Job) (body : String)
      (last : Option Error)
      → Sent temporary
          (answers_from nets temporary n (mx ∷ mxs) cfg job body)
          (send_from nets temporary n (mx ∷ mxs) cfg job body last)
  send_from-Sent n mx [] cfg job body last =
      first_host n mx [] cfg job body last
        (λ e soft. unfold answers_from send_from in deferred [] e refl (soft, tt))
  send_from-Sent n mx (y ∷ ys) cfg job body last =
      let rest = λ (e : Error). send_from-Sent (suc n) y ys cfg job body (some e) in
      first_host n mx (y ∷ ys) cfg job body last
        (λ e soft. Sent-cons temporary e _ soft (unfold answers_from in (λ h. cc)) (rest e))

  -- send tries the hosts in order: it succeeds at the first host that takes the message after hosts
  -- that only deferred, fails for good at the first permanent refusal after such hosts, and
  -- otherwise returns the failure of the last host, none of the hosts having refused for good.
  pub send-Sent :
      (mxs : List Mx) (cfg : Config) (job : Job) (body : String)
      → Sent temporary
          (answers_from nets temporary 0 mxs cfg job body)
          (send nets temporary mxs cfg job body)
  unfolding send answers_from
  send-Sent [] cfg job body = no_host refl
  send-Sent (mx ∷ mxs) cfg job body = send_from-Sent 0 mx mxs cfg job body none
