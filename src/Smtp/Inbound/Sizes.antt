-- ===== src/Smtp/Inbound/Sizes.antt =====
-- The size limits of a transaction: the server's and those of the recipients' vhosts.
use Prim.Native.String.{len}
use envelope.Prelude.{
  ◌≡◌, ◌⊎◌, inl, inr, ℤ, pos, ltb_ℤ, is_positive, true, false, Bool-cases, String, List, [], ◌∷◌,
  arith, if◌then◌else◌,
}
use envelope.Directory.{Vhost}
use envelope.Smtp.{Config}
use envelope.Smtp.Inbound.{effective_max_bytes, tightest, smaller_limit}

abbrev pub Fits : String → ℤ → Type 0
Fits body limit = ltb_ℤ limit (pos (len body)) ≡ false

abbrev pub Exceeds : String → ℤ → Type 0
Exceeds body limit = ltb_ℤ limit (pos (len body)) ≡ true

-- The body is within the limit of every recipient's vhost that has one.
abbrev pub FitsAll : String → List (String × Vhost) → Type 0
FitsAll body [] = Unit
FitsAll body ((to, v) ∷ rest) =
    ((is_positive v.max_message_bytes ≡ false) ⊎ Fits body v.max_message_bytes) × FitsAll body rest

-- It is above the limit of some recipient's vhost.
abbrev pub ExceedsOne : String → List (String × Vhost) → Type 0
ExceedsOne body [] = ⊥
ExceedsOne body ((to, v) ∷ rest) =
    ((is_positive v.max_message_bytes ≡ true) × Exceeds body v.max_message_bytes)
    ⊎ ExceedsOne body rest

-- The server's own limit: 25 MiB if none is configured.
abbrev pub server_limit : Config → ℤ
server_limit cfg =
    if is_positive cfg.max_message_bytes then cfg.max_message_bytes else pos 26_214_400

smaller_limit-Fits :
    (body : String) (own limit : ℤ)
    → Fits body (smaller_limit own limit)
    → ((is_positive own ≡ false) ⊎ Fits body own) × Fits body limit
unfolding smaller_limit
smaller_limit-Fits body own limit h = elim (Bool-cases (is_positive own)) [
  | inr none_set ↦ (inl none_set, ground (arith, h, none_set))
  | inl set ↦ elim (Bool-cases (ltb_ℤ own limit)) [
    | inl less ↦ (inr (ground (arith, h, set, less)), ground (arith, h, set, less))
    | inr more ↦ (inr (ground (arith, h, set, more)), ground (arith, h, set, more))
  ]
]

smaller_limit-Exceeds :
    (body : String) (own limit : ℤ)
    → Exceeds body (smaller_limit own limit)
    → ((is_positive own ≡ true) × Exceeds body own) ⊎ Exceeds body limit
unfolding smaller_limit
smaller_limit-Exceeds body own limit h = elim (Bool-cases (is_positive own)) [
  | inr none_set ↦ inr (ground (arith, h, none_set))
  | inl set ↦ elim (Bool-cases (ltb_ℤ own limit)) [
    | inl less ↦ inl (set, ground (arith, h, set, less))
    | inr more ↦ inr (ground (arith, h, set, more))
  ]
]

tightest-Fits :
    (body : String) (limit : ℤ) (rcpts : List (String × Vhost))
    → Fits body (tightest limit rcpts)
    → Fits body limit × FitsAll body rcpts
unfolding tightest
tightest-Fits body limit [] h = (h, tt)
tightest-Fits body limit ((to, v) ∷ rest) h =
    let (here, others) = tightest-Fits body (smaller_limit v.max_message_bytes limit) rest h in
    let (own, outer) = smaller_limit-Fits body v.max_message_bytes limit here in
    (outer, (own, others))

tightest-Exceeds :
    (body : String) (limit : ℤ) (rcpts : List (String × Vhost))
    → Exceeds body (tightest limit rcpts)
    → Exceeds body limit ⊎ ExceedsOne body rcpts
unfolding tightest
tightest-Exceeds body limit [] h = inl h
tightest-Exceeds body limit ((to, v) ∷ rest) h =
    elim (tightest-Exceeds body (smaller_limit v.max_message_bytes limit) rest h) [
      | inr others ↦ inr (inr others)
      | inl here ↦ elim (smaller_limit-Exceeds body v.max_message_bytes limit here) [
        | inl own ↦ inr (inl own)
        | inr outer ↦ inl outer
      ]
    ]

-- The smallest limit is kept exactly when all are.
pub effective-Fits :
    (body : String) (cfg : Config) (rcpts : List (String × Vhost))
    → Fits body (effective_max_bytes cfg rcpts)
    → Fits body (server_limit cfg) × FitsAll body rcpts
unfolding effective_max_bytes
effective-Fits body cfg rcpts h = tightest-Fits body (server_limit cfg) rcpts h

pub effective-Exceeds :
    (body : String) (cfg : Config) (rcpts : List (String × Vhost))
    → Exceeds body (effective_max_bytes cfg rcpts)
    → Exceeds body (server_limit cfg) ⊎ ExceedsOne body rcpts
unfolding effective_max_bytes
effective-Exceeds body cfg rcpts h = tightest-Exceeds body (server_limit cfg) rcpts h
