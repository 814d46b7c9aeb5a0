-- ===== src/Retention.antt =====
-- internal/retention/retention.go: messages past their vhost's retention are deleted. AddDate and
-- the listing of vhosts are parameters; instants are numbers.
pub mod Pages
pub mod Spared
mod Tests
use envelope.Prelude.{
  ℕ, zero, suc, ℤ, pos, ltb, is_positive, length, Bool, true, false, not, Option, none, some,
  String, List, [], ◌∷◌, if◌then◌else◌,
}
use envelope.Context.{Context, Result, ok, err}
use envelope.Storage.{Store, MessageMeta}
use envelope.Directory.{Vhost}

abbrev pub default_retention_days : ℤ
default_retention_days = pos 90

abbrev pub default_vhost_page_size : ℕ
default_vhost_page_size = 100

-- What a Purger runs on: `list_vhosts` is ListVhosts, and `days_before` an instant some days earlier.
pub record Parts : Type 1 where
  pub store : Store
  pub list_vhosts : Context → String → ℕ → Result (List Vhost)
  pub days_before : ℤ → ℕ → ℕ

unfoldable pub default_days : ℤ → ℤ
default_days configured = if is_positive configured then configured else default_retention_days

-- The days of the vhost, or else the default.
unfoldable pub days_of : ℤ → Vhost → ℤ
days_of configured v =
    if is_positive v.retention_days then v.retention_days else default_days configured

-- A message of unknown age never expires.
unfoldable pub has_expired : ℕ → Option ℕ → Bool
has_expired cutoff none = false
has_expired cutoff (some created) = not (ltb cutoff created)

-- The cursor after a page.
unfoldable pub last_id : String → List Vhost → String
last_id id [] = id
last_id id (v ∷ rest) = last_id v.id rest

-- `now` is the clock's reading when the turn of a vhost comes.
module _ (p : Parts) (configured : ℤ) (now : Vhost → ℕ) where
  -- The loop of purgeVhost; a Delete that fails is passed over.
  unfoldable pub purge_messages : Context → ℕ → List MessageMeta → p.store.State → p.store.State
  purge_messages ctx cutoff [] s = s
  purge_messages ctx cutoff (m ∷ rest) s =
      let kept = purge_messages ctx cutoff rest s in
      let purged = purge_messages ctx cutoff rest (p.store.delete_message ctx m.ref s).1 in
      if has_expired cutoff m.created_at then purged else kept

  unfoldable pub purge_vhost : Context → Vhost → p.store.State → p.store.State
  purge_vhost ctx v s = elim (p.store.list_vhost ctx v.domain s) [
    | err e ↦ s
    | ok messages ↦ purge_messages ctx (p.days_before (days_of configured v) (now v)) messages s
  ]

  unfoldable pub purge_all : Context → List Vhost → p.store.State → p.store.State
  purge_all ctx [] s = s
  purge_all ctx (v ∷ rest) s = purge_all ctx rest (purge_vhost ctx v s)

  -- The loop of Sweep over pages of `size` vhosts.
  unfoldable pub sweep_from : ℕ → ℕ → Context → String → p.store.State → p.store.State
  sweep_from zero size ctx cursor s = s
  sweep_from (suc fuel) size ctx cursor s = elim ctx.done [
    | some e ↦ s
    | none ↦ elim (p.list_vhosts ctx cursor size) [
      | err e ↦ s
      | ok vhosts ↦
          let after = purge_all ctx vhosts s in
          let others = sweep_from fuel size ctx (last_id cursor vhosts) after in
          if ltb (length vhosts) size then after else others
    ]
  ]

  unfoldable pub sweep : ℕ → Context → p.store.State → p.store.State
  sweep fuel ctx s = sweep_from fuel default_vhost_page_size ctx "" s
