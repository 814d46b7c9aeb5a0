-- ===== src/Deliverer/Semaphore.antt =====
-- internal/deliverer/semaphore.go: a buffered channel for each destination domain, as the number of
-- slots taken. A goroutine that finds the channel full waits, which leaves the state as it is.
pub mod Limit
use envelope.Prelude.{
  ℕ, ◌+◌, ◌-◌, ℤ, pos_part, is_positive, ltb, Bool, true, false, Option, none, some, String, ◌≡◌,
  List, [], ◌∷◌, ◌++◌, if◌then◌else◌,
}
use envelope.Prelude.Dict.{Dict, lookup, insert}

pub record DomainSemaphores : Type 0 where
  pub sems : Dict ℕ
  pub limit : ℕ

unfoldable pub new_domain_semaphores : ℤ → DomainSemaphores
new_domain_semaphores limit = record {
  sems = [];
  limit = if is_positive limit then pos_part limit else 1;
}

abbrev or_zero : Option ℕ → ℕ
or_zero none = 0
or_zero (some n) = n

-- The slots taken; a channel that is not made yet has none.
unfoldable pub taken : String → DomainSemaphores → ℕ
taken domain d = or_zero (lookup domain d.sems)

-- The send `sem <- struct{}{}`: `none` while the channel is full.
unfoldable pub acquire : String → DomainSemaphores → Option DomainSemaphores
unfolding taken
acquire domain d =
    if ltb (taken domain d) d.limit
    then some (record d { sems = insert domain (taken domain d + 1) d.sems })
    else none

-- The receive of the release function.
unfoldable pub release : String → DomainSemaphores → DomainSemaphores
unfolding taken
release domain d = record d { sems = insert domain (taken domain d - 1) d.sems }

-- The goroutines of Run that are between acquire and release, by their domains.
pub record Running : Type 0 where
  pub slots : DomainSemaphores
  pub domains : List String

-- One goroutine gets on: it enters, it leaves, or its context is cancelled while it waits.
pub data Step : Running → Running → Type 0 where
  enters :
      (domain : String) {s : Running} {d : DomainSemaphores}
      → acquire domain s.slots ≡ some d
      → Step s (record { slots = d; domains = domain ∷ s.domains })
  leaves :
      (front : List String) (domain : String) (back : List String) {s : Running}
      → s.domains ≡ front ++ domain ∷ back
      → Step s (record { slots = release domain s.slots; domains = front ++ back })
  cancelled : {s : Running} → Step s s

pub data Reach (s : Running) : Running → Type 0 where
  here : Reach s s
  next : {t u : Running} → Reach s t → Step t u → Reach s u

unfoldable pub start : ℤ → Running
start limit = record { slots = new_domain_semaphores limit; domains = [] }
