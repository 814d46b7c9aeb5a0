-- ===== src/Uuids.antt =====
-- Identifiers from github.com/google/uuid, by the number of the call.
use envelope.Prelude.{ℕ, ◌<◌, ◌≡◌, ◌≢◌, String, ◌=ₛ◌, eq_iff, some, arith, if◌then◌else◌}
use envelope.Prelude.Dict.{Dict, lookup}

-- What the package documents: none is empty, and no two are the same.
pub record AreFresh (uuids : ℕ → String) : Type 0 where
  pub not_empty : (n : ℕ) → uuids n ≢ ""
  pub distinct : (m n : ℕ) → uuids m ≡ uuids n → m ≡ n

pub other_uuid :
    {A : Type 0} {uuids : ℕ → String} (fresh : AreFresh uuids) (m n : ℕ) (jobs : Dict A) (j : A)
    → m < n
    → (if uuids n =ₛ uuids m then some j else lookup (uuids m) jobs) ≡ lookup (uuids m) jobs
other_uuid {uuids = uuids} fresh m n jobs j l =
    ground (arith, l, eq_iff (uuids n) (uuids m), fresh.distinct n m)
