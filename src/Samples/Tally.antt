-- ===== src/Samples/Tally.antt =====
-- Distinct identifiers for the tests: tallies in place of random UUIDs.
use Prim.Native.String.{String, [], ◌∷◌}
use envelope.Prelude.{ℕ, zero, suc, ◌≡◌, ◌≢◌, ap, sym, refl, Bool, true, false}
use envelope.Uuids.{AreFresh}

pub tally : ℕ → String
tally zero = "u"
tally (suc n) = "u" ∷ tally n

abbrev is_empty : String → Bool
is_empty [] = true
is_empty (c ∷ s) = false

abbrev tail : String → String
tail [] = []
tail (c ∷ s) = s

tally-not_empty : (n : ℕ) → tally n ≢ ""
unfolding tally
tally-not_empty zero e = cc e
tally-not_empty (suc n) e = cc e

tally-distinct : (m n : ℕ) → tally m ≡ tally n → m ≡ n
unfolding tally
tally-distinct zero zero e = refl
tally-distinct zero (suc n) e = absurd (tally-not_empty n (sym (ap tail e)))
tally-distinct (suc m) zero e = absurd (tally-not_empty m (ap tail e))
tally-distinct (suc m) (suc n) e = ap suc (tally-distinct m n (ap tail e))

pub tally-AreFresh : AreFresh tally
tally-AreFresh = record { not_empty = tally-not_empty; distinct = tally-distinct }
