-- ===== src/Smtp/Inbound/Events.antt =====
-- The grouping of recipients in fireReceived.
use envelope.Prelude.{
  ◌≡◌, ◌≢◌, refl, sym, Option, none, some, String, ◌=ₛ◌, eq_iff, List, [], ◌∷◌, ◌++◌, arith,
  if◌then◌else◌, Bool-cases, inl, inr,
}
use mathlib.Core.List.{append_assoc, append-nil}
use envelope.Prelude.Dict.{Dict, lookup, Unique}
use envelope.Directory.{Vhost}
use envelope.Smtp.Inbound.{add_recipient, by_vhost}

-- A group, empty where the vhost has none.
abbrev pub or_empty : Option (List String) → List String
or_empty none = []
or_empty (some rcpts) = rcpts

-- The recipients at vhosts of this domain, in their order.
abbrev pub rcpts_of : String → List (String × Vhost) → List String
rcpts_of d [] = []
rcpts_of d ((to, v) ∷ rest) =
    let others = rcpts_of d rest in if v.domain =ₛ d then to ∷ others else others

lookup-add_recipient :
    (d domain to : String) (groups : Dict (List String))
    → lookup d (add_recipient domain to groups)
      ≡ (if domain =ₛ d then some (or_empty (lookup d groups) ++ to ∷ []) else lookup d groups)
unfolding lookup add_recipient
lookup-add_recipient d domain to [] = refl
lookup-add_recipient d domain to ((k, rcpts) ∷ groups) =
    ground
      (arith, eq_iff k domain, eq_iff k d, eq_iff domain d, lookup-add_recipient d domain to groups)

add_recipient-Unique :
    (domain to : String) (groups : Dict (List String))
    → Unique groups
    → Unique (add_recipient domain to groups)
unfolding add_recipient lookup
add_recipient-Unique domain to [] _ = (refl, tt)
add_recipient-Unique domain to ((k, rcpts) ∷ groups) (h, hs) = elim (Bool-cases (k =ₛ domain)) [
  | inl e ↦ rw (e, add_recipient) (h, hs)
  | inr e ↦
      rw (e, add_recipient)
        (
          ground
              (arith, lookup-add_recipient k domain to groups, eq_iff domain k, eq_iff k domain, e),
          add_recipient-Unique domain to groups hs,
        )
]

by_vhost-Unique_onto :
    (rcpts : List (String × Vhost)) (groups : Dict (List String))
    → Unique groups
    → Unique (by_vhost rcpts groups)
unfolding by_vhost
by_vhost-Unique_onto [] groups h = h
by_vhost-Unique_onto ((to, v) ∷ rest) groups h =
    by_vhost-Unique_onto rest _ (add_recipient-Unique v.domain to groups h)

by_vhost-onto :
    (d : String) (rcpts : List (String × Vhost)) (groups : Dict (List String))
    → or_empty (lookup d (by_vhost rcpts groups)) ≡ or_empty (lookup d groups) ++ rcpts_of d rcpts
unfolding by_vhost
by_vhost-onto d [] groups = sym (append-nil _)
by_vhost-onto d ((to, v) ∷ rest) groups = elim (Bool-cases (v.domain =ₛ d)) [
  | inl e ↦
      rw
        (
          by_vhost-onto d rest (add_recipient v.domain to groups),
          lookup-add_recipient d v.domain to groups,
          e,
        )
        (append_assoc (or_empty (lookup d groups)) (to ∷ []) (rcpts_of d rest))
  | inr e ↦
      rw
        (
          by_vhost-onto d rest (add_recipient v.domain to groups),
          lookup-add_recipient d v.domain to groups,
          e,
        )
        refl
]

-- Every group has a recipient.
abbrev pub NoneEmpty : Dict (List String) → Type 0
NoneEmpty [] = Unit
NoneEmpty ((d, rcpts) ∷ groups) = (rcpts ≢ []) × NoneEmpty groups

append_one-filled : (rcpts : List String) (to : String) → rcpts ++ to ∷ [] ≢ []
append_one-filled [] to h = absurd (cc h)
append_one-filled (x ∷ rcpts) to h = absurd (cc h)

add_recipient-NoneEmpty :
    (domain to : String) (groups : Dict (List String))
    → NoneEmpty groups
    → NoneEmpty (add_recipient domain to groups)
unfolding add_recipient
add_recipient-NoneEmpty domain to [] h = (append_one-filled [] to, tt)
add_recipient-NoneEmpty domain to ((k, rcpts) ∷ groups) (h, hs) = elim (Bool-cases (k =ₛ domain)) [
  | inl e ↦ rw (e, add_recipient) (append_one-filled rcpts to, hs)
  | inr e ↦ rw (e, add_recipient) (h, add_recipient-NoneEmpty domain to groups hs)
]

by_vhost-NoneEmpty :
    (rcpts : List (String × Vhost)) (groups : Dict (List String))
    → NoneEmpty groups
    → NoneEmpty (by_vhost rcpts groups)
unfolding by_vhost
by_vhost-NoneEmpty [] groups h = h
by_vhost-NoneEmpty ((to, v) ∷ rest) groups h =
    by_vhost-NoneEmpty rest _ (add_recipient-NoneEmpty v.domain to groups h)

-- The groups of these recipients: no vhost has two, none is empty, and the group of a domain holds
-- exactly the recipients at that vhost, in the order of RCPT.
pub record IsGrouping (rcpts : List (String × Vhost)) (groups : Dict (List String)) : Type 0 where
  pub distinct : Unique groups
  pub none_empty : NoneEmpty groups
  pub exact : (d : String) → or_empty (lookup d groups) ≡ rcpts_of d rcpts

-- recipientsByVhost gives such groups.
pub by_vhost-IsGrouping : (rcpts : List (String × Vhost)) → IsGrouping rcpts (by_vhost rcpts [])
unfolding lookup
by_vhost-IsGrouping rcpts = record {
  distinct = by_vhost-Unique_onto rcpts [] tt;
  none_empty = by_vhost-NoneEmpty rcpts [] tt;
  exact = λ d. by_vhost-onto d rcpts [];
}
