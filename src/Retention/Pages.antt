-- ===== src/Retention/Pages.antt =====
-- A sweep over the pages of a listing against one pass over all vhosts.
use mathlib.Core.List.{append_assoc}
use envelope.Prelude.{
  ℕ, zero, suc, ◌-◌, ◌≤◌, ◌<◌, ◌≡◌, refl, sym, ap, ◌∙◌, ℤ, ltb, length, take, drop,
  take-append-drop, Bool-cases, inl, inr, String, List, [], ◌∷◌, ◌++◌, arith,
}
use envelope.Context.{Context, background, Result, ok}
use envelope.Directory.{Vhost}
use envelope.Retention.{Parts, purge_all, last_id, sweep_from, sweep, default_vhost_page_size}

-- ListVhosts as it is documented: at this size of page it returns the first vhosts of a fixed list, or,
-- after a cursor that is the ID of one of them, the first of those that follow it.
pub record IsListing (size : ℕ) (list_vhosts : Context → String → ℕ → Result (List Vhost))
    (all : List Vhost) : Type 0 where
  pub first_page : (ctx : Context) → list_vhosts ctx "" size ≡ ok (take size all)
  pub next_page :
      (ctx : Context) (earlier : List Vhost) (v : Vhost) (later : List Vhost)
      → all ≡ earlier ++ v ∷ later
      → list_vhosts ctx v.id size ≡ ok (take size later)

short_take : {A : Type 0} (n : ℕ) (xs : List A) → length (take n xs) < n → take n xs ≡ xs
short_take zero xs h = absurd (omega (arith, h))
short_take (suc n) [] h = refl
short_take (suc n) (x ∷ xs) h = ap (◌∷◌ x) (short_take n xs (omega (arith, h)))

length-drop : {A : Type 0} (n : ℕ) (xs : List A) → length (drop n xs) ≡ length xs - n
length-drop zero xs = omega arith
length-drop (suc n) [] = omega arith
length-drop (suc n) (x ∷ xs) = omega (arith, length-drop n xs)

length-take : {A : Type 0} (n : ℕ) (xs : List A) → length (take n xs) ≤ length xs
length-take zero xs = omega arith
length-take (suc n) [] = omega arith
length-take (suc n) (x ∷ xs) = omega (arith, length-take n xs)

module _ (p : Parts) (configured : ℤ) (now : Vhost → ℕ) where
  purge_all-append :
      (ctx : Context) (vs ws : List Vhost) (s : p.store.State)
      → purge_all p configured now ctx (vs ++ ws) s
        ≡ purge_all p configured now ctx ws (purge_all p configured now ctx vs s)
  unfolding purge_all
  purge_all-append ctx [] ws s = refl
  purge_all-append ctx (v ∷ vs) ws s = purge_all-append ctx vs ws _

  module _ (size : ℕ) (all : List Vhost) (listing : IsListing size p.list_vhosts all)
      (positive : 0 < size) (correlation_id : String) where
    -- The last vhost of a page that is not empty.
    ended :
        (page later : List Vhost) (cursor : String) (earlier : List Vhost)
        → all ≡ earlier ++ (page ++ later)
        → 0 < length page
        → p.list_vhosts (background correlation_id) (last_id cursor page) size
          ≡ ok (take size later)
    unfolding last_id
    ended [] later cursor earlier e h = absurd (omega (arith, h))
    ended (v ∷ []) later cursor earlier e h =
        listing.next_page (background correlation_id) earlier v later e
    ended (v ∷ (w ∷ page)) later cursor earlier e h =
        ended (w ∷ page) later v.id (earlier ++ v ∷ [])
          (e ∙ sym (append_assoc earlier (v ∷ []) ((w ∷ page) ++ later))) (omega arith)

    sweep_from_lem :
        (fuel : ℕ) (earlier rest : List Vhost) (cursor : String) (s : p.store.State)
        → all ≡ earlier ++ rest
        → length rest < fuel
        → p.list_vhosts (background correlation_id) cursor size ≡ ok (take size rest)
        → sweep_from p configured now fuel size (background correlation_id) cursor s
          ≡ purge_all p configured now (background correlation_id) rest s
    unfolding sweep_from
    sweep_from_lem zero earlier rest cursor s e h l = absurd (omega (arith, h))
    sweep_from_lem (suc fuel) earlier rest cursor s e h l =
        elim (Bool-cases (ltb (length (take size rest)) size)) [
          | inl short ↦
              simp (l, short, sweep_from)
                (ap (λ vs. purge_all p configured now (background correlation_id) vs s)
                  (short_take size rest (ground (arith, short))))
          | inr full ↦
              let split = sym (take-append-drop size rest) in
              simp (l, full, sweep_from)
                (sweep_from_lem fuel (earlier ++ take size rest) (drop size rest)
                    (last_id cursor (take size rest)) _
                    (e
                      ∙ ap (◌++◌ earlier) split
                      ∙ sym (append_assoc earlier (take size rest) (drop size rest)))
                    (ground (arith, length-drop size rest, length-take size rest, full))
                    (ended (take size rest) (drop size rest) cursor earlier
                      (e ∙ ap (◌++◌ earlier) split) (ground (arith, full)))
                  ∙ sym (
                      purge_all-append (background correlation_id) (take size rest) (drop size rest)
                        s)
                  ∙ ap (λ vs. purge_all p configured now (background correlation_id) vs s)
                      (sym split))
        ]

  -- With more fuel than there are vhosts, under a context that is not cancelled and for a listing that
  -- does not change and does not fail, a sweep over pages does what one pass over all vhosts does: each
  -- vhost is purged once, in the order of the listing, whatever their number.
  pub sweep-purge_all :
      (all : List Vhost) (correlation_id : String) (fuel : ℕ) (s : p.store.State)
      → IsListing default_vhost_page_size p.list_vhosts all
      → length all < fuel
      → sweep p configured now fuel (background correlation_id) s
        ≡ purge_all p configured now (background correlation_id) all s
  unfolding sweep
  sweep-purge_all all correlation_id fuel s listing h =
      sweep_from_lem default_vhost_page_size all listing (omega arith) correlation_id fuel [] all ""
        s refl h (listing.first_page (background correlation_id))
