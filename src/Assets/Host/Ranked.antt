-- ===== src/Assets/Host/Ranked.antt =====
-- The order of the providers (`NewHost` in lib/assets/host.go).
use polarix_plus.Base.{
  ◌==◌, if◌then◌else◌, Bool-cases, Table, half, wrap, slt, keep, Text, ℕ, ◌+◌, ◌≡◌, refl, ap, ◌∙◌,
  inl, inr, false, Option, List, [], ◌∷◌, arith,
}
use polarix_plus.Assets.Host.{
  is_enabled, by_priority, instantiate_all, new_host, rank, ProviderItem,
}

module _ {C : Type 0} where
  -- No item has a lower priority than one behind it.
  abbrev pub AllBelow : ProviderItem C → List (ProviderItem C) → Type 0
  AllBelow i [] = Unit
  AllBelow i (j ∷ js) = (slt i.priority j.priority ≡ false) × AllBelow i js

  abbrev pub Ranked : List (ProviderItem C) → Type 0
  Ranked [] = Unit
  Ranked (i ∷ is) = AllBelow i is × Ranked is

  -- the items of one priority, in their order
  abbrev pub of_priority : ℕ → List (ProviderItem C) → List (ProviderItem C)
  of_priority q = keep (λ i. wrap (i.priority + half) == q)

  AllBelow-later :
      (i j : ProviderItem C) (js : List (ProviderItem C))
      → slt i.priority j.priority ≡ false
      → AllBelow j js
      → AllBelow i js
  AllBelow-later i j [] h a = tt
  AllBelow-later i j (k ∷ ks) h a = (ground (arith, h, a.0), AllBelow-later i j ks h a.1)

  AllBelow-rank :
      (i j : ProviderItem C) (js : List (ProviderItem C))
      → slt i.priority j.priority ≡ false
      → AllBelow i js
      → AllBelow i (rank j js)
  unfolding rank
  AllBelow-rank i j [] h a = (h, tt)
  AllBelow-rank i j (k ∷ ks) h a = elim (Bool-cases (slt j.priority k.priority)) [
    | inl e ↦ rw e (a.0, AllBelow-rank i j ks h a.1)
    | inr e ↦ rw e (h, a)
  ]

  rank-Ranked : (i : ProviderItem C) (is : List (ProviderItem C)) → Ranked is → Ranked (rank i is)
  unfolding rank
  rank-Ranked i [] r = (tt, tt)
  rank-Ranked i (j ∷ js) r = elim (Bool-cases (slt i.priority j.priority)) [
    | inl e ↦ rw e (AllBelow-rank j i js (ground (arith, e)) r.0, rank-Ranked i js r.1)
    | inr e ↦ rw e ((e, AllBelow-later i j js e r.0), r)
  ]

  of_priority-rank :
      (q : ℕ) (i : ProviderItem C) (is : List (ProviderItem C))
      → of_priority q (rank i is) ≡ of_priority q (i ∷ is)
  unfolding rank
  of_priority-rank q i [] = refl
  of_priority-rank q i (j ∷ js) = elim (Bool-cases (slt i.priority j.priority)) [
    | inl e ↦ rw e (ground (arith, e, of_priority-rank q i js))
    | inr e ↦ rw e refl
  ]

  by_priority-Ranked : (items : List (ProviderItem C)) → Ranked (by_priority items)
  unfolding by_priority
  by_priority-Ranked [] = tt
  by_priority-Ranked (i ∷ is) = rank-Ranked i (by_priority is) (by_priority-Ranked is)

  of_priority-by_priority :
      (q : ℕ) (items : List (ProviderItem C))
      → of_priority q (by_priority items) ≡ of_priority q items
  unfolding by_priority
  of_priority-by_priority q [] = refl
  of_priority-by_priority q (i ∷ is) =
      of_priority-rank q i (by_priority is)
      ∙ ap (λ rest. if wrap (i.priority + half) == q then i ∷ rest else rest)
          (of_priority-by_priority q is)

-- The providers of a host are made from its enabled items in an order in which no item has a lower
-- priority than one behind it, and in which the items of one priority stand as they are configured.
pub new_host-Ranked :
    {P C : Type 0} (reg : Table (C → Option P)) (items : List (ProviderItem C))
    (whitelist : List Text)
    → (order : List (ProviderItem C)) × ((new_host reg items whitelist).providers
        ≡ instantiate_all reg order)
      × Ranked order
      × ((q : ℕ) → of_priority q order ≡ of_priority q (keep is_enabled items))
unfolding new_host
new_host-Ranked reg items whitelist = (
  by_priority (keep is_enabled items),
  refl,
  by_priority-Ranked (keep is_enabled items),
  λ q. of_priority-by_priority q (keep is_enabled items),
)
