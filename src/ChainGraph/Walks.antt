-- ===== src/ChainGraph/Walks.antt =====
-- Walks along `adjacency` of host/src/routes/chain-utils.ts, and nodes from which all of them end.
use mathlib.Core.WellFounded.{Acc}
use ontheia.Prelude.{◌≡◌, refl, sym, subst, List, Text, Has}

module _ (adjacency : Text → List Text) where
  abbrev pub Next : Text → Text → Type 0
  Next a b = Has b (adjacency a)

  -- A walk along at least one edge.
  pub data Walk : Text → Text → Type 0 where
    edge : {a b : Text} → Next a b → Walk a b
    step : {a b c : Text} → Next a b → Walk b c → Walk a c

  pub snoc : {a b c : Text} → Walk a b → Next b c → Walk a c
  snoc (edge e) f = step e (edge f)
  snoc (step e w) f = step e (snoc w f)

  -- No walk from here goes on forever.
  abbrev pub Ends : Text → Type 0
  Ends = Acc (λ b a. Next a b)

  Ends-acyclic_at : (n c : Text) → n ≡ c → Ends n → ¬ Walk n c
  Ends-acyclic_at n c q (Acc.intro _ below) (edge e) =
      let loop : Next n n = subst (Next n) (sym q) e in
      Ends-acyclic_at n n refl (below n loop) (edge loop)
  Ends-acyclic_at n c q (Acc.intro _ below) (step {b = b} e w) =
      Ends-acyclic_at b b refl (below b e) (snoc w (subst (λ a. Next a b) q e))

  pub Ends-acyclic : (n : Text) → Ends n → ¬ Walk n n
  Ends-acyclic n e w = Ends-acyclic_at n n refl e w
