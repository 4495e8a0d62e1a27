-- ===== src/Text/Splitting.antt =====
-- `split` after `join`, and `split2` at the first separator.
use roks_vpc_cni.Base.{ℕ, ◌≡◌, ◌≢◌, refl, some, List, [], ◌∷◌, ◌++◌, arith, All}
use roks_vpc_cni.Text.Defs.{Str, split, split2, join}

-- The byte does not occur.
abbrev pub Lacks : ℕ → Str → Type 0
Lacks b = All (λ c. c ≢ b)

module _ (sep : ℕ) where
  pub split_lacking : (p : Str) → Lacks sep p → split sep p ≡ p ∷ []
  unfolding split
  split_lacking [] h = refl
  split_lacking (c ∷ p) h = ground (arith, split_lacking p h.1)

  pub split_first : (p rest : Str) → Lacks sep p → split sep (p ++ sep ∷ rest) ≡ p ∷ split sep rest
  unfolding split
  split_first [] rest h = ground arith
  split_first (c ∷ p) rest h = ground (arith, split_first p rest h.1)

  -- Splitting a join gives the parts back, if there is a part and none holds the separator.
  pub split-join :
      (ps : List Str) → ps ≢ [] → All (Lacks sep) ps → split sep (join (sep ∷ []) ps) ≡ ps
  unfolding join
  split-join [] ne h = absurd (ne refl)
  split-join (p ∷ []) ne h = split_lacking p h.0
  split-join (p ∷ q ∷ ps) ne h =
      ground (arith, split_first p (join (sep ∷ []) (q ∷ ps)) h.0, split-join (q ∷ ps) (cc) h.1)

  pub split2_first : (k v : Str) → Lacks sep k → split2 sep (k ++ sep ∷ v) ≡ some (k, v)
  unfolding split2
  split2_first [] v h = ground arith
  split2_first (c ∷ k) v h = ground (arith, split2_first k v h.1)
