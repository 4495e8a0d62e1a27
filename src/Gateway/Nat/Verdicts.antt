-- ===== src/Gateway/Nat/Verdicts.antt =====
-- What the postrouting chain does to a packet: the first rule that matches decides.
use roks_vpc_cni.Base.{
  ◌≡◌, refl, inl, inr, ◌&&◌, ltb, Bool, true, false, List, [], ◌∷◌, ◌++◌, map, arith, All, Any,
  if◌then◌else◌, Bool-cases,
}
use roks_vpc_cni.Text.{Str, str_eq}
use roks_vpc_cni.Text.Integers.{ℤ, pos, negsuc}
use roks_vpc_cni.Gateway.Nat.{
  SnatRule, NoNatRule, Rule, accept, translate, accept_rule, translate_rule,
}

-- a < b
abbrev pub lt_int : ℤ → ℤ → Bool
lt_int (pos a) (pos b) = ltb a b
lt_int (pos a) (negsuc b) = false
lt_int (negsuc a) (pos b) = true
lt_int (negsuc a) (negsuc b) = ltb b a

lt_int_irrefl : (a : ℤ) → lt_int a a ≡ false
lt_int_irrefl (pos a) = ground arith
lt_int_irrefl (negsuc a) = ground arith

abbrev pub In : {A : Type 0} → A → List A → Type 0
In x = Any (λ y. y ≡ x)

-- No element has a smaller key than one before it.
abbrev pub IsSorted : {A : Type 0} → (A → ℤ) → List A → Type 0
IsSorted key [] = Unit
IsSorted key (x ∷ xs) = All (λ y. lt_int (key y) (key x) ≡ false) xs × IsSorted key xs

All-In : {A : Type 0} (P : A → Type 0) (x : A) (xs : List A) → All P xs → In x xs → P x
All-In P x [] h i = elim i [ ]
All-In P x (y ∷ ys) h (inl e) = rw⁻¹ e h.0
All-In P x (y ∷ ys) h (inr i) = All-In P x ys h.1 i

-- What sort.Slice by a key documents: the same elements, sorted.
pub record Sorts (sort : (A : Type 0) → (A → ℤ) → List A → List A) : Type 1 where
  pub keeps : (A : Type 0) (key : A → ℤ) (x : A) (xs : List A) → In x xs → In x (sort A key xs)
  pub adds_none : (A : Type 0) (key : A → ℤ) (x : A) (xs : List A) → In x (sort A key xs) → In x xs
  pub sorted : (A : Type 0) (key : A → ℤ) (xs : List A) → IsSorted key (sort A key xs)

pub data Verdict : Type 0 where
  unmatched : Verdict
  accepted : Verdict
  translated : Str → Verdict

-- `covers a b` says that the rule's address or block `a` covers the packet's address `b`.
module _ (covers : Str → Str → Bool) (source destination : Str) where
  abbrev pub matches : Rule → Bool
  matches (accept s d) = covers s source && covers d destination
  matches (translate s a) = covers s source

  abbrev pub verdict_of : Rule → Verdict
  verdict_of (accept s d) = accepted
  verdict_of (translate s a) = translated a

  unfoldable pub verdict : List Rule → Verdict
  verdict [] = unmatched
  verdict (r ∷ rs) = let rest = verdict rs in if matches r then verdict_of r else rest

  abbrev pub Exempts : NoNatRule → Type 0
  Exempts r = (covers r.source source && covers r.destination destination) ≡ true

  pub accepts_first :
      (r : NoNatRule) (rs : List NoNatRule) (tail : List Rule)
      → In r rs
      → Exempts r
      → verdict (map accept_rule rs ++ tail) ≡ accepted
  unfolding verdict accept_rule
  accepts_first r [] tail i e = elim i [ ]
  accepts_first r (s ∷ rs) tail (inl same) e = ground (arith, same, e)
  accepts_first r (s ∷ rs) tail (inr i) e = ground (arith, accepts_first r rs tail i e)

  pub none_apply :
      (rs : List NoNatRule) (tail : List Rule)
      → ((r : NoNatRule) → In r rs → Exempts r → ⊥)
      → verdict (map accept_rule rs ++ tail) ≡ verdict tail
  unfolding verdict accept_rule
  none_apply [] tail none_matches = refl
  none_apply (s ∷ rs) tail none_matches =
      ground (arith, none_matches s (inl refl), none_apply rs tail (λ r i. none_matches r (inr i)))

  -- The rule is the first one, by priority, of those that match the packet's source.
  pub record Decides (address : Str) (rules : List SnatRule) (v : Verdict) (r : SnatRule)
      : Type 0 where
    pub listed : In r rules
    pub covered : covers r.source source ≡ true
    pub decided :
        v ≡ translated (if str_eq r.translated_address [] then address else r.translated_address)
    pub least :
        (s : SnatRule)
        → In s rules
        → covers s.source source ≡ true
        → lt_int s.priority r.priority ≡ false

  -- The decision of the rules behind one that does not match.
  later-Decides :
      (address : Str) (s : SnatRule) (rules : List SnatRule) (r : SnatRule)
      → covers s.source source ≡ false
      → Decides address rules (verdict (map (translate_rule address) rules)) r
      → Decides address (s ∷ rules) (verdict (map (translate_rule address) (s ∷ rules))) r
  unfolding verdict translate_rule
  later-Decides address s rules r c d = record {
    listed = inr d.listed;
    covered = d.covered;
    decided = ground (arith, c, d.decided);
    least = λ s' i e. elim i [ inl same ↦ absurd (cc (same, c, e)) | inr j ↦ d.least s' j e ];
  }

  pub translates_first :
      (address : Str) (rules : List SnatRule) (r : SnatRule)
      → IsSorted (λ s. s.priority) rules
      → In r rules
      → covers r.source source ≡ true
      → (s : SnatRule) × Decides address rules (verdict (map (translate_rule address) rules)) s
  translates_first address [] r h i e = elim i [ ]
  translates_first address (s ∷ rules) r h i e = elim (Bool-cases (covers s.source source)) [
    | inl c ↦ (
      s,
      record {
        listed = inl refl;
        covered = c;
        decided = unfold verdict translate_rule in ground (arith, c);
        least = λ s' j d. elim j [
          | inl same ↦ rw⁻¹ same (lt_int_irrefl s.priority)
          | inr k ↦ All-In (λ y. lt_int y.priority s.priority ≡ false) s' rules h.0 k
        ];
      },
    )
    | inr c ↦ elim i [
      | inl same ↦ absurd (cc (same, c, e))
      | inr j ↦
          let (r', d) = translates_first address rules r h.1 j e in
          (r', later-Decides address s rules r' c d)
    ]
  ]
