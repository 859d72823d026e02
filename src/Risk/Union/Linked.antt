-- ===== src/Risk/Union/Linked.antt =====
-- What `union` of src/shrap/risk_compliance/risk_officer/clusters.py does to the groups: the closure of a
-- relation, and the forest that stands for it.
use shrap_firm.Prelude.{◌≡◌, ◌⊎◌, refl, sym, ◌∙◌, Bool, ◌||◌, true, arith, Bool-cases, inl, inr}

-- The least equivalence that holds the links.
pub data Linked {ℓ κ} {K : Type ℓ} (Link : K → K → Type κ) : K → K → Type (ℓ ⊔ κ) where
  link : {a b : K} → Link a b → Linked Link a b
  stay : {a : K} → Linked Link a a
  back : {a b : K} → Linked Link b a → Linked Link a b
  chain : {a b c : K} → Linked Link a b → Linked Link b c → Linked Link a c

module _ {ℓ κ} {K : Type ℓ} where
  -- What respects the links respects their closure.
  pub Linked-respects :
      (Link : K → K → Type κ) (rep : K → K)
      → ((x y : K) → Link x y → rep x ≡ rep y)
      → {a b : K} → Linked Link a b
      → rep a ≡ rep b
  Linked-respects Link rep each (link l) = each _ _ l
  Linked-respects Link rep each stay = refl
  Linked-respects Link rep each (back l) = sym (Linked-respects Link rep each l)
  Linked-respects Link rep each (chain l r) =
      Linked-respects Link rep each l ∙ Linked-respects Link rep each r

  pub Linked-bind {ι} :
      (Link : K → K → Type κ) (Other : K → K → Type ι)
      → ((x y : K) → Link x y → Linked Other x y)
      → {a b : K} → Linked Link a b
      → Linked Other a b
  Linked-bind Link Other each (link l) = each _ _ l
  Linked-bind Link Other each stay = stay
  Linked-bind Link Other each (back l) = back (Linked-bind Link Other each l)
  Linked-bind Link Other each (chain l r) =
      chain (Linked-bind Link Other each l) (Linked-bind Link Other each r)

  pub Linked-same : (Link : K → K → Type κ) {a b : K} → a ≡ b → Linked Link a b
  Linked-same Link h = rw (h) stay

module _ {ℓ} {K : Type ℓ} where
  -- The links, and two items of one group.
  abbrev pub Extended : (K → K) → (K → K → Bool) → K → K → Type ℓ
  Extended rep Link x y = (rep x ≡ rep y) ⊎ (Link x y ≡ true)

  -- The groups of `after` are those of `before`, joined along the links.
  pub record IsMerged (before after : K → K) (Link : K → K → Bool) : Type ℓ where
    pub found : (a b : K) → after a ≡ after b → Linked (Extended before Link) a b
    pub kept : (a b : K) → before a ≡ before b → after a ≡ after b
    pub joined : (a b : K) → Link a b ≡ true → after a ≡ after b

  pub IsMerged-refl :
      (rep : K → K) (Link : K → K → Bool)
      → ((a b : K) → Link a b ≡ true → rep a ≡ rep b)
      → IsMerged rep rep Link
  IsMerged-refl rep Link each = record {
    found = λ a b h. link (inl h);
    kept = λ a b h. h;
    joined = each;
  }

  -- One merge after another, for links that are those of the two.
  pub IsMerged-trans :
      (first second third : K → K) (One Two Both : K → K → Bool)
      → IsMerged first second One
      → IsMerged second third Two
      → ((a b : K) → (One a b || Two a b) ≡ Both a b)
      → IsMerged first third Both
  IsMerged-trans first second third One Two Both m n both =
      let Goal = Linked (Extended first Both) in
      let one : (x y : K) → Extended first One x y → Goal x y =
        λ x y h. elim h [ inl e ↦ link (inl e) | inr l ↦ link (inr (ground (arith, both x y))) ] in
      let two : (x y : K) → Extended second Two x y → Goal x y = λ x y h. elim h [
        | inl e ↦ Linked-bind (Extended first One) (Extended first Both) one (m.found x y e)
        | inr l ↦ link (inr (ground (arith, both x y)))
      ] in
      record {
        found =
            λ a b h. Linked-bind (Extended second Two) (Extended first Both) two (n.found a b h);
        kept = λ a b h. n.kept a b (m.kept a b h);
        joined = λ a b l. elim (Bool-cases (One a b)) [
          | inl holds ↦ n.kept a b (m.joined a b holds)
          | inr fails ↦ n.joined a b (ground (arith, both a b))
        ];
      }
