-- ===== src/Reconcile/Rules.antt =====
-- Rules for how a part of the controller ends and what it leaves in the history.
use mathlib.Core.Path.{subst}
use rediscluster_operator.Base.{◌≡◌, Option, none, some, refl, ◌⊎◌, inl, inr}
use rediscluster_operator.Reconcile.{
  History, Flow, next, stop, crash, M, continue, or_panic, or_return, return_if, returned,
}

-- What holds where a part goes on, where it returns, and where it panics.
pub data Post {Q R A : Type 0} (P : A → History Q → Type 0) (K : R → History Q → Type 0)
    (D : History Q → Type 0) : Flow R A × History Q → Type 0 where
  goes_on : {a : A} {h : History Q} → P a h → Post P K D (next a, h)
  returns : {r : R} {h : History Q} → K r h → Post P K D (stop r, h)
  panics : {h : History Q} → D h → Post P K D (crash, h)

module _ {Q R A B : Type 0} {P : A → History Q → Type 0} {N : B → History Q → Type 0}
    {K : R → History Q → Type 0} {D : History Q → Type 0} where
  -- A part that is kept shut, and what follows it.
  pub continue-Post :
      {r : Flow R A × History Q} (f : A → M Q R B)
      → Post P K D r
      → ((a : A) (h : History Q) → P a h → Post N K D (f a h))
      → Post N K D (continue r f)
  continue-Post f (goes_on {a} {h} p) k = k a h p
  continue-Post f (returns p) k = returns p
  continue-Post f (panics p) k = panics p

module _ {Q R S : Type 0} {P : R → History Q → Type 0} {K : S → History Q → Type 0}
    {D : History Q → Type 0} where
  pub returned-Post : {r : Flow R R × History Q} → Post P P D r → Post P K D (returned r)
  returned-Post (goes_on p) = goes_on p
  returned-Post (returns p) = goes_on p
  returned-Post (panics p) = panics p

module _ {Q R A : Type 0} {P P' : A → History Q → Type 0} {K : R → History Q → Type 0}
    {D : History Q → Type 0} where
  pub weaken :
      {x : Flow R A × History Q}
      → Post P K D x
      → ((a : A) (h : History Q) → P a h → P' a h)
      → Post P' K D x
  weaken (goes_on {a} {h} p) k = goes_on (k a h p)
  weaken (returns p) k = returns p
  weaken (panics p) k = panics p

module _ {Q R A : Type 0} {P : A → History Q → Type 0} {K K' : R → History Q → Type 0}
    {D : History Q → Type 0} where
  pub weaken_return :
      {x : Flow R A × History Q}
      → Post P K D x
      → ((r : R) (h : History Q) → K r h → K' r h)
      → Post P K' D x
  weaken_return (goes_on p) k = goes_on p
  weaken_return (returns {r} {h} p) k = returns (k r h p)
  weaken_return (panics p) k = panics p

module _ {Q R A : Type 0} {P : A → History Q → Type 0} {K : R → History Q → Type 0}
    {D D' : History Q → Type 0} where
  pub weaken_panic :
      {x : Flow R A × History Q} → Post P K D x → ((h : History Q) → D h → D' h) → Post P K D' x
  weaken_panic (goes_on p) k = goes_on p
  weaken_panic (returns p) k = returns p
  weaken_panic (panics {h} p) k = panics (k h p)

module _ {Q R B : Type 0} {N : B → History Q → Type 0} {K : R → History Q → Type 0}
    {D : History Q → Type 0} where
  pub return_if-Post :
      {A : Type 0} (o : Option A) (f : A → R) (g : Unit {0} → M Q R B) (h : History Q)
      → ((a : A) → K (f a) h)
      → Post N K D (g tt h)
      → Post N K D (continue (return_if o f h) g)
  return_if-Post none f g h k l = l
  return_if-Post (some a) f g h k l = returns (k a)

  pub or_return-Post :
      {A : Type 0} (o : Option A) (r : R) (g : A → M Q R B) (h : History Q)
      → K r h
      → ((a : A) → Post N K D (g a h))
      → Post N K D (continue (or_return o r h) g)
  or_return-Post none r g h k l = returns k
  or_return-Post (some a) r g h k l = l a

  pub or_panic-Post :
      {A : Type 0} (o : Option A) (g : A → M Q R B) (h : History Q)
      → D h
      → ((a : A) → Post N K D (g a h))
      → Post N K D (continue (or_panic o h) g)
  or_panic-Post none g h d l = panics d
  or_panic-Post (some a) g h d l = l a

module _ {Q R A : Type 0} {P : A → History Q → Type 0} {K : R → History Q → Type 0}
    {D : History Q → Type 0} where
  -- What is known of a run that returns.
  pub returned_lem :
      {x : Flow R A × History Q} {r : R} {h : History Q} → Post P K D x → x ≡ (stop r, h) → K r h
  returned_lem (goes_on p) e = absurd (cc)
  returned_lem {r = r} {h = h} (returns {r = s} {h = t} p) e =
      let a : s ≡ r = cc in let b : t ≡ h = cc in subst (λ u. K r u) b (subst (λ u. K u t) a p)
  returned_lem (panics p) e = absurd (cc)

  -- What is known of a run that goes on.
  pub goes_on_lem :
      {x : Flow R A × History Q} {a : A} {h : History Q} → Post P K D x → x ≡ (next a, h) → P a h
  goes_on_lem {a = a} {h = h} (goes_on {a = s} {h = t} p) e =
      let q : s ≡ a = cc in let b : t ≡ h = cc in subst (λ u. P a u) b (subst (λ u. P u t) q p)
  goes_on_lem (returns p) e = absurd (cc)
  goes_on_lem (panics p) e = absurd (cc)

module _ {Q R A : Type 0} {I : History Q → Type 0} where
  -- What holds of the history however a part ends.
  pub always : {x : Flow R A × History Q} → Post (λ a. I) (λ r. I) I x → I x.1
  always (goes_on p) = p
  always (returns p) = p
  always (panics p) = p

abbrev pub Anything : {Q A : Type 0} → A → History Q → Type 0
Anything a h = Unit {0}

pub trivial-Post :
    {Q R A : Type 0} (x : Flow R A × History Q) → Post Anything Anything (λ h. Unit {0}) x
trivial-Post (next a, h) = goes_on tt
trivial-Post (stop r, h) = returns tt
trivial-Post (crash, h) = panics tt

pub sum_cases : {A B : Type 0} (x : A ⊎ B) → ((a : A) × (x ≡ inl a)) ⊎ ((b : B) × (x ≡ inr b))
sum_cases (inl a) = inl (a, refl)
sum_cases (inr b) = inr (b, refl)

pub returned-exact :
    {Q R S : Type 0} {K : S → History Q → Type 0} (x : Flow R R × History Q)
    → Post (λ a h. returned {S = S} x ≡ (next a, h)) K (λ h. Unit {0}) (returned x)
returned-exact (next a, h) = goes_on refl
returned-exact (stop r, h) = goes_on refl
returned-exact (crash, h) = panics tt

pub Post-returned :
    {Q R S : Type 0} {K : R → History Q → Type 0} {D : History Q → Type 0}
    (x : Flow R R × History Q) {r : R} {h : History Q}
    → Post K K D x
    → returned {S = S} x ≡ (next r, h)
    → K r h
Post-returned x p e = goes_on_lem (returned-Post {K = λ s h. Unit {0}} p) e
