-- ===== src/Rebalance/Spread.antt =====
-- The loop of RebalancedCluster that spreads a positive total balance: when it ends.
use rediscluster_operator.Base.Int.{ℤ, pos, pos_part, neg_part, ltb_ℤ, ◌+ℤ◌, ◌-ℤ◌, int_laws}
use rediscluster_operator.Base.{
  ℕ, zero, suc, ◌-◌, ◌<◌, ◌≤◌, Bool, true, false, ◌&&◌, ◌≡◌, refl, ◌∙◌, sym, ap, List, [], ◌∷◌,
  none, some, if◌then◌else◌, arith, Bool-cases, inl, inr,
}
use mathlib.Core.Path.{subst}
use rediscluster_operator.Nodes.{Node}
use rediscluster_operator.Rebalance.{total_balance, spread_round, spread}

-- Some master has fewer slots than its share.
unfoldable pub has_negative : List Node → Bool
has_negative [] = false
has_negative (n ∷ nodes) = if ltb_ℤ n.balance (pos 0) then true else has_negative nodes

-- A pass over a total that is not negative: what it leaves of the total.
record Pass (nodes : List Node) (t : ℕ) (r : List Node × ℤ) : Type 0 where
  left : ℕ
  total : r.1 ≡ pos left
  bound : left ≤ t
  same : total_balance r.0 +ℤ pos t ≡ total_balance nodes +ℤ pos left
  falls : has_negative nodes ≡ true → 0 < t → left < t
  stays : has_negative nodes ≡ true → has_negative r.0 ≡ true

minus_one : (t : ℕ) → 0 < t → pos t -ℤ pos 1 ≡ pos (t - 1)
unfolding ◌-ℤ◌
minus_one t h = ground arith

shift_taken :
    (b s' s : ℤ) (t u : ℕ)
    → 0 < t
    → s' +ℤ pos (t - 1) ≡ s +ℤ pos u
    → b -ℤ pos 1 +ℤ s' +ℤ pos t ≡ b +ℤ s +ℤ pos u
shift_taken b s' s t u lt h = omega (int_laws, ap pos_part h, ap neg_part h)

shift_kept : (b s' s : ℤ) (t u : ℕ) → s' +ℤ pos t ≡ s +ℤ pos u → b +ℤ s' +ℤ pos t ≡ b +ℤ s +ℤ pos u
shift_kept b s' s t u h = omega (int_laws, ap pos_part h, ap neg_part h)

still_negative : (b : ℤ) → ltb_ℤ b (pos 0) ≡ true → ltb_ℤ (b -ℤ pos 1) (pos 0) ≡ true
unfolding ◌-ℤ◌
still_negative b h = ground arith

pass_taken :
    (n : Node) (nodes : List Node) (t : ℕ)
    → (ltb_ℤ n.balance (pos 0) && ltb_ℤ (pos 0) (pos t)) ≡ true
    → spread_round (n ∷ nodes) (pos t) ≡ (
      record n { balance = n.balance -ℤ pos 1 } ∷ (spread_round nodes (pos (t - 1))).0,
      (spread_round nodes (pos (t - 1))).1,
    )
unfolding spread_round
pass_taken n nodes t h = rw (h, minus_one t (ground arith)) refl

pass_kept :
    (n : Node) (nodes : List Node) (t : ℕ)
    → (ltb_ℤ n.balance (pos 0) && ltb_ℤ (pos 0) (pos t)) ≡ false
    → spread_round (n ∷ nodes) (pos t)
      ≡ (n ∷ (spread_round nodes (pos t)).0, (spread_round nodes (pos t)).1)
unfolding spread_round
pass_kept n nodes t h = rw h refl

pass : (nodes : List Node) (t : ℕ) → Pass nodes t (spread_round nodes (pos t))
unfolding total_balance has_negative
pass [] t = record {
  left = t;
  total = unfold spread_round in refl;
  bound = omega arith;
  same = unfold spread_round in refl;
  falls = λ h. cc;
  stays = λ h. cc;
}
pass (n ∷ nodes) t = elim (Bool-cases (ltb_ℤ n.balance (pos 0) && ltb_ℤ (pos 0) (pos t))) [
  | inl taken ↦
      let rest = pass nodes (t - 1) in
      let some_left : 0 < t = ground arith in
      let negative : ltb_ℤ n.balance (pos 0) ≡ true = ground arith in
      subst (Pass (n ∷ nodes) t) (sym (pass_taken n nodes t taken)) (record {
        left = rest.left;
        total = rest.total;
        bound = omega (arith, rest.bound);
        same = shift_taken n.balance _ _ t rest.left some_left rest.same;
        falls = λ h lt. omega (arith, rest.bound);
        stays = λ h. ground (arith, still_negative n.balance negative);
      })
  | inr kept ↦
      let rest = pass nodes t in
      subst (Pass (n ∷ nodes) t) (sym (pass_kept n nodes t kept)) (record {
        left = rest.left;
        total = rest.total;
        bound = rest.bound;
        same = shift_kept n.balance _ _ t rest.left rest.same;
        falls = λ h lt. ground (arith, rest.falls);
        stays = λ h. ground (arith, rest.stays);
      })
]

unchanged :
    (nodes : List Node) (t : ℕ)
    → has_negative nodes ≡ false
    → spread_round nodes (pos t) ≡ (nodes, pos t)
unfolding spread_round has_negative
unchanged [] t h = refl
unchanged (n ∷ nodes) t h = ground (arith, unchanged nodes t)

chain : (a b c : ℤ) (l t : ℕ) → a +ℤ pos l ≡ b → b +ℤ pos t ≡ c +ℤ pos l → a +ℤ pos t ≡ c
chain a b c l t h k = omega (int_laws, ap pos_part h, ap neg_part h, ap pos_part k, ap neg_part k)

cancel : (a : ℤ) (t : ℕ) → a +ℤ pos t ≡ pos t → a ≡ pos 0
cancel a t h = omega (int_laws, ap pos_part h, ap neg_part h)

spread_lem :
    (fuel : ℕ) (nodes : List Node) (t : ℕ)
    → t < fuel
    → has_negative nodes ≡ true
    → (nodes' : List Node) × (spread fuel nodes (pos t) ≡ some nodes')
      × (total_balance nodes' +ℤ pos t ≡ total_balance nodes)
unfolding spread
spread_lem zero nodes t h neg = absurd (omega arith)
spread_lem (suc fuel) nodes zero h neg = (nodes, refl, plus_zero (total_balance nodes))
  where
    plus_zero : (a : ℤ) → a +ℤ pos 0 ≡ a
    plus_zero a = omega int_laws
spread_lem (suc fuel) nodes (suc t) h neg =
    let p = pass nodes (suc t) in
    let less : p.left < suc t = p.falls neg (omega arith) in
    let (nodes', e, s) =
      spread_lem fuel (spread_round nodes (pos (suc t))).0 p.left (omega arith) (p.stays neg) in
    (nodes', ground (arith, p.total, e), chain _ _ _ p.left (suc t) s p.same)

-- When a master is short of slots, the loop that spreads the total balance ends within as many passes as the total, and the
-- balances then add up to nothing.
pub spread-ends :
    (nodes : List Node) (t : ℕ)
    → has_negative nodes ≡ true
    → total_balance nodes ≡ pos t
    → (nodes' : List Node) × (spread (suc t) nodes (pos t) ≡ some nodes')
      × (total_balance nodes' ≡ pos 0)
spread-ends nodes t neg e =
    let (nodes', r, s) = spread_lem (suc t) nodes t (omega arith) neg in
    (nodes', r, cancel (total_balance nodes') t (s ∙ e))

-- When no master is short of slots and the total balance is positive, the loop that spreads it ends
-- within no number of passes.
pub spread-endless :
    (fuel : ℕ) (nodes : List Node) (t : ℕ)
    → has_negative nodes ≡ false
    → spread fuel nodes (pos (suc t)) ≡ none
unfolding spread
spread-endless zero nodes t h = refl
spread-endless (suc fuel) nodes t h =
    ground (arith, unchanged nodes (suc t) h, spread-endless fuel nodes t h)
