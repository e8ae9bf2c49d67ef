-- ===== src/Memory/Scored.antt =====
-- The risk that truepresence/memory/identity_graph.py reads from a cluster.
use true_presence_ese.Base.{
  ℕ, suc, ◌+◌, ◌*◌, ◌≤◌, ◌≡◌, refl, ap, subst, ◌∙◌, true, false, Option, some, List, [], ◌∷◌, arith,
  Bool-cases, inl, inr, length, ltb, All,
}
use true_presence_ese.Base.Text.{Text, text_eq, text_eq_refl, mem_text}
use true_presence_ese.Base.Assoc.{find, text_eq_sym}
use true_presence_ese.Json.{Fields, end}
use true_presence_ese.Float.{Floats, IsFloats, InUnit, dec_limit, whole}
use true_presence_ese.Float.Laws.{le-min_f, min_f-le_right, dec-InUnit}
use true_presence_ese.Memory.Risk.{
  has_entry, scores, session_at, scores_at, sum_risk, final_risk, risk_of_sum, cluster_risk,
}

module _ (o : Floats) where
  open o use {F, dec, le, add, mul, div}

  -- A session whose detection, or the defaults for it, are two numbers of the unit interval.
  pub record IsScored (session : Fields F) : Type 0 where
    pub bot_probability : F
    pub confidence : F
    pub scored : scores o session ≡ some (bot_probability, confidence)
    pub bot_InUnit : InUnit o bot_probability
    pub confidence_InUnit : InUnit o confidence

  abbrev pub AllScored : List (Text × Fields F) → Type 0
  AllScored sessions = All (λ e. IsScored e.1) sessions

  find-IsScored :
      (id : Text) (sessions : List (Text × Fields F))
      → AllScored sessions
      → has_entry id sessions ≡ true
      → IsScored (find id end sessions)
  unfolding find
  find-IsScored id [] h k = cc k
  find-IsScored id ((j, session) ∷ rest) h k = elim (Bool-cases (text_eq j id)) [
    | inl e ↦ rw e h.0
    | inr e ↦ rw e (find-IsScored id rest h.1 (ground (arith, text_eq_sym j id)))
  ]

  scores_at-IsScored :
      (id : Text) (sessions : List (Text × Fields F)) (h : AllScored sessions)
      → has_entry id sessions ≡ true
      → (p c : F) × (scores_at o (session_at o id sessions) ≡ some (p, c)) × InUnit o p × InUnit o c
  unfolding session_at
  scores_at-IsScored id sessions h k =
      let s = find-IsScored id sessions h k in
      (s.bot_probability, s.confidence, rw k s.scored, s.bot_InUnit, s.confidence_InUnit)

  -- What the loop over a cluster gives.
  record Summed (n : ℕ) (sum : Option (F × ℕ)) : Type 0 where
    total : F
    bots : ℕ
    result : sum ≡ some (total, bots)
    total_nonneg : le (dec 0) total ≡ true
    total-le : le total (whole o n) ≡ true

  module _ (l : IsFloats o) where
    contribution :
        (n : ℕ) (total p c : F)
        → suc n * 100 ≤ dec_limit
        → le (dec 0) total ≡ true
        → le total (whole o n) ≡ true
        → InUnit o p
        → InUnit o c
        → (le (dec 0) (add total (mul p c)) ≡ true)
          × (le (add total (mul p c)) (whole o (suc n)) ≡ true)
    contribution n total p c b t u hp hc =
        let positive = l.mul_nonneg p c hp.0 hc.0 in
        let below = l.le_trans (mul p c) p (dec 100) (l.mul_le_left p c hp hc) hp.1 in
        let e : n * 100 + 100 ≡ suc n * 100 = omega arith in
        (
          l.le_trans (dec 0) total _ t (l.le-add total (mul p c) positive),
          subst (λ k. le (add total (mul p c)) (dec k) ≡ true) e
              (l.add_count n total (mul p c) (omega arith) u below),
        )

    sum_risk-Summed :
        (sessions : List (Text × Fields F)) (ids : List Text) (n m : ℕ) (total : F) (bots : ℕ)
        → AllScored sessions
        → ((x : Text) → mem_text x ids ≡ true → has_entry x sessions ≡ true)
        → n + length ids ≡ m
        → m * 100 ≤ dec_limit
        → le (dec 0) total ≡ true
        → le total (whole o n) ≡ true
        → Summed m (sum_risk o sessions ids total bots)
    unfolding sum_risk mem_text
    sum_risk-Summed sessions [] n m total bots h k e b t u = record {
      total = total;
      bots = bots;
      result = refl;
      total_nonneg = t;
      total-le = let e' : n ≡ m = omega arith in subst (λ z. le total (whole o z) ≡ true) e' u;
    }
    sum_risk-Summed sessions (id ∷ ids) n m total bots h k e b t u =
        let (p, c, r, hp, hc) =
          scores_at-IsScored id sessions h (k id (ground (arith, text_eq_refl id))) in
        let (t', u') = contribution n total p c (omega arith) t u hp hc in
        rw (r, sum_risk)
          (sum_risk-Summed sessions ids (suc n) m _ _ h (λ x i. k x (ground arith)) (omega arith) b
            t' u')

    final_risk-InUnit :
        (n : ℕ) (total : F) (bots : ℕ)
        → suc n * 100 ≤ dec_limit
        → le (dec 0) total ≡ true
        → le total (whole o (suc n)) ≡ true
        → InUnit o (final_risk o (suc n) (total, bots))
    unfolding final_risk
    final_risk-InUnit n total bots b t u =
        let positive : le (whole o (suc n)) (dec 0) ≡ false =
          l.le_dec (suc n * 100) 0 b (omega arith) ∙ ground arith in
        let avg = l.div_InUnit total (whole o (suc n)) t u positive in
        elim (Bool-cases (ltb 1 bots)) [
          | inl e ↦ rw e (
            le-min_f o l _ (dec 100) (dec 0)
                (l.le_trans (dec 0) (div total (whole o (suc n))) _ avg.0 (
                  l.le-add _ _ (
                    le-min_f o l _ (dec 80) (dec 0)
                      (l.div_nonneg (whole o bots) (whole o (suc n)) (l.dec_nonneg _) positive)
                      (l.dec_nonneg 80))))
                (l.dec_nonneg 100),
            min_f-le_right o l _ (dec 100),
          )
          | inr e ↦ rw e avg
        ]

    -- The risk of a cluster whose sessions are all stored and scored.
    pub cluster_risk-InUnit :
        (sessions : List (Text × Fields F)) (cluster : List Text)
        → AllScored sessions
        → ((x : Text) → mem_text x cluster ≡ true → has_entry x sessions ≡ true)
        → length cluster * 100 ≤ dec_limit
        → (risk : F) × (cluster_risk o sessions (some cluster) ≡ some risk) × InUnit o risk
    cluster_risk-InUnit sessions [] h k b = (dec 50, refl, dec-InUnit o l 50 (omega arith))
    cluster_risk-InUnit sessions (id ∷ ids) h k b =
        let s =
          sum_risk-Summed sessions (id ∷ ids) 0 (length (id ∷ ids)) (dec 0) 0 h k (omega arith) b
            (l.le_refl (dec 0)) (l.le_refl (dec 0)) in
        (
          final_risk o (length (id ∷ ids)) (s.total, s.bots),
          ap (risk_of_sum o (length (id ∷ ids))) s.result,
          final_risk-InUnit (length ids) s.total s.bots b s.total_nonneg s.total-le,
        )
