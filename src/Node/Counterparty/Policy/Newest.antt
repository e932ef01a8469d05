-- ===== src/Node/Counterparty/Policy/Newest.antt =====
-- `shouldReplaceBaseline` and `resolveCurrentBaseline` of server/src/counterparty-service.ts.
use stackflow.Common.{
  ◌<◌, ◌≡◌, refl, sym, ◌∙◌, ◌⊎◌, inl, inr, Bool, true, false, Option, none, some, List, [], ◌∷◌,
  ◌==◌, arith, Bool-cases, All,
}
use mathlib.Core.Path.{subst}
use stackflow.Js.Text.{Text, text_eq, text_eq_iff, text_lt}
use stackflow.Js.Text.Order.{text_lt_asym, text_lt_trans, text_order}
use stackflow.Table.Laws.{text_eq_sym}
use stackflow.Node.Counterparty.{SignRequest}
use stackflow.Node.Counterparty.Policy.{
  Origin, onchain, signature_state, Baseline, NodeStatus, replaces_source, should_replace_baseline,
  observed_candidate, signed_candidate, consider, best_among, newest_baseline,
}

-- `b` is not newer than `a`: by nonce, then by time, then by origin.
Holds : Baseline → Baseline → Type 0
Holds a b =
    (b.nonce_value < a.nonce_value)
    ⊎ (b.nonce_value ≡ a.nonce_value)
      × ((text_lt b.updated_at a.updated_at ≡ true)
          ⊎ (b.updated_at ≡ a.updated_at) × (replaces_source a.source b.source ≡ false))

differs : (s t : Text) → text_lt s t ≡ true → text_eq s t ≡ false
differs s t less = elim (Bool-cases (text_eq s t)) [
  | inr apart ↦ apart
  | inl same ↦
      let e = (text_eq_iff s t).0 same in
      let turned : text_lt t s ≡ true = rw e (rw e at less) in
      absurd (cc (turned, text_lt_asym s t less))
]

Holds-kept : (a b : Baseline) → Holds a b → should_replace_baseline a b ≡ false
unfolding Holds should_replace_baseline
Holds-kept a b (inl below) = ground arith
Holds-kept a b (inr (same, inl before)) =
    let apart = differs b.updated_at a.updated_at before in
    let back = text_lt_asym b.updated_at a.updated_at before in ground arith
Holds-kept a b (inr (same, inr (together, source))) =
    let equal : text_eq b.updated_at a.updated_at ≡ true = (text_eq_iff _ _).1 together in
    ground arith

kept-Holds : (a b : Baseline) → should_replace_baseline a b ≡ false → Holds a b
unfolding Holds should_replace_baseline
kept-Holds a b kept = elim (Bool-cases (b.nonce_value == a.nonce_value)) [
  | inr apart ↦ inl (ground arith)
  | inl level ↦
      let same : b.nonce_value ≡ a.nonce_value = ground arith in
      elim (text_order b.updated_at a.updated_at) [
        | inl before ↦ inr (same, inl before)
        | inr (inl together) ↦
            let equal : text_eq b.updated_at a.updated_at ≡ true = (text_eq_iff _ _).1 together in
            inr (same, inr (together, simp (level, equal) at kept))
        | inr (inr after) ↦
            let apart =
              text_eq_sym b.updated_at a.updated_at ∙ differs a.updated_at b.updated_at after in
            absurd (cc (simp (level, apart) at kept, after))
      ]
]

replaces_asym : (p q : Origin) → replaces_source p q ≡ true → replaces_source q p ≡ false
unfolding replaces_source
replaces_asym onchain onchain e = absurd (cc)
replaces_asym onchain signature_state e = absurd (cc)
replaces_asym signature_state onchain e = refl
replaces_asym signature_state signature_state e = absurd (cc)

replaces_trans :
    (p q r : Origin)
    → replaces_source p q ≡ false
    → replaces_source q r ≡ false
    → replaces_source p r ≡ false
unfolding replaces_source
replaces_trans onchain q r pq qr = refl
replaces_trans signature_state onchain r pq qr = absurd (cc)
replaces_trans signature_state signature_state r pq qr = qr

replaced-Holds : (a b : Baseline) → should_replace_baseline a b ≡ true → Holds b a
unfolding Holds should_replace_baseline
replaced-Holds a b new = elim (Bool-cases (b.nonce_value == a.nonce_value)) [
  | inr apart ↦ inl (ground arith)
  | inl level ↦
      let same : a.nonce_value ≡ b.nonce_value = ground arith in
      elim (text_order a.updated_at b.updated_at) [
        | inl before ↦ inr (same, inl before)
        | inr (inl together) ↦
            let equal : text_eq b.updated_at a.updated_at ≡ true =
              (text_eq_iff _ _).1 (sym together) in
            inr (same, inr (together, replaces_asym a.source b.source (simp (level, equal) at new)))
        | inr (inr after) ↦
            let apart = differs b.updated_at a.updated_at after in
            let back = text_lt_asym b.updated_at a.updated_at after in
            absurd (cc (simp (level, apart, back) at new))
      ]
]

Holds-refl : (a : Baseline) → Holds a a
unfolding Holds replaces_source
Holds-refl a = inr (refl, inr (refl, itself a.source))
  where
    itself : (o : Origin) → replaces_source o o ≡ false
    itself onchain = refl
    itself signature_state = refl

Holds-trans : (a b c : Baseline) → Holds a b → Holds b c → Holds a c
unfolding Holds
Holds-trans a b c (inl x) (inl y) = inl (omega arith)
Holds-trans a b c (inl x) (inr (e, y)) = inl (rw e x)
Holds-trans a b c (inr (e, x)) (inl y) = inl (rw (← e) y)
Holds-trans a b c (inr (e, x)) (inr (f, y)) = inr (f ∙ e, times x y)
  where
    times :
        ((text_lt b.updated_at a.updated_at ≡ true)
          ⊎ (b.updated_at ≡ a.updated_at) × (replaces_source a.source b.source ≡ false))
        → ((text_lt c.updated_at b.updated_at ≡ true)
            ⊎ (c.updated_at ≡ b.updated_at) × (replaces_source b.source c.source ≡ false))
        → (text_lt c.updated_at a.updated_at ≡ true)
          ⊎ (c.updated_at ≡ a.updated_at) × (replaces_source a.source c.source ≡ false)
    times (inl x) (inl y) = inl (text_lt_trans c.updated_at b.updated_at a.updated_at y x)
    times (inl x) (inr (g, y)) = inl (subst (λ t. text_lt t a.updated_at ≡ true) (sym g) x)
    times (inr (g, x)) (inl y) = inl (subst (λ t. text_lt c.updated_at t ≡ true) g y)
    times (inr (g, x)) (inr (h, y)) = inr (h ∙ g, replaces_trans a.source b.source c.source x y)

-- Whether a candidate would replace the best one
abbrev pub outdoes : Option Baseline → Option Baseline → Bool
outdoes best none = false
outdoes none (some candidate) = true
outdoes (some best) (some candidate) = should_replace_baseline best candidate

-- `r` leads what `best` leads.
Leads : Option Baseline → Option Baseline → Type 0
Leads r none = Unit
Leads none (some b) = ⊥
Leads (some r) (some b) = Holds r b

Leads-trans : (a b c : Option Baseline) → Leads a b → Leads b c → Leads a c
unfolding Leads
Leads-trans a b none x y = tt
Leads-trans a none (some c) x y = absurd y
Leads-trans none (some b) (some c) x y = absurd x
Leads-trans (some a) (some b) (some c) x y = Holds-trans a b c x y

Leads-refl : (o : Option Baseline) → Leads o o
unfolding Leads
Leads-refl none = tt
Leads-refl (some b) = Holds-refl b

Leads-outdoes : (r o : Option Baseline) → Leads r o → outdoes r o ≡ false
unfolding Leads
Leads-outdoes r none x = refl
Leads-outdoes none (some b) x = absurd x
Leads-outdoes (some r) (some b) x = Holds-kept r b x

consider-Leads :
    (best new : Option Baseline) → Leads (consider best new) best × Leads (consider best new) new
unfolding consider Leads
consider-Leads none none = (tt, tt)
consider-Leads (some b) none = (Holds-refl b, tt)
consider-Leads none (some c) = (tt, Holds-refl c)
consider-Leads (some b) (some c) = elim (Bool-cases (should_replace_baseline b c)) [
  | inl new ↦ rw new (replaced-Holds b c new, Holds-refl c)
  | inr kept ↦ rw kept (Holds-refl b, kept-Holds b c kept)
]

module _ {Row : Type 0} (candidate : Row → Option Baseline) where
  best_among-Leads :
      (best : Option Baseline) (rows : List Row)
      → Leads (best_among candidate best rows) best
        × All (λ r. Leads (best_among candidate best rows) (candidate r)) rows
  unfolding best_among
  best_among-Leads best [] = (Leads-refl best, tt)
  best_among-Leads best (r ∷ rows) =
      let (led, rest) = best_among-Leads (consider best (candidate r)) rows in
      let (old, new) = consider-Leads best (candidate r) in
      (
        Leads-trans _ (consider best (candidate r)) best led old,
        (Leads-trans _ (consider best (candidate r)) (candidate r) led new, rest),
      )

  weaken :
      (P Q : Row → Type 0) (rows : List Row) → ((r : Row) → P r → Q r) → All P rows → All Q rows
  weaken P Q [] f tt = tt
  weaken P Q (r ∷ rows) f (here, rest) = (f r here, weaken P Q rows f rest)

-- No observed pipe and no signature state that counts for the request would replace the baseline that
-- was found; in particular there is a baseline as soon as one of them counts.
pub newest_baseline-outdone :
    (request : SignRequest) (status : NodeStatus) (pipe_id : Text)
    → All
        (λ o.
          outdoes (newest_baseline request status pipe_id) (observed_candidate request pipe_id o)
          ≡ false)
        status.observed_pipes
      × All
          (λ s.
            outdoes (newest_baseline request status pipe_id) (signed_candidate request pipe_id s)
            ≡ false)
          status.signature_states
unfolding newest_baseline
newest_baseline-outdone request status pipe_id =
    let first = best_among-Leads (observed_candidate request pipe_id) none status.observed_pipes in
    let best = best_among (observed_candidate request pipe_id) none status.observed_pipes in
    let (led, states) =
      best_among-Leads (signed_candidate request pipe_id) best status.signature_states in
    (
      weaken (observed_candidate request pipe_id) _ _ status.observed_pipes
          (λ o h.
            Leads-outdoes _ _ (Leads-trans _ best (observed_candidate request pipe_id o) led h))
          first.1,
      weaken (signed_candidate request pipe_id) _ _ status.signature_states
          (λ s h. Leads-outdoes _ _ h) states,
    )
