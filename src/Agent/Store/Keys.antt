-- ===== src/Agent/Store/Keys.antt =====
-- The key of signature_states in packages/stackflow-agent/src/db.js, `${pipeId}|${forPrincipal}`,
-- and the query for the latest state.
use mathlib.Core.Option
use mathlib.Core.Bool.{and-eq-true_iff, false≢true}
use stackflow.Common.{
  ℕ, ◌≡◌, refl, sym, ◌∙◌, ap, true, false, none, List, [], ◌∷◌, ◌++◌, ◌==◌, arith, All, Bool-cases,
  inl, inr,
}
use stackflow.Js.Text.{Text, text_eq, text_eq_iff, codes}
use stackflow.Agent.Utils.{bar}
use stackflow.Table.{find, Fresh, Distinct}
use stackflow.Agent.Store.Rows.{StateRow, belongs_to, select_latest, state_id_of}

abbrev pub NoBar : Text → Type 0
NoBar t = All (λ c. (c == b'|') ≡ false) t

NoBar-inside : (p f : Text) → NoBar (p ++ b'|' ∷ f) → ⊥
NoBar-inside [] f (h, _) = ground arith
NoBar-inside (c ∷ p) f (_, h) = NoBar-inside p f h

head_eq : {a b : ℕ} {s t : Text} → a ∷ s ≡ b ∷ t → a ≡ b
head_eq h = cc

tail_eq : {a b : ℕ} {s t : Text} → a ∷ s ≡ b ∷ t → s ≡ t
tail_eq h = cc

split_at_bar :
    (p q f g : Text) → NoBar f → NoBar g → p ++ b'|' ∷ f ≡ q ++ b'|' ∷ g → (p ≡ q) × (f ≡ g)
split_at_bar [] [] f g nf ng h = (refl, tail_eq h)
split_at_bar [] (d ∷ q) f g nf ng h =
    let e : f ≡ q ++ b'|' ∷ g = tail_eq h in absurd (NoBar-inside q g (rw e at nf))
split_at_bar (c ∷ p) [] f g nf ng h =
    let e : p ++ b'|' ∷ f ≡ g = tail_eq h in absurd (NoBar-inside p f (rw (← e) at ng))
split_at_bar (c ∷ p) (d ∷ q) f g nf ng h =
    let (same, rest) = split_at_bar p q f g nf ng (tail_eq h) in
    let head : c ≡ d = head_eq h in (cc, rest)

-- Two keys that are equal have the same pipe and the same principal.
pub state_id_inj :
    (p q f g : Text) → NoBar f → NoBar g → state_id_of p f ≡ state_id_of q g → (p ≡ q) × (f ≡ g)
unfolding state_id_of bar codes
state_id_inj p q f g nf ng h = split_at_bar p q f g nf ng h

-- A row is stored under the key of its pipe and its principal, which has no bar.
pub record IsKeyed (r : StateRow) : Type 0 where
  pub key : r.state_id ≡ state_id_of r.state.pipe_id r.state.for_principal
  pub no_bar : NoBar r.state.for_principal

abbrev pub state_id : StateRow → Text
state_id r = r.state_id

pub belongs_to_iff_id :
    (p f : Text) (r : StateRow)
    → NoBar f
    → IsKeyed r
    → belongs_to p f r ≡ text_eq r.state_id (state_id_of p f)
belongs_to_iff_id p f r nf k = elim (Bool-cases (text_eq r.state_id (state_id_of p f))) [
  | inl same ↦
      let e = sym k.key ∙ (text_eq_iff _ _).0 same in
      let (ep, ef) = state_id_inj r.state.pipe_id p r.state.for_principal f k.no_bar nf e in
      let here : belongs_to p f r ≡ true =
        unfold belongs_to in
        rw ((text_eq_iff r.state.pipe_id p).1 ep, (text_eq_iff r.state.for_principal f).1 ef) in
      here ∙ sym same
  | inr differ ↦ elim (Bool-cases (belongs_to p f r)) [
    | inl belongs ↦
        let (sp, sf) =
          (and-eq-true_iff (text_eq r.state.pipe_id p) (text_eq r.state.for_principal f)).0
            (unfold belongs_to in belongs) in
        let ep = (text_eq_iff _ _).0 sp in
        let ef = (text_eq_iff _ _).0 sf in
        let e : r.state_id ≡ state_id_of p f =
          k.key ∙ ap (λ t. state_id_of t r.state.for_principal) ep ∙ ap (state_id_of p) ef in
        absurd (false≢true (sym differ ∙ (text_eq_iff _ _).1 e))
    | inr not_here ↦ not_here ∙ sym differ
  ]
]

select_latest-Fresh :
    (p f : Text) (rs : List StateRow)
    → NoBar f
    → All IsKeyed rs
    → Fresh state_id (state_id_of p f) rs
    → select_latest p f rs ≡ none
unfolding select_latest
select_latest-Fresh p f [] nf ks h = refl
select_latest-Fresh p f (r ∷ rs) nf (k, ks) (here, rest) =
    rw (belongs_to_iff_id p f r nf k ∙ here) (select_latest-Fresh p f rs nf ks rest)

-- For a principal without a bar and rows with well-formed, distinct keys, the query for the latest
-- state finds what a lookup by the key finds.
pub select_latest-eq-find :
    (p f : Text) (rs : List StateRow)
    → NoBar f
    → All IsKeyed rs
    → Distinct state_id rs
    → select_latest p f rs
      ≡ Option.map (λ (r : StateRow). r.state) (find state_id (state_id_of p f) rs)
unfolding select_latest find
select_latest-eq-find p f [] nf ks ds = refl
select_latest-eq-find p f (r ∷ rs) nf (k, ks) (fresh, ds) =
    elim (Bool-cases (text_eq r.state_id (state_id_of p f))) [
      | inl same ↦
          let e = (text_eq_iff _ _).0 same in
          rw (belongs_to_iff_id p f r nf k, same, select_latest-Fresh p f rs nf ks (rw e at fresh))
      | inr differ ↦
          rw (belongs_to_iff_id p f r nf k, differ) (select_latest-eq-find p f rs nf ks ds)
    ]
