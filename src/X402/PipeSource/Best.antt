-- ===== src/X402/PipeSource/Best.antt =====
-- `selectBestPipeFromNode` of packages/x402-client/src/pipe-state-source.js.
use stackflow.Common.{
  ◌≡◌, refl, sym, ◌⊎◌, inl, inr, Bool, true, false, ◌&&◌, Option, none, some, List, [], ◌∷◌, arith,
  All, Bool-cases,
}
use mathlib.Core.List.{Memᴰ}
use mathlib.Core.List.Memᴰ.{head, tail}
use mathlib.Core.Path.{subst}
use stackflow.Js.Text.{Text}
use stackflow.Js.Text.Order.{text_lt-false_trans, text_lt_asym}
use stackflow.Js.Value.{Value, Items, nil, cons, arr}
use stackflow.X402.PipeSource.{
  is_candidate, beats_best, updated_of, better, best_of, select_best_pipe_from_node,
}

-- "a is not newer than b" is a preorder.
beats_best-false_trans :
    (a b c : Value) → beats_best a b ≡ false → beats_best b c ≡ false → beats_best a c ≡ false
unfolding beats_best
beats_best-false_trans a b c ab bc =
    let back = text_lt-false_trans (updated_of a) (updated_of b) (updated_of c) in ground arith

beats_best_asym : (a b : Value) → beats_best a b ≡ true → beats_best b a ≡ false
unfolding beats_best
beats_best_asym a b newer = let back = text_lt_asym (updated_of b) (updated_of a) in ground arith

beats_best_irrefl : (a : Value) → beats_best a a ≡ false
beats_best_irrefl a = elim (Bool-cases (beats_best a a)) [
  | inl newer ↦ beats_best_asym a a newer
  | inr no_newer ↦ no_newer
]

unfoldable pub values : Items → List Value
values nil = []
values (cons v items) = v ∷ values items

module _ (principal counterparty contract_id : Text) where
  abbrev candidate : Value → Bool
  candidate c = is_candidate principal counterparty contract_id c

  NoneNewer : Value → List Value → Type 0
  NoneNewer best cs = All (λ c. (candidate c && beats_best c best) ≡ false) cs

  -- Of the listed pipes, there is no candidate, or this one is a candidate and none is newer.
  pub Chosen : List Value → Option Value → Type 0
  unfolding NoneNewer
  Chosen cs none = All (λ c. candidate c ≡ false) cs
  Chosen cs (some best) = (candidate best ≡ true) × Memᴰ best cs × NoneNewer best cs

  -- What the loop makes of a candidate and the rest of the list
  Leads : Value → Items → Type 0
  Leads b items =
      (r : Value) × (best_of principal counterparty contract_id (some b) items ≡ some r)
      × (beats_best b r ≡ false)
      × NoneNewer r (values items)
      × ((r ≡ b) ⊎ (candidate r ≡ true) × Memᴰ r (values items))

  and_false : (a b : Bool) → b ≡ false → (a && b) ≡ false
  and_false true b e = e
  and_false false b e = refl

  later :
      {b c r : Value} {cs : List Value}
      → ((r ≡ b) ⊎ (candidate r ≡ true) × Memᴰ r cs)
      → (r ≡ b) ⊎ (candidate r ≡ true) × Memᴰ r (c ∷ cs)
  later (inl same) = inl same
  later (inr (found, there)) = inr (found, tail there)

  chosen :
      {c r : Value} {cs : List Value}
      → candidate c ≡ true
      → ((r ≡ c) ⊎ (candidate r ≡ true) × Memᴰ r cs)
      → (candidate r ≡ true) × Memᴰ r (c ∷ cs)
  chosen taken (inl same) = (subst (λ v. candidate v ≡ true) (sym same) taken, head same)
  chosen taken (inr (found, there)) = (found, tail there)

  best_of-Leads : (b : Value) (items : Items) → Leads b items
  unfolding Leads NoneNewer best_of better values
  best_of-Leads b nil = (b, refl, beats_best_irrefl b, tt, inl refl)
  best_of-Leads b (cons c items) = elim (Bool-cases (candidate c)) [
    | inr skipped ↦
        let (r, reached, leads, rest, found) = best_of-Leads b items in
        (r, rw skipped reached, leads, (rw skipped refl, rest), later found)
    | inl taken ↦ elim (Bool-cases (beats_best c b)) [
      | inl newer ↦
          let (r, reached, leads, rest, found) = best_of-Leads c items in
          (
            r,
            rw (taken, newer) reached,
            beats_best-false_trans b c r (beats_best_asym c b newer) leads,
            (and_false _ _ leads, rest),
            inr (chosen taken found),
          )
      | inr older ↦
          let (r, reached, leads, rest, found) = best_of-Leads b items in
          (
            r,
            rw (taken, older) reached,
            leads,
            (and_false _ _ (beats_best-false_trans c b r older leads), rest),
            later found,
          )
    ]
  ]

  Chosen-cons :
      (c : Value) (cs : List Value) (o : Option Value)
      → candidate c ≡ false
      → Chosen cs o
      → Chosen (c ∷ cs) o
  unfolding Chosen NoneNewer
  Chosen-cons c cs none skipped all = (skipped, all)
  Chosen-cons c cs (some r) skipped (found, there, rest) =
      (found, tail there, (rw skipped refl, rest))

  best_of-Chosen :
      (items : Items)
      → Chosen (values items) (best_of principal counterparty contract_id none items)
  unfolding Chosen Leads NoneNewer best_of better values
  best_of-Chosen nil = tt
  best_of-Chosen (cons c items) = elim (Bool-cases (candidate c)) [
    | inr skipped ↦ rw skipped (Chosen-cons c (values items) _ skipped (best_of-Chosen items))
    | inl taken ↦
        let (r, reached, leads, rest, found) = best_of-Leads c items in
        let (is_one, there) = chosen taken found in
        rw (taken, reached) (is_one, there, (and_false _ _ leads, rest))
  ]

  -- Of the pipes that the node lists, the selection is a candidate that no other candidate exceeds in
  -- nonce, or at the same nonce in time of update, and there is none only if no pipe is a candidate.
  pub select-Chosen :
      (items : Items)
      → Chosen
          (values items)
          (select_best_pipe_from_node principal counterparty contract_id (arr items))
  unfolding select_best_pipe_from_node
  select-Chosen items = best_of-Chosen items
