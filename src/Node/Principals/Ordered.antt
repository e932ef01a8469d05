-- ===== src/Node/Principals/Ordered.antt =====
-- `canonicalPipeKey` of server/src/principal-utils.ts.
use stackflow.Common.{ℕ, ◌≡◌, refl, ◌∙◌, ap, Option, List, [], ◌∷◌, arith}
use stackflow.Js.Text.{Text}
use stackflow.Js.Outcome.{Outcome, ok}
use stackflow.Table.Laws.{text_eq_sym}
use stackflow.Node.Principals.{Order, less, same, greater, compare_bytes, canonical_pipe_key}

abbrev flip : Order → Order
flip less = greater
flip same = same
flip greater = less

compare_bytes-flip : (a b : List ℕ) → compare_bytes b a ≡ flip (compare_bytes a b)
unfolding compare_bytes
compare_bytes-flip [] [] = refl
compare_bytes-flip [] (y ∷ b) = refl
compare_bytes-flip (x ∷ a) [] = refl
compare_bytes-flip (x ∷ a) (y ∷ b) = let rest = compare_bytes-flip a b in ground arith

compare_bytes-same : (a b : List ℕ) → compare_bytes a b ≡ same → a ≡ b
unfolding compare_bytes
compare_bytes-same [] [] e = refl
compare_bytes-same [] (y ∷ b) e = absurd (cc)
compare_bytes-same (x ∷ a) [] e = absurd (cc)
compare_bytes-same (x ∷ a) (y ∷ b) e = let rest = compare_bytes-same a b in ground arith

-- The two orders of the principals of a pipe, whose serialisations differ, give one key.
pub canonical_pipe_key-sym :
    (serialize : Text → Outcome (List ℕ)) (token : Option Text) (p q : Text) (a b : List ℕ)
    → serialize p ≡ ok a
    → serialize q ≡ ok b
    → (a ≡ b → ⊥)
    → canonical_pipe_key serialize token p q ≡ canonical_pipe_key serialize token q p
unfolding canonical_pipe_key
canonical_pipe_key-sym serialize token p q a b first second differ = go (compare_bytes a b) refl
  where
    go :
        (o : Order)
        → compare_bytes a b ≡ o
        → canonical_pipe_key serialize token p q ≡ canonical_pipe_key serialize token q p
    go same e = absurd (differ (compare_bytes-same a b e))
    go less e =
        let back = compare_bytes-flip a b ∙ ap flip e in
        rw (canonical_pipe_key, text_eq_sym p q, first, second, e, back) refl
    go greater e =
        let back = compare_bytes-flip a b ∙ ap flip e in
        rw (canonical_pipe_key, text_eq_sym p q, first, second, e, back) refl
