-- ===== src/Js/Text/Order.antt =====
-- The order `<` of two JavaScript strings.
use stackflow.Common.{◌≡◌, refl, true, false, arith, [], ◌∷◌, ◌⊎◌, inl, inr}
use stackflow.Js.Text.{Text, text_lt}

-- `a <= b <= c`, with `s <= t` read as "not t < s"
pub text_lt-false_trans :
    (a b c : Text) → text_lt b a ≡ false → text_lt c b ≡ false → text_lt c a ≡ false
unfolding text_lt
text_lt-false_trans [] [] [] ab bc = refl
text_lt-false_trans [] [] (z ∷ c) ab bc = refl
text_lt-false_trans [] (y ∷ b) [] ab bc = refl
text_lt-false_trans [] (y ∷ b) (z ∷ c) ab bc = refl
text_lt-false_trans (x ∷ a) [] c ab bc = absurd (cc)
text_lt-false_trans (x ∷ a) (y ∷ b) [] ab bc = bc
text_lt-false_trans (x ∷ a) (y ∷ b) (z ∷ c) ab bc =
    let rest = text_lt-false_trans a b c in ground arith

pub text_lt_asym : (a b : Text) → text_lt a b ≡ true → text_lt b a ≡ false
unfolding text_lt
text_lt_asym [] [] less = refl
text_lt_asym [] (y ∷ b) less = refl
text_lt_asym (x ∷ a) [] less = absurd (cc)
text_lt_asym (x ∷ a) (y ∷ b) less = let rest = text_lt_asym a b in ground arith

pub text_lt_trans : (a b c : Text) → text_lt a b ≡ true → text_lt b c ≡ true → text_lt a c ≡ true
unfolding text_lt
text_lt_trans a [] c ab bc = absurd (no_less a ab)
  where
    no_less : (t : Text) → text_lt t [] ≡ true → ⊥
    no_less [] e = cc
    no_less (x ∷ t) e = cc
text_lt_trans a (y ∷ b) [] ab bc = absurd (cc)
text_lt_trans [] (y ∷ b) (z ∷ c) ab bc = refl
text_lt_trans (x ∷ a) (y ∷ b) (z ∷ c) ab bc = let rest = text_lt_trans a b c in ground arith

pub text_order : (a b : Text) → (text_lt a b ≡ true) ⊎ ((a ≡ b) ⊎ (text_lt b a ≡ true))
unfolding text_lt
text_order [] [] = inr (inl refl)
text_order [] (y ∷ b) = inl refl
text_order (x ∷ a) [] = inr (inr refl)
text_order (x ∷ a) (y ∷ b) = elim (text_order a b) [
  | inl less ↦ ground arith
  | inr (inl same) ↦ ground arith
  | inr (inr more) ↦ ground arith
]
