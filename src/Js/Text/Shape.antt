-- ===== src/Js/Text/Shape.antt =====
-- `trim`, `toLowerCase` and the "0x" prefix on trimmed texts, digits and hexadecimal texts.
use mathlib.Core.Bool.{and-eq-true_iff, false≢true, not}
use mathlib.Core.Path.{ap₂}
use stackflow.Common.{
  ℕ, ◌≡◌, refl, true, false, ap, ◌∙◌, sym, [], ◌∷◌, ◌++◌, arith, ◌==◌, Bool-cases, inl, inr,
}
use stackflow.Js.Text.{
  Text, is_space, trim_start, cons_unless_blank, trim_end, trim, is_digit, all_digits, lower_unit,
  lower, is_hex_digit, all_hex, with_0x, is_0x_hex, is_empty,
}

-- The text is empty or begins with what is no white space.
abbrev StartsFull : Text → Type 0
StartsFull [] = Unit {0}
StartsFull (c ∷ s) = is_space c ≡ false

trim_start-StartsFull : (s : Text) → StartsFull (trim_start s)
unfolding trim_start
trim_start-StartsFull [] = tt
trim_start-StartsFull (c ∷ s) = elim (Bool-cases (is_space c)) [
  | inl blank ↦ rw blank (trim_start-StartsFull s)
  | inr full ↦ rw full full
]

trim_start_of_StartsFull : (s : Text) → StartsFull s → trim_start s ≡ s
unfolding trim_start
trim_start_of_StartsFull [] h = refl
trim_start_of_StartsFull (c ∷ s) h = rw h

cons_unless_blank_full : (c : ℕ) (s : Text) → is_space c ≡ false → cons_unless_blank c s ≡ c ∷ s
unfolding cons_unless_blank
cons_unless_blank_full c [] h = rw h
cons_unless_blank_full c (d ∷ s) h = refl

trim_end-StartsFull : (s : Text) → StartsFull s → StartsFull (trim_end s)
unfolding trim_end
trim_end-StartsFull [] h = tt
trim_end-StartsFull (c ∷ s) h = rw (cons_unless_blank_full c (trim_end s) h) h

trim_end-cons_unless_blank :
    (c : ℕ) (s : Text) → trim_end s ≡ s → trim_end (cons_unless_blank c s) ≡ cons_unless_blank c s
unfolding trim_end
trim_end-cons_unless_blank c [] h = elim (Bool-cases (is_space c)) [
  | inl blank ↦ rw blank
  | inr full ↦ rw full (rw full)
]
trim_end-cons_unless_blank c (d ∷ s) h = ap (cons_unless_blank c) h

trim_end_idem : (s : Text) → trim_end (trim_end s) ≡ trim_end s
unfolding trim_end
trim_end_idem [] = refl
trim_end_idem (c ∷ s) = trim_end-cons_unless_blank c (trim_end s) (trim_end_idem s)

pub trim_idem : (s : Text) → trim (trim s) ≡ trim s
trim_idem s =
    let full = trim_end-StartsFull (trim_start s) (trim_start-StartsFull s) in
    let started = trim_start_of_StartsFull (trim_end (trim_start s)) full in
    let twice : trim_end (trim_start (trim_end (trim_start s))) ≡ trim_end (trim_start s) =
      ap trim_end started ∙ trim_end_idem (trim_start s) in
    unfold trim in twice

trim-StartsFull : (s : Text) → StartsFull (trim s)
unfolding trim
trim-StartsFull s = trim_end-StartsFull (trim_start s) (trim_start-StartsFull s)

trim_end_of_trimmed : (s : Text) → trim s ≡ s → trim_end s ≡ s
trim_end_of_trimmed s h =
    let ended : trim_end (trim s) ≡ trim s = unfold trim in trim_end_idem (trim_start s) in
    ap trim_end (sym h) ∙ ended ∙ h

cons_unless_blank-append :
    (c : ℕ) (s t : Text) → is_empty t ≡ false → cons_unless_blank c (s ++ t) ≡ c ∷ (s ++ t)
unfolding cons_unless_blank
cons_unless_blank-append c [] [] h = absurd (false≢true (sym h ∙ unfold is_empty in refl))
cons_unless_blank-append c [] (d ∷ t) h = refl
cons_unless_blank-append c (d ∷ s) t h = refl

pub is_empty-append : (s t : Text) → is_empty t ≡ false → is_empty (s ++ t) ≡ false
unfolding is_empty
is_empty-append [] t h = h
is_empty-append (c ∷ s) t h = refl

-- A last part that is not empty and ends with no white space keeps its end.
trim_end-append : (s t : Text) → is_empty t ≡ false → trim_end t ≡ t → trim_end (s ++ t) ≡ s ++ t
unfolding trim_end
trim_end-append [] t full h = h
trim_end-append (c ∷ s) t full h =
    ap (cons_unless_blank c) (trim_end-append s t full h) ∙ cons_unless_blank-append c s t full

-- Joining: the ends of the first and the last part are the ends of the whole.
pub trim-append :
    (s m t : Text)
    → trim s ≡ s
    → is_empty s ≡ false
    → trim t ≡ t
    → is_empty t ≡ false
    → trim (s ++ (m ++ t)) ≡ s ++ (m ++ t)
trim-append [] m t hs fs ht ft = absurd (false≢true (sym fs ∙ unfold is_empty in refl))
trim-append (c ∷ s) m t hs fs ht ft =
    let starts = rw hs at (trim-StartsFull (c ∷ s)) in
    let started = trim_start_of_StartsFull (c ∷ (s ++ (m ++ t))) starts in
    let ended =
      trim_end-append (c ∷ s) (m ++ t) (is_empty-append m t ft)
        (trim_end-append m t ft (trim_end_of_trimmed t ht)) in
    unfold trim in ap trim_end started ∙ ended

-- No code unit of the text is white space.
abbrev NoSpace : Text → Type 0
NoSpace [] = Unit {0}
NoSpace (c ∷ s) = (is_space c ≡ false) × NoSpace s

trim_end_of_NoSpace : (s : Text) → NoSpace s → trim_end s ≡ s
unfolding trim_end
trim_end_of_NoSpace [] h = refl
trim_end_of_NoSpace (c ∷ s) (full, rest) =
    ap (cons_unless_blank c) (trim_end_of_NoSpace s rest) ∙ cons_unless_blank_full c s full

StartsFull-of_NoSpace : (s : Text) → NoSpace s → StartsFull s
StartsFull-of_NoSpace [] h = tt
StartsFull-of_NoSpace (c ∷ s) h = h.0

trim_of_NoSpace : (s : Text) → NoSpace s → trim s ≡ s
trim_of_NoSpace s h =
    let started = trim_start_of_StartsFull s (StartsFull-of_NoSpace s h) in
    let ended = trim_end_of_NoSpace s h in unfold trim in rw (started, ended)

digit_not_space : (c : ℕ) → is_digit c ≡ true → is_space c ≡ false
unfolding is_digit is_space
digit_not_space c h = ground arith

all_digits-NoSpace : (s : Text) → all_digits s ≡ true → NoSpace s
unfolding all_digits
all_digits-NoSpace [] h = tt
all_digits-NoSpace (c ∷ s) h =
    let (here, rest) = (and-eq-true_iff (is_digit c) (all_digits s)).0 h in
    (digit_not_space c here, all_digits-NoSpace s rest)

-- Digits have no white space to trim.
pub trim-all_digits : (s : Text) → all_digits s ≡ true → trim s ≡ s
trim-all_digits s h = trim_of_NoSpace s (all_digits-NoSpace s h)

hex_digit_shape : (c : ℕ) → is_hex_digit c ≡ true → (is_space c ≡ false) × (lower_unit c ≡ c)
unfolding is_hex_digit is_space lower_unit
hex_digit_shape c h = ground arith

all_hex-shape : (s : Text) → all_hex s ≡ true → NoSpace s × (lower s ≡ s)
unfolding all_hex lower
all_hex-shape [] h = (tt, refl)
all_hex-shape (c ∷ s) h =
    let (here, rest) = (and-eq-true_iff (is_hex_digit c) (all_hex s)).0 h in
    let (full, low) = hex_digit_shape c here in
    let (more, lows) = all_hex-shape s rest in ((full, more), ap₂ ◌∷◌ low lows)

x_shape : (c : ℕ) → (c == b'x') ≡ true → (is_space c ≡ false) × (lower_unit c ≡ c)
unfolding is_space lower_unit
x_shape c h = ground arith

zero_shape : (c : ℕ) → (c == b'0') ≡ true → (is_space c ≡ false) × (lower_unit c ≡ c)
unfolding is_space lower_unit
zero_shape c h = ground arith

-- The parts of a text that passes /^0x[0-9a-f]+$/.
prefixed_hex_parts :
    (a b : ℕ) (s : Text)
    → is_0x_hex (a ∷ b ∷ s) ≡ true
    → ((a == b'0') ≡ true) × ((b == b'x') ≡ true) × (all_hex s ≡ true)
unfolding is_0x_hex
prefixed_hex_parts a b s h =
    let (front, hex) = (and-eq-true_iff _ (all_hex s)).0 h in
    let (ab, _) = (and-eq-true_iff _ (not (is_empty s))).0 front in
    let (za, xb) = (and-eq-true_iff (a == b'0') (b == b'x')).0 ab in (za, xb, hex)

-- Trimming, lowering and prefixing a normalised hexadecimal text change nothing.
pub prefixed_hex_stable :
    (s : Text) → is_0x_hex s ≡ true → (trim s ≡ s) × (lower s ≡ s) × (with_0x s ≡ s)
prefixed_hex_stable [] h = absurd (false≢true (unfold is_0x_hex in h))
prefixed_hex_stable (a ∷ []) h = absurd (false≢true (unfold is_0x_hex in h))
prefixed_hex_stable (a ∷ b ∷ s) h =
    let (za, xb, hex) = prefixed_hex_parts a b s h in
    let (full_a, low_a) = zero_shape a za in
    let (full_b, low_b) = x_shape b xb in
    let (full, low) = all_hex-shape s hex in
    (
      trim_of_NoSpace (a ∷ b ∷ s) (full_a, (full_b, full)),
      (unfold lower in ap₂ ◌∷◌ low_a (ap₂ ◌∷◌ low_b low)),
      (unfold with_0x in rw (za, xb)),
    )
