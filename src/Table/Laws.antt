-- ===== src/Table/Laws.antt =====
-- Looking up a key after an insertion or an update, and the uniqueness of keys.
use stackflow.Common.{
  ◌≡◌, refl, sym, ◌∙◌, ap, true, false, Option, none, some, List, [], ◌∷◌, if◌then◌else◌, arith,
  All, Bool-cases, inl, inr,
}
use mathlib.Core.Option
use stackflow.Js.Text.{Text, text_eq, text_eq_iff}
use stackflow.Table.{find, upsert, update, Fresh, Distinct}

pub text_eq_sym : (s t : Text) → text_eq s t ≡ text_eq t s
text_eq_sym s t = elim (Bool-cases (text_eq s t)) [
  | inl same ↦ let e : t ≡ s = sym ((text_eq_iff s t).0 same) in same ∙ sym ((text_eq_iff t s).1 e)
  | inr differ ↦ elim (Bool-cases (text_eq t s)) [
    | inl same ↦ let e : s ≡ t = sym ((text_eq_iff t s).0 same) in (text_eq_iff s t).1 e ∙ sym same
    | inr also ↦ differ ∙ sym also
  ]
]

module _ {Row : Type 0} (key : Row → Text) where
  abbrev pub merged : (Row → Row → Row) → Row → Option Row → Row
  merged merge new none = new
  merged merge new (some old) = merge old new

  abbrev pub KeepsKey : (Row → Row → Row) → Type 0
  KeepsKey merge = (r new : Row) → key (merge r new) ≡ key r

  pub find-upsert_self :
      (merge : Row → Row → Row) (new : Row) (rs : List Row)
      → KeepsKey merge
      → find key (key new) (upsert key merge new rs)
        ≡ some (merged merge new (find key (key new) rs))
  unfolding find upsert
  find-upsert_self merge new [] keep = rw ((text_eq_iff (key new) (key new)).1 refl)
  find-upsert_self merge new (r ∷ rs) keep = elim (Bool-cases (text_eq (key r) (key new))) [
    | inl same ↦ rw same (rw (keep r new, same))
    | inr differ ↦ rw differ (rw differ (find-upsert_self merge new rs keep))
  ]

  pub find-upsert_ne :
      (merge : Row → Row → Row) (new : Row) (k : Text) (rs : List Row)
      → KeepsKey merge
      → text_eq (key new) k ≡ false
      → find key k (upsert key merge new rs) ≡ find key k rs
  unfolding find upsert
  find-upsert_ne merge new k [] keep ne = rw ne
  find-upsert_ne merge new k (r ∷ rs) keep ne = elim (Bool-cases (text_eq (key r) (key new))) [
    | inl same ↦ let e = (text_eq_iff (key r) (key new)).0 same in rw (same, keep r new, e, ne)
    | inr differ ↦
        rw differ (
          ap (λ o. if text_eq (key r) k then some r else o) (find-upsert_ne merge new k rs keep ne))
  ]

  pub find-update_self :
      (k : Text) (change : Row → Row) (rs : List Row)
      → ((r : Row) → key (change r) ≡ key r)
      → find key k (update key k change rs) ≡ Option.map change (find key k rs)
  unfolding find update
  find-update_self k change [] keep = refl
  find-update_self k change (r ∷ rs) keep = elim (Bool-cases (text_eq (key r) k)) [
    | inl same ↦ rw same (rw (keep r, same))
    | inr differ ↦ rw differ (rw differ (find-update_self k change rs keep))
  ]

  pub find-update_ne :
      (k j : Text) (change : Row → Row) (rs : List Row)
      → ((r : Row) → key (change r) ≡ key r)
      → text_eq k j ≡ false
      → find key j (update key k change rs) ≡ find key j rs
  unfolding find update
  find-update_ne k j change [] keep ne = refl
  find-update_ne k j change (r ∷ rs) keep ne = elim (Bool-cases (text_eq (key r) k)) [
    | inl same ↦ let e = (text_eq_iff (key r) k).0 same in rw (same, keep r, e, ne)
    | inr differ ↦
        rw differ
          (ap (λ o. if text_eq (key r) j then some r else o) (find-update_ne k j change rs keep ne))
  ]

  Fresh-upsert :
      (merge : Row → Row → Row) (new : Row) (k : Text) (rs : List Row)
      → KeepsKey merge
      → text_eq (key new) k ≡ false
      → Fresh key k rs
      → Fresh key k (upsert key merge new rs)
  unfolding upsert
  Fresh-upsert merge new k [] keep ne fresh = (ne, tt)
  Fresh-upsert merge new k (r ∷ rs) keep ne (here, rest) =
      elim (Bool-cases (text_eq (key r) (key new))) [
        | inl same ↦ rw same (rw (keep r new) here, rest)
        | inr differ ↦ rw differ (here, Fresh-upsert merge new k rs keep ne rest)
      ]

  -- The primary key stays unique.
  pub Distinct-upsert :
      (merge : Row → Row → Row) (new : Row) (rs : List Row)
      → KeepsKey merge
      → Distinct key rs
      → Distinct key (upsert key merge new rs)
  unfolding upsert
  Distinct-upsert merge new [] keep h = (tt, tt)
  Distinct-upsert merge new (r ∷ rs) keep (fresh, rest) =
      elim (Bool-cases (text_eq (key r) (key new))) [
        | inl same ↦ rw same (rw (keep r new) fresh, rest)
        | inr differ ↦ rw differ (
          Fresh-upsert merge new (key r) rs keep (text_eq_sym (key new) (key r) ∙ differ) fresh,
          Distinct-upsert merge new rs keep rest,
        )
      ]

  -- What holds of all rows and of the row that a statement writes holds of all rows after it.
  pub All-upsert :
      (P : Row → Type 0) (merge : Row → Row → Row) (new : Row) (rs : List Row)
      → ((r : Row) → P r → text_eq (key r) (key new) ≡ true → P (merge r new))
      → P new
      → All P rs
      → All P (upsert key merge new rs)
  unfolding upsert
  All-upsert P merge new [] keep p h = (p, tt)
  All-upsert P merge new (r ∷ rs) keep p (here, rest) =
      elim (Bool-cases (text_eq (key r) (key new))) [
        | inl same ↦ rw same (keep r here same, rest)
        | inr differ ↦ rw differ (here, All-upsert P merge new rs keep p rest)
      ]

  -- A row that is found has the key, and what holds of all rows.
  pub find-key : (k : Text) (rs : List Row) {r : Row} → find key k rs ≡ some r → key r ≡ k
  unfolding find
  find-key k [] h = cc
  find-key k (x ∷ rs) {r} h = elim (Bool-cases (text_eq (key x) k)) [
    | inl same ↦ let e : x ≡ r = ground arith in rw (← e) ((text_eq_iff (key x) k).0 same)
    | inr differ ↦ find-key k rs (rw differ at h)
  ]

  pub find-All :
      (P : Row → Type 0) (k : Text) (rs : List Row) {r : Row}
      → All P rs
      → find key k rs ≡ some r
      → P r
  unfolding find
  find-All P k [] h e = cc
  find-All P k (x ∷ rs) {r} (here, rest) e = elim (Bool-cases (text_eq (key x) k)) [
    | inl same ↦ let same_row : x ≡ r = ground arith in rw (← same_row) here
    | inr differ ↦ find-All P k rs rest (rw differ at e)
  ]

  pub find-Fresh : (k : Text) (rs : List Row) → Fresh key k rs → find key k rs ≡ none
  unfolding find
  find-Fresh k [] h = refl
  find-Fresh k (r ∷ rs) (here, rest) = rw here (find-Fresh k rs rest)

  Fresh-update :
      (k j : Text) (change : Row → Row) (rs : List Row)
      → ((r : Row) → key (change r) ≡ key r)
      → Fresh key j rs
      → Fresh key j (update key k change rs)
  unfolding update
  Fresh-update k j change [] keep h = h
  Fresh-update k j change (r ∷ rs) keep (here, rest) = elim (Bool-cases (text_eq (key r) k)) [
    | inl same ↦ rw same (rw (keep r) here, rest)
    | inr differ ↦ rw differ (here, Fresh-update k j change rs keep rest)
  ]

  pub Distinct-update :
      (k : Text) (change : Row → Row) (rs : List Row)
      → ((r : Row) → key (change r) ≡ key r)
      → Distinct key rs
      → Distinct key (update key k change rs)
  unfolding update
  Distinct-update k change [] keep h = h
  Distinct-update k change (r ∷ rs) keep (fresh, rest) = elim (Bool-cases (text_eq (key r) k)) [
    | inl same ↦ rw same (rw (keep r) fresh, rest)
    | inr differ ↦
        rw differ
          (Fresh-update k (key r) change rs keep fresh, Distinct-update k change rs keep rest)
  ]
