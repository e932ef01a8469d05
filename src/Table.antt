-- ===== src/Table.antt =====
-- A table of a database (packages/stackflow-agent/src/db.js, packages/x402-client/src/
-- sqlite-state-store.js) with a text as primary key:
-- the rows in order of insertion, and the statements SELECT ... WHERE key = ?,
-- INSERT ... ON CONFLICT(key) DO UPDATE, and UPDATE ... WHERE key = ?.
pub mod Laws
use stackflow.Common.{Bool, true, false, Option, none, some, List, [], ◌∷◌, if◌then◌else◌, ◌≡◌, All}
use stackflow.Js.Text.{Text, text_eq}

module _ {Row : Type 0} (key : Row → Text) where
  unfoldable pub find : Text → List Row → Option Row
  find k [] = none
  find k (r ∷ rs) = if text_eq (key r) k then some r else find k rs

  -- `merge old new` is the row that DO UPDATE SET leaves.
  unfoldable pub upsert : (Row → Row → Row) → Row → List Row → List Row
  upsert merge new [] = new ∷ []
  upsert merge new (r ∷ rs) =
      if text_eq (key r) (key new) then merge r new ∷ rs else r ∷ upsert merge new rs

  unfoldable pub update : Text → (Row → Row) → List Row → List Row
  update k change [] = []
  update k change (r ∷ rs) = if text_eq (key r) k then change r ∷ rs else r ∷ update k change rs

  -- No row has the key.
  abbrev pub Fresh : Text → List Row → Type 0
  Fresh k rs = All (λ r. text_eq (key r) k ≡ false) rs

  -- The primary key is unique.
  abbrev pub Distinct : List Row → Type 0
  Distinct [] = Unit {0}
  Distinct (r ∷ rs) = Fresh (key r) rs × Distinct rs
