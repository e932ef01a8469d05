-- ===== src/X402/Store/PipeRows.antt =====
-- The pipe states of packages/x402-client/src/sqlite-state-store.js: `setPipeState` and `getPipeState`.
use stackflow.Common.{
  ℕ, ◌≡◌, refl, sym, ◌∙◌, ap, Bool, true, false, some, Option-cases, if◌then◌else◌, List,
  Bool-cases, inl, inr, not, String,
}
use stackflow.Js.Text.{Text, text_eq, text_eq_iff, is_empty}
use stackflow.Js.Outcome.{ok, after_ok, require, type_error}
use stackflow.Js.Value.{Value, get, is_nullish}
use stackflow.Agent.Utils.{trimmed_text, assert_non_empty_string}
use stackflow.Agent.Store.Steps.{value_of_ok}
use stackflow.X402.Numbers.{assert_uint_string}
use stackflow.Table.{find, upsert}
use stackflow.Table.Laws.{KeepsKey, merged, find-upsert_self, find-upsert_ne, find-key}
use stackflow.X402.Store.{
  PipeRow, X402Store, assert_store_open, pipe_row, set_pipe_state, get_pipe_state, merge_pipe,
}

abbrev pub pipe_key_of_row : PipeRow → Text
pipe_key_of_row r = r.pipe_key

merge_pipe-KeepsKey : KeepsKey pipe_key_of_row merge_pipe
unfolding merge_pipe
merge_pipe-KeepsKey old new = refl

find-upsert_pipe :
    (row : PipeRow) (rows : List PipeRow)
    → find pipe_key_of_row row.pipe_key (upsert pipe_key_of_row merge_pipe row rows) ≡ some row
unfolding merge_pipe
find-upsert_pipe row rows =
    let written = find-upsert_self pipe_key_of_row merge_pipe row rows merge_pipe-KeepsKey in
    elim (Option-cases (find pipe_key_of_row row.pipe_key rows)) [
      | inl absent ↦ written ∙ ap (λ o. some (merged pipe_key_of_row merge_pipe row o)) absent
      | inr (old, there) ↦
          written
          ∙ ap (λ o. some (merged pipe_key_of_row merge_pipe row o)) there
          ∙ ap (λ k. some (record row { pipe_key = k }))
              (find-key pipe_key_of_row row.pipe_key rows there)
    ]

get_pipe_state-eq :
    (key : Value) (s : X402Store) (g : Text)
    → s.is_open ≡ true
    → assert_non_empty_string key "pipeKey" ≡ ok g
    → get_pipe_state key s ≡ ok (find pipe_key_of_row g s.pipe_states)
unfolding get_pipe_state assert_store_open
get_pipe_state-eq key s g opened named = simp (opened, named)

unfoldable after_set : PipeRow → X402Store → X402Store
after_set row s = record s { pipe_states = upsert pipe_key_of_row merge_pipe row s.pipe_states }

set_pipe_state-eq :
    (now : ℕ) (state : Value) (s : X402Store) (row : PipeRow)
    → s.is_open ≡ true
    → pipe_row now state ≡ ok row
    → set_pipe_state now state s ≡ ok (after_set row s)
unfolding set_pipe_state assert_store_open after_set
set_pipe_state-eq now state s row opened read = simp (opened, read)

-- An open store takes a state that passes the tests. The state is then read back under its key as it was
-- written, in every column, and every other key reads as before.
pub set_pipe_state-get_pipe_state :
    (now : ℕ) (state other : Value) (s : X402Store) (row : PipeRow) (g : Text)
    → s.is_open ≡ true
    → pipe_row now state ≡ ok row
    → assert_non_empty_string other "pipeKey" ≡ ok g
    → (s' : X402Store) × (set_pipe_state now state s ≡ ok s')
      × (get_pipe_state other s'
          ≡ (if text_eq row.pipe_key g then ok (some row) else get_pipe_state other s))
unfolding after_set
set_pipe_state-get_pipe_state now state other s row g opened read named = (
  after_set row s,
  set_pipe_state-eq now state s row opened read,
  get_pipe_state-eq other (after_set row s) g opened named
      ∙ read_back (text_eq row.pipe_key g) refl,
)
  where
    read_back :
        (b : Bool)
        → text_eq row.pipe_key g ≡ b
        → ok (find pipe_key_of_row g (upsert pipe_key_of_row merge_pipe row s.pipe_states))
          ≡ (if b then ok (some row) else get_pipe_state other s)
    read_back true same =
        rw (← (text_eq_iff _ _).0 same) (ap ok (find-upsert_pipe row s.pipe_states))
    read_back false differ =
        ap ok
          (find-upsert_ne pipe_key_of_row merge_pipe row g s.pipe_states merge_pipe-KeepsKey differ)
        ∙ sym (get_pipe_state-eq other s g opened named)

-- The fields that were read for a row
pub record ReadFrom (now : ℕ) (state : Value) (row : PipeRow) : Type 0 where
  pub key_read : assert_non_empty_string (get state "pipeKey") "state.pipeKey" ≡ ok row.pipe_key
  pub nonce_read : assert_uint_string (get state "nonce") "state.nonce" ≡ ok row.nonce
  pub mine_read : assert_uint_string (get state "myBalance") "state.myBalance" ≡ ok row.my_balance
  pub theirs_read :
      assert_uint_string (get state "theirBalance") "state.theirBalance" ≡ ok row.their_balance
  pub time_read : row.updated_at_ms ≡ now

pub pipe_row-ReadFrom :
    (now : ℕ) (state : Value) (row : PipeRow) → pipe_row now state ≡ ok row → ReadFrom now state row
unfolding pipe_row
pipe_row-ReadFrom now state row read =
    after_ok (require (not (is_nullish state)) type_error) _ read λ _ _ h0.
      after_ok (assert_non_empty_string (get state "pipeKey") "state.pipeKey") _ h0 λ key e1 h1.
        after_ok (assert_non_empty_string (get state "contractId") "state.contractId") _ h1
          λ _ _ h2.
            after_ok (assert_non_empty_string (get state "forPrincipal") "state.forPrincipal") _ h2
              λ _ _ h3.
                after_ok (assert_non_empty_string (get state "withPrincipal") "state.withPrincipal")
                  _ h3
                  λ _ _ h4.
                    after_ok (assert_uint_string (get state "nonce") "state.nonce") _ h4 λ _ e5 h5.
                      after_ok (assert_uint_string (get state "myBalance") "state.myBalance") _ h5
                        λ _ e6 h6.
                          after_ok
                            (assert_uint_string (get state "theirBalance") "state.theirBalance") _
                            h6
                            λ _ e7 h7.
                              let written = value_of_ok h7 in
                              record {
                                key_read = e1 ∙ ap (λ (r : PipeRow). ok r.pipe_key) written;
                                nonce_read = e5 ∙ ap (λ (r : PipeRow). ok r.nonce) written;
                                mine_read = e6 ∙ ap (λ (r : PipeRow). ok r.my_balance) written;
                                theirs_read = e7 ∙ ap (λ (r : PipeRow). ok r.their_balance) written;
                                time_read = sym (ap (λ (r : PipeRow). r.updated_at_ms) written);
                              }

pub named_anyway :
    (v : Value) (t : Text) (field other : String)
    → assert_non_empty_string v field ≡ ok t
    → assert_non_empty_string v other ≡ ok t
unfolding assert_non_empty_string
named_anyway v t field other named = elim (Bool-cases (is_empty (trimmed_text v))) [
  | inl blank ↦ absurd (cc (simp blank at named))
  | inr full ↦ rw full (simp full at named)
]

pub set_pipe_state-read :
    (now : ℕ) (state : Value) (s s' : X402Store)
    → set_pipe_state now state s ≡ ok s'
    → (row : PipeRow) × (s.is_open ≡ true) × (pipe_row now state ≡ ok row)
unfolding set_pipe_state assert_store_open
set_pipe_state-read now state s s' set = elim (Bool-cases s.is_open) [
  | inr closed ↦ absurd (cc (simp closed at set))
  | inl opened ↦
      after_ok (assert_store_open s) _ set
        λ _ _ h. after_ok (pipe_row now state) _ h λ row read _. (row, opened, read)
]
