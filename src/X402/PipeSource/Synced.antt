-- ===== src/X402/PipeSource/Synced.antt =====
-- `syncPipeState` of packages/x402-client/src/pipe-state-source.js, and the row that it leaves in the
-- client's database.
use stackflow.Common.{
  ℕ, ◌≡◌, refl, sym, ◌∙◌, ap, Bool, true, false, not, Option, none, some, if◌then◌else◌, String,
  ◌&&◌,
}
use mathlib.Core.Path.{subst}
use mathlib.Core.Option.{some_inj}
use stackflow.Js.Text.{Text, decimal, text_eq_refl, is_unsigned, codes, all_digits}
use stackflow.Js.Text.Decimal.{is_unsigned-decimal}
use stackflow.Js.Text.Shape.{trim-all_digits}
use stackflow.Js.Outcome.{Outcome, ok, after_ok}
use stackflow.Js.Value.{Value, str, get, get_field, is_record, or_else, is_nullish, to_text}
use stackflow.Agent.Utils.{trimmed_text}
use stackflow.Agent.Store.Steps.{value_of_ok}
use stackflow.X402.Numbers.{assert_uint_string}
use stackflow.X402.Store.{X402Store, PipeRow, build_pipe_state_key, get_pipe_state, set_pipe_state}
use stackflow.X402.Store.PipeRows.{
  pipe_row-ReadFrom, named_anyway, set_pipe_state-read, set_pipe_state-get_pipe_state,
}
use stackflow.X402.PipeSource.{
  assert_principal, assert_contract_id, read_pipes, NodeSource, NodeReply, PipeStatus, status_of,
  to_pipe_status, no_pipe, get_pipe_status, nullable, state_object, store_status, sync_pipe_state,
}

-- A decimal number passes `assertUintString` as it is.
IsPrinted : Text → Type 0
IsPrinted t = (n : ℕ) × (t ≡ decimal n)

right_of : (a b : Bool) → (a && b) ≡ true → b ≡ true
right_of true b e = e
right_of false b e = absurd (cc)

decimal-digits : (n : ℕ) → all_digits (decimal n) ≡ true
unfolding is_unsigned
decimal-digits n = right_of _ _ (is_unsigned-decimal n)

assert_uint_string-decimal :
    (n : ℕ) (field : String) → assert_uint_string (str (decimal n)) field ≡ ok (decimal n)
unfolding assert_uint_string trimmed_text or_else is_nullish to_text
assert_uint_string-decimal n field =
    let same = trim-all_digits (decimal n) (decimal-digits n) in
    rw (same, is_unsigned-decimal n) refl

assert_uint_string-IsPrinted :
    (t u : Text) (field : String) → IsPrinted t → assert_uint_string (str t) field ≡ ok u → u ≡ t
unfolding IsPrinted
assert_uint_string-IsPrinted t u field (n, printed) read =
    let as_is : assert_uint_string (str t) field ≡ ok t =
      rw printed (assert_uint_string-decimal n field) in
    value_of_ok (sym read ∙ as_is)

Printed : PipeStatus → Type 0
Printed s = IsPrinted s.nonce × IsPrinted s.my_confirmed × IsPrinted s.their_confirmed

Printed-if : (b : Bool) (x y : PipeStatus) → Printed x → Printed y → Printed (if b then x else y)
Printed-if true x y px py = px
Printed-if false x y px py = py

no_pipe-Printed : Printed no_pipe
unfolding Printed IsPrinted no_pipe decimal codes
no_pipe-Printed = ((0, refl), (0, refl), (0, refl))

status_of-Printed : (me : Text) (o : Option Value) → Printed (status_of me o)
unfolding status_of to_pipe_status Printed IsPrinted
status_of-Printed me none = no_pipe-Printed
status_of-Printed me (some pipe) =
    Printed-if (not (is_record pipe)) _ _ no_pipe-Printed ((_, refl), (_, refl), (_, refl))

module _ (source : NodeSource) (node : Text → ℕ → Outcome NodeReply) where
  get_pipe_status-Printed :
      (p q c : Value) (status : PipeStatus)
      → get_pipe_status source node p q c ≡ ok status
      → Printed status
  unfolding get_pipe_status
  get_pipe_status-Printed p q c status got =
      after_ok (assert_principal p "principal") _ got λ me _ h1.
        after_ok (assert_principal q "counterpartyPrincipal") _ h1 λ _ _ h2.
          after_ok (assert_contract_id c "contractId") _ h2 λ _ _ h3.
            after_ok (node me source.pipes_limit) _ h3 λ _ _ h4.
              after_ok (read_pipes _) _ h4
                λ _ _ h5. subst Printed (value_of_ok h5) (status_of-Printed me _)

  pub key_of_status : PipeStatus → Outcome Text
  key_of_status status =
      build_pipe_state_key (nullable source node status.contract_id)
        (nullable source node status.for_principal) (nullable source node status.with_principal)
        (nullable source node status.token)

  -- A row for the status, read back under the key of the pipe
  pub Copied : ℕ → PipeStatus → X402Store → Type 0
  Copied now status s =
      (key : Text) × (row : PipeRow) × (key_of_status status ≡ ok key)
      × (get_pipe_state (str key) s ≡ ok (some row))
      × (row.nonce ≡ status.nonce)
      × (row.my_balance ≡ status.my_confirmed)
      × (row.their_balance ≡ status.their_confirmed)
      × (row.updated_at_ms ≡ now)

  set-Copied :
      (now : ℕ) (status : PipeStatus) (key : Text) (s s' : X402Store)
      → Printed status
      → key_of_status status ≡ ok key
      → set_pipe_state now (state_object source node key status) s ≡ ok s'
      → Copied now status s'
  unfolding Copied Printed state_object get get_field
  set-Copied now status key s s' (nonce, mine, theirs) keyed set =
      let (row, opened, read) =
        set_pipe_state-read now (state_object source node key status) s s' set in
      let fields = pipe_row-ReadFrom now (state_object source node key status) row read in
      let named = named_anyway (str key) row.pipe_key "state.pipeKey" "pipeKey" fields.key_read in
      let (s'', went, back) =
        set_pipe_state-get_pipe_state now (state_object source node key status) (str key) s row
          row.pipe_key opened read named in
      let same : s'' ≡ s' = value_of_ok (sym went ∙ set) in
      (
        key,
        row,
        keyed,
        rw (← same) (back ∙ rw (text_eq_refl row.pipe_key) refl),
        assert_uint_string-IsPrinted status.nonce row.nonce "state.nonce" nonce fields.nonce_read,
        assert_uint_string-IsPrinted status.my_confirmed row.my_balance "state.myBalance" mine
            fields.mine_read,
        assert_uint_string-IsPrinted status.their_confirmed row.their_balance "state.theirBalance"
            theirs fields.theirs_read,
        fields.time_read,
      )

  store_status-Copied :
      (now : ℕ) (status : PipeStatus) (s s' : X402Store)
      → Printed status
      → status.has_pipe ≡ true
      → store_status source node now status (some s) ≡ ok (some s')
      → Copied now status s'
  unfolding store_status key_of_status
  store_status-Copied now status s s' printed found stored =
      let went = simp found at stored in
      after_ok (key_of_status status) _ went λ key keyed h.
        after_ok (set_pipe_state now (state_object source node key status) s) _ h λ s'' set h'.
          let same : s'' ≡ s' = some_inj.0 (value_of_ok h') in
          set-Copied now status key s s' printed keyed (set ∙ ap ok same)

  -- When a synchronisation with a store goes through and finds a pipe, the store has a row under the
  -- pipe's key with the nonce and the confirmed balances of the status that is returned.
  pub sync_pipe_state-Copied :
      (now : ℕ) (p q c : Value) (s s' : X402Store) (status : PipeStatus)
      → sync_pipe_state source node now p q c (some s) ≡ ok (status, some s')
      → status.has_pipe ≡ true
      → Copied now status s'
  unfolding sync_pipe_state store_status
  sync_pipe_state-Copied now p q c s s' status synced found =
      after_ok (get_pipe_status source node p q c) _ synced λ status' got h.
        after_ok (store_status source node now status' (some s)) _ h λ stored went h'.
          let pair = value_of_ok h' in
          let same : status' ≡ status = ap (λ r. r.0) pair in
          let left : stored ≡ some s' = ap (λ r. r.1) pair in
          store_status-Copied now status s s'
            (subst Printed same (get_pipe_status-Printed p q c status' got)) found
            (subst (λ st. store_status source node now st (some s) ≡ ok (some s')) same
              (went ∙ ap ok left))
