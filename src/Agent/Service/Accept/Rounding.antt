-- ===== src/Agent/Service/Accept/Rounding.antt =====
-- The numbers that `signTransferMessage` (packages/stackflow-agent/src/agent-service.js) puts into the
-- signed message, against the texts that are stored.
use stackflow.Common.{
  ℕ, Bool, ◌%◌, ◌≤◌, ◌<◌, ◌≡◌, refl, sym, ◌∙◌, Option, some, true, false, if◌then◌else◌,
}
use Prim.Native.Nat.{◌^◌}
use mathlib.Core.Logic.{◌≢◌}
use stackflow.Js.Text.{big_int}
use stackflow.Js.Value.{get}
use stackflow.Js.Double.{number_of, to_double_exact, to_double-odd}
use stackflow.Agent.Service.Wallet.{Message}
use stackflow.Agent.Service.Incoming.{IncomingState}
use stackflow.Agent.Service.Accept.{is_text, message_of}

-- My balance in the message, and the other one.
abbrev pub my_signed_balance : IncomingState → Message → Option ℕ
my_signed_balance st m =
    if is_text (get st.pipe_key "principal-1") st.for_principal then m.balance_1 else m.balance_2

abbrev pub their_signed_balance : IncomingState → Message → Option ℕ
their_signed_balance st m =
    if is_text (get st.pipe_key "principal-1") st.for_principal then m.balance_2 else m.balance_1

my_signed_balance-message_of :
    (st : IncomingState) → my_signed_balance st (message_of st) ≡ number_of st.my_balance
unfolding message_of
my_signed_balance-message_of st =
    by_order (is_text (get st.pipe_key "principal-1") st.for_principal)
  where
    by_order :
        (b : Bool)
        → (if b
            then number_of (if b then st.my_balance else st.their_balance)
            else number_of (if b then st.their_balance else st.my_balance))
          ≡ number_of st.my_balance
    by_order true = refl
    by_order false = refl

their_signed_balance-message_of :
    (st : IncomingState) → their_signed_balance st (message_of st) ≡ number_of st.their_balance
unfolding message_of
their_signed_balance-message_of st =
    by_order (is_text (get st.pipe_key "principal-1") st.for_principal)
  where
    by_order :
        (b : Bool)
        → (if b
            then number_of (if b then st.their_balance else st.my_balance)
            else number_of (if b then st.my_balance else st.their_balance))
          ≡ number_of st.their_balance
    by_order true = refl
    by_order false = refl

-- Balances below 2 ^ 53 stand in the signed message exactly, the local one on the local side.
pub signed_balances_exact :
    (st : IncomingState)
    → big_int st.my_balance < 2 ^ 53
    → big_int st.their_balance < 2 ^ 53
    → (my_signed_balance st (message_of st) ≡ some (big_int st.my_balance))
      × (their_signed_balance st (message_of st) ≡ some (big_int st.their_balance))
unfolding number_of
signed_balances_exact st mine theirs = (
  my_signed_balance-message_of st ∙ to_double_exact (big_int st.my_balance) mine,
  their_signed_balance-message_of st ∙ to_double_exact (big_int st.their_balance) theirs,
)

-- An odd local balance from 2 ^ 53 to 2 ^ 54 is not the local balance in the signed message.
pub signed_balance_rounded :
    (st : IncomingState)
    → 2 ^ 53 ≤ big_int st.my_balance
    → big_int st.my_balance < 2 ^ 54
    → big_int st.my_balance % 2 ≡ 1
    → my_signed_balance st (message_of st) ≢ some (big_int st.my_balance)
unfolding number_of
signed_balance_rounded st low high odd e =
    to_double-odd (big_int st.my_balance) low high odd (sym (my_signed_balance-message_of st) ∙ e)
