-- ===== src/Client/Closed.antt =====
-- A call that fails closes the session: MQTTPublish, MQTTSubscribe, MQTTUnsubscribe, MQTTDisconnect
-- and cycle.
use mbed_mqtt.Common.{
  ℕ, zero, suc, true, false, Bytes, List, [], ◌∷◌, Option, none, if◌then◌else◌, ℤ, pos, negsuc, ◌≡◌,
  refl, arith, Bool-cases, inl, inr,
}
use mbed_mqtt.Client.Commands.{
  or_close, is_failure, if_connected, publish, publish_connected, unsubscribe,
  unsubscribe_connected, subscribe, subscribe_with_results, disconnect,
}
use mbed_mqtt.Client.Cycle.{is_positive, serialize, cycle, exit_cycle, dispatch, after_switch}
use mbed_mqtt.Client.Handlers.{close_session, clean_session}
use mbed_mqtt.Client.Invariant.{Good, Good-if, Good-pure, Proceeds}
use mbed_mqtt.Client.Invariant.Network.{Good-send_packet}
use mbed_mqtt.Client.Invariant.Read.{Good-read_packet}
use mbed_mqtt.Packet.Ack.{serialize_disconnect}
use mbed_mqtt.Packet.Writer.Sizes.{SameSize-serialize_disconnect}
use mbed_mqtt.Client.Invariant.Commands.{publish_ends, unsubscribe_ends}
use mbed_mqtt.Client.Invariant.Sessions.{Good-subscribe_connected}
use mbed_mqtt.Client.Invariant.Cycle.{Good-serialize, Good-dispatch, Good-after_switch}
use mbed_mqtt.Client.Network.{is_success, is_negative, to_ℕ, read_packet}
use mbed_mqtt.Client.Platform.{Platform, Expires, Message}
use mbed_mqtt.Client.Run.{Run, ok, fault, hung, Cmd, pure, then_run, ◌>>=◌, ◌>>◌}
use mbed_mqtt.Client.Run.Ensures.{Returns, Returns-then, Returns-weaken}
use mbed_mqtt.Client.State.{
  Slot, Client, State, Call, MqttClient, Abi, update, clear_slots, failure,
}
use mbed_mqtt.Packet.Connect.{is_set}

module _ {H : Type 0} where
  abbrev pub IsEmpty : List (Slot H) → Type 0
  IsEmpty [] = Unit
  IsEmpty (s ∷ slots) = (s.topic_filter ≡ none) × IsEmpty slots

  clear_slots-IsEmpty : (slots : List (Slot H)) → IsEmpty (clear_slots slots)
  unfolding clear_slots
  clear_slots-IsEmpty [] = tt
  clear_slots-IsEmpty (s ∷ slots) = (refl, clear_slots-IsEmpty slots)

-- What MQTTCloseSession leaves.
pub record IsClosed {T H : Type 0} (c : Client T H) : Type 0 where
  pub disconnected : c.isconnected ≡ 0
  pub no_ping : c.ping_outstanding ≡ 0
  pub no_filters : is_set c.cleansession ≡ true → IsEmpty c.message_handlers

-- `hung` is no result.
abbrev pub Ends : {S A : Type 0} → Run S A → Type 0
Ends r = Returns (λ a s. Unit) r

Ends-first : {S A B : Type 0} (r : Run S A) (k : A → Cmd S B) → Ends (then_run r k) → Ends r
Ends-first (ok a s) k h = tt
Ends-first fault k h = tt
Ends-first hung k h = h

Returns-last :
    {S A B : Type 0} (Q : B → S → Type 0) (r : Run S A) (k : A → Cmd S B)
    → Ends r
    → ((a : A) (s : S) → Returns Q (k a s))
    → Returns Q (then_run r k)
Returns-last Q r k h hk = Returns-then (λ a s. Unit) Q r k h (λ a s u. hk a s)

module _ (p : Platform) where
  close_session-IsClosed : (c : MqttClient p) → IsClosed (close_session p c)
  unfolding close_session clean_session
  close_session-IsClosed c = elim (Bool-cases (is_set c.cleansession)) [
    | inl b ↦ rw b (record {
      disconnected = refl;
      no_ping = refl;
      no_filters = λ h. clear_slots-IsEmpty c.message_handlers;
    })
    | inr b ↦ rw b (record {
      disconnected = refl;
      no_ping = refl;
      no_filters = λ h. absurd (ground (arith, b, h));
    })
  ]

  -- A call that fails leaves the session closed.
  abbrev pub ClosedOnFailure : Run (State p) ℤ → Type 0
  ClosedOnFailure r = Returns (λ rc s. rc ≡ failure → IsClosed s.client) r

  closed_on_failure :
      (rc : ℤ) (s : State p)
      → ClosedOnFailure
          (((if is_failure rc then update p (close_session p) else pure tt) >> pure rc) s)
  closed_on_failure (pos n) s = λ h. cc
  closed_on_failure (negsuc zero) s = λ h. close_session-IsClosed s.client
  closed_on_failure (negsuc (suc n)) s =
      let other : is_failure (negsuc (suc n)) ≡ false = ground arith in
      rw other (λ h. absurd (ground arith))

  or_close-ClosedOnFailure :
      (abi : Abi) (rounds : ℕ) (m : Call p ℤ) (s : State p)
      → Ends (m s)
      → ClosedOnFailure (or_close p abi rounds m s)
  or_close-ClosedOnFailure abi rounds m s h =
      Returns-last (λ rc s'. rc ≡ failure → IsClosed s'.client) (m s) _ h
        (λ rc s'. closed_on_failure rc s')

module _ (p : Platform) (abi : Abi) (rounds : ℕ) (e : Expires p rounds) where
  Ends-Good : {A : Type 0} (m : Call p A) (s : State p) → Good p rounds e m → Ends (m s)
  Ends-Good m s h =
      Returns-weaken (λ a s'. Proceeds p rounds e s s') (λ a s'. Unit) (m s) (h.at s) (λ a s' k. tt)

  -- When MQTTPublish returns FAILURE, the session is closed: the client is not connected, no ping is
  -- outstanding, and a clean session has no filter left. MQTTPublish ends, or it faults.
  pub publish_closes :
      (topic : Bytes) (m : Message) (s : State p)
      → ClosedOnFailure p (publish p abi rounds topic m s)
  unfolding publish
  publish_closes topic m s =
      or_close-ClosedOnFailure p abi rounds
        (if_connected p abi rounds (publish_connected p abi rounds topic m)) s
        (Ends-first _ _
          (Ends-Good (publish p abi rounds topic m) s (publish_ends p abi rounds e topic m)))

  exit_closes :
      (type : ℤ) (rc : ℤ) (s : State p)
      → (is_negative type ≡ true → is_success rc ≡ false)
      → Returns (λ r s'. is_negative r ≡ true → s'.client.isconnected ≡ 0) (exit_cycle p type rc s)
  unfolding close_session clean_session
  exit_closes type rc s h = elim (Bool-cases (is_success rc)) [
    | inl b ↦ rw b (λ n. absurd (ground (arith, h n, b)))
    | inr b ↦ rw b (λ n. ground arith)
  ]

  -- The same for MQTTUnsubscribe.
  pub unsubscribe_closes :
      (f : Bytes) (s : State p) → ClosedOnFailure p (unsubscribe p abi rounds f s)
  unfolding unsubscribe
  unsubscribe_closes f s =
      or_close-ClosedOnFailure p abi rounds
        (if_connected p abi rounds (unsubscribe_connected p abi rounds f)) s
        (Ends-first _ _
          (Ends-Good (unsubscribe p abi rounds f) s (unsubscribe_ends p abi rounds e f)))

  -- What holds at the end, whatever was done before.
  finally :
      {A B : Type 0} (Q : B → State p → Type 0) (m : Call p A) (k : A → Call p B) (s : State p)
      → Good p rounds e m
      → ((a : A) (s' : State p) → Returns Q (k a s'))
      → Returns Q ((m >>= k) s)
  finally Q m k s h hk = Returns-last Q (m s) k (Ends-Good m s h) hk

  -- MQTTDisconnect closes the session whatever it returns.
  pub disconnect_closes :
      (s : State p) → Returns (λ rc s'. IsClosed s'.client) (disconnect p abi rounds s)
  unfolding disconnect
  disconnect_closes s =
      finally _ (serialize p serialize_disconnect) _ _
        (Good-serialize p rounds e serialize_disconnect SameSize-serialize_disconnect)
        (λ len s1.
          finally _ _ _ s1
            (Good-if p rounds e (is_positive len) _ _ (Good-send_packet p rounds e (to_ℕ len) _)
              (Good-pure p rounds e failure))
            (λ rc s2. close_session-IsClosed p s2.client))

  after_read :
      (timer : p.Timer) (type : ℤ) (s : State p)
      → Returns
          (λ rc s'. is_negative rc ≡ true → s'.client.isconnected ≡ 0)
          ((dispatch p abi rounds timer type >>= λ ending.
              after_switch p rounds ending >>= λ rc. exit_cycle p type rc)
            s)
  unfolding dispatch
  after_read timer (negsuc n) s = exit_closes (negsuc n) (negsuc n) s (λ h. refl)
  after_read timer (pos n) s =
      finally _ (dispatch p abi rounds timer (pos n)) _ s
        (Good-dispatch p rounds e abi timer (pos n))
        (λ ending s1.
          finally _ (after_switch p rounds ending) _ s1 (Good-after_switch p rounds e ending)
            (λ rc s2. exit_closes (pos n) rc s2 (λ h. cc)))

  -- When cycle returns a negative result, the client is not connected any more; cycle ends, or it
  -- faults.
  pub cycle_closes :
      (timer : p.Timer) (s : State p)
      → Returns
          (λ rc s'. is_negative rc ≡ true → s'.client.isconnected ≡ 0)
          (cycle p abi rounds timer s)
  unfolding cycle
  cycle_closes timer s =
      finally _ (read_packet p timer) _ s (Good-read_packet p rounds e timer)
        (λ type s1. after_read timer type s1)

  pair-IsClosed :
      (r : ℤ × ℤ) (s : State p)
      → Returns
          (λ r' s'. r'.0 ≡ failure → IsClosed s'.client)
          (((if is_failure r.0 then update p (close_session p) else pure tt) >> pure r) s)
  pair-IsClosed (pos n, q) s = λ h. cc
  pair-IsClosed (negsuc zero, q) s = λ h. close_session-IsClosed p s.client
  pair-IsClosed (negsuc (suc n), q) s =
      let other : is_failure (negsuc (suc n)) ≡ false = ground arith in
      rw other (λ h. absurd (ground arith))

  -- The same for MQTTSubscribe.
  pub subscribe_closes :
      (f : Bytes) (qos : ℕ) (h : Option p.Handler) (data_ : ℤ) (s : State p)
      → ClosedOnFailure p (subscribe p abi rounds f qos h data_ s)
  unfolding subscribe subscribe_with_results
  subscribe_closes f qos h data_ s =
      Returns-then (λ r s'. r.0 ≡ failure → IsClosed s'.client)
        (λ rc s'. rc ≡ failure → IsClosed s'.client)
        (subscribe_with_results p abi rounds f qos h data_ s) _
        (finally _ _ _ s
          (Good-if p rounds e (is_set s.client.isconnected) _ _
            (Good-subscribe_connected p abi rounds e f qos h data_)
            (Good-pure p rounds e (failure, data_)))
          pair-IsClosed)
        (λ r s' x. x)
