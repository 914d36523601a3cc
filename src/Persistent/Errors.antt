-- ===== src/Persistent/Errors.antt =====
-- The error flag of a transaction, LinuxPersistent.cpp: `_error` and the guards on it, such as
-- `if (!_transaction_started || _error) return`.
use linux_mqtt_sn_gateway.Base.{
  ℕ, ◌≡◌, ◌∙◌, refl, sym, ap, Bool, true, false, Option, none, some, List, [], ◌∷◌,
}
use mathlib.Core.Path.{subst}
use linux_mqtt_sn_gateway.Storage.Entries.{Address}
use linux_mqtt_sn_gateway.Storage.Platform.{Platform}
use linux_mqtt_sn_gateway.Persistent.State.{Persistent, ready, active, fail}
use linux_mqtt_sn_gateway.Persistent.Clients.{
  start_client_transaction, start_address_transaction, delete_client, add_client, reset_client,
  apply_transaction,
}
use linux_mqtt_sn_gateway.Persistent.Attributes.{
  set_client_await_message, set_timeout, set_client_state, set_client_await_msg_id,
  set_mqttsn_disconnected, set_mqtt_disconnected, set_mqtt_connected, set_mqttsn_connected,
}
use linux_mqtt_sn_gateway.Persistent.Subscriptions.{add_subscription, delete_subscription}
use linux_mqtt_sn_gateway.Persistent.GlobalCounts.{
  increment_global_subscription_count, decrement_global_subscription_count,
}
use linux_mqtt_sn_gateway.Persistent.Registrations.{
  get_topic_name, is_topic_known, add_client_registration,
}
use linux_mqtt_sn_gateway.Persistent.Publishes.{
  add_client_publish, set_publish_msg_id, remove_publish_by_publish_id, remove_publish_by_msg_id,
}
use linux_mqtt_sn_gateway.Persistent.Wills.{
  set_client_willtopic, set_client_willmessage, delete_will,
}

-- A call of a method that starts a transaction or changes the registry, the files of a client,
-- MQTT.SUB or the connection flags; `begin` and `apply_transaction` end the transaction.
pub data Operation : Type 0 where
  start_for_id : List ℕ → Operation
  start_for_address : Address → Operation
  delete : List ℕ → Operation
  add reset : List ℕ → Address → ℕ → Operation
  await_message timeout state await_msg_id : ℕ → Operation
  mqttsn_off mqtt_off mqtt_on mqttsn_on : Operation
  subscribe : Option (List ℕ) → ℕ → ℕ → Operation
  unsubscribe : ℕ → Operation
  increment decrement : Option (List ℕ) → Operation
  topic_name topic_known : ℕ → Operation
  register_topic : List ℕ → Operation
  publish : List ℕ → ℕ → ℕ → Bool → ℕ → Bool → ℕ → Operation
  publish_msg_id : ℕ → ℕ → Operation
  remove_publish remove_msg : ℕ → Operation
  willtopic : List ℕ → ℕ → Bool → Operation
  willmessage : List ℕ → ℕ → Operation
  drop_will : Operation

module _ {p : Platform} where
  unfoldable pub perform : Operation → Persistent p → Persistent p
  perform (start_for_id id) s = start_client_transaction id s
  perform (start_for_address a) s = start_address_transaction a s
  perform (delete id) s = delete_client id s
  perform (add id a duration) s = add_client id a duration s
  perform (reset id a duration) s = reset_client id a duration s
  perform (await_message t) s = set_client_await_message t s
  perform (timeout t) s = set_timeout t s
  perform (state status) s = set_client_state status s
  perform (await_msg_id id) s = set_client_await_msg_id id s
  perform mqttsn_off s = set_mqttsn_disconnected s
  perform mqtt_off s = set_mqtt_disconnected s
  perform mqtt_on s = set_mqtt_connected s
  perform mqttsn_on s = set_mqttsn_connected s
  perform (subscribe topic id qos) s = add_subscription topic id qos s
  perform (unsubscribe id) s = delete_subscription id s
  perform (increment topic) s = (increment_global_subscription_count topic s).0
  perform (decrement topic) s = (decrement_global_subscription_count topic s).0
  perform (topic_name id) s = (get_topic_name id s).0
  perform (topic_known id) s = (is_topic_known id s).0
  perform (register_topic name) s = (add_client_registration name s).0
  perform (publish bytes len id retain qos dup msg_id) s =
      add_client_publish bytes len id retain qos dup msg_id s
  perform (publish_msg_id id msg_id) s = set_publish_msg_id id msg_id s
  perform (remove_publish id) s = remove_publish_by_publish_id id s
  perform (remove_msg id) s = remove_publish_by_msg_id id s
  perform (willtopic topic qos retain) s = set_client_willtopic topic qos retain s
  perform (willmessage bytes len) s = set_client_willmessage bytes len s
  perform drop_will s = delete_will s

  unfoldable pub performs : List Operation → Persistent p → Persistent p
  performs [] s = s
  performs (o ∷ os) s = performs os (perform o s)

  -- A transaction runs, and its error is set.
  pub record HasFailed (s : Persistent p) : Type 0 where
    pub started : s.transaction_started ≡ true
    pub failed : s.error ≡ true

  ready-HasFailed : (s : Persistent p) → HasFailed s → ready s ≡ false
  ready-HasFailed s h = rw (h.started, h.failed)

  active-HasFailed : (s : Persistent p) → HasFailed s → active s ≡ false
  active-HasFailed s h = rw (h.started, h.failed)

  -- The card is the same, and the transaction has still failed.
  abbrev Kept : Persistent p → Persistent p → Type 0
  Kept s t = HasFailed t × (t.card ≡ s.card)

  Kept-same : (s t : Persistent p) → HasFailed s → t ≡ s → Kept s t
  Kept-same s t h e = subst (Kept s) (sym e) (h, refl)

  Kept-fail : (s t : Persistent p) → HasFailed s → t ≡ fail s → Kept s t
  Kept-fail s t h e = subst (Kept s) (sym e) (record { started = h.started; failed = refl }, refl)

  flags-Kept :
      (s : Persistent p) (a b : Bool)
      → HasFailed s
      → Kept s (record s { mqttsn_online = a; mqtt_online = b })
  flags-Kept s a b h = (record { started = h.started; failed = h.failed }, refl)

  perform-Kept : (o : Operation) (s : Persistent p) → HasFailed s → Kept s (perform o s)
  unfolding perform start_client_transaction start_address_transaction delete_client add_client
      reset_client set_client_await_message set_timeout set_client_state set_client_await_msg_id
      set_mqttsn_disconnected set_mqtt_disconnected set_mqtt_connected set_mqttsn_connected
      add_subscription delete_subscription increment_global_subscription_count
      decrement_global_subscription_count get_topic_name is_topic_known add_client_registration
      add_client_publish set_publish_msg_id remove_publish_by_publish_id remove_publish_by_msg_id
      set_client_willtopic set_client_willmessage delete_will
  perform-Kept (start_for_id id) s h = Kept-fail s _ h (rw h.started)
  perform-Kept (start_for_address a) s h = Kept-fail s _ h (rw h.started)
  perform-Kept (add id a duration) s h = Kept-same s _ h (rw (active-HasFailed s h))
  perform-Kept mqttsn_off s h = flags-Kept s false s.mqtt_online h
  perform-Kept mqtt_off s h = flags-Kept s s.mqttsn_online false h
  perform-Kept mqtt_on s h = flags-Kept s s.mqttsn_online true h
  perform-Kept mqttsn_on s h = flags-Kept s true s.mqtt_online h
  perform-Kept (subscribe none id qos) s h = Kept-same s _ h refl
  perform-Kept (subscribe (some name) id qos) s h = Kept-same s _ h (rw (ready-HasFailed s h))
  perform-Kept (unsubscribe id) s h = Kept-same s _ h (rw (active-HasFailed s h))
  perform-Kept (increment none) s h = Kept-same s _ h refl
  perform-Kept (increment (some name)) s h = Kept-same s _ h (rw h.failed)
  perform-Kept (decrement none) s h = Kept-same s _ h refl
  perform-Kept (decrement (some name)) s h = Kept-same s _ h (rw h.failed)
  perform-Kept (topic_name id) s h =
      let none_found : get_topic_name id s ≡ (s, none) = rw (active-HasFailed s h) in
      Kept-same s _ h (ap (λ r. r.0) none_found)
  perform-Kept (topic_known id) s h =
      let unknown : is_topic_known id s ≡ (s, some false) = rw (ready-HasFailed s h) in
      Kept-same s _ h (ap (λ r. r.0) unknown)
  perform-Kept (register_topic name) s h =
      let refused : add_client_registration name s ≡ (s, none) = rw (ready-HasFailed s h) in
      Kept-same s _ h (ap (λ r. r.0) refused)
  perform-Kept o s h = Kept-same s _ h (rw (ready-HasFailed s h))

  performs-Kept : (os : List Operation) (s : Persistent p) → HasFailed s → Kept s (performs os s)
  unfolding performs
  performs-Kept [] s h = (h, refl)
  performs-Kept (o ∷ os) s h =
      let one = perform-Kept o s h in
      let rest = performs-Kept os (perform o s) one.0 in (rest.0, rest.1 ∙ one.1)

  -- Once a running transaction has failed, no calls, in whatever number and order, change the card
  -- or clear the error, and apply_transaction behind them returns 0. The calls are those of the
  -- methods that start transactions or change the registry, the files of a client, MQTT.SUB or the
  -- connection flags.
  pub apply_transaction-performs :
      (os : List Operation) (s : Persistent p)
      → HasFailed s
      → ((performs os s).card ≡ s.card)
        × ((performs os s).error ≡ true)
        × ((apply_transaction (performs os s)).1 ≡ 0)
  unfolding apply_transaction
  apply_transaction-performs os s h =
      let kept = performs-Kept os s h in
      (kept.1, kept.0.failed, rw (ready-HasFailed (performs os s) kept.0))
