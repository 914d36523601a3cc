-- ===== src/Persistent/Subscriptions/Table.antt =====
-- The subscription file of a client as a list of rows, and the methods of LinuxPersistent.cpp as
-- operations on that list.
use native.Mathlib.Nat.{zero-add}
use linux_mqtt_sn_gateway.Base.{
  ◌^◌, ℕ, suc, ◌<◌, ◌≡◌, ap, ◌∙◌, Bool, true, false, not, ◌&&◌, Option, none, some, List, [], ◌∷◌,
  ◌++◌, map, c_str, strlen, bytes_eq, bytes_eq_iff, length, IsText, All-overlay, length-overlay,
  c_str-strcpy, All-IsByte_of_text, ◌==◌, Bool-cases, inl, inr, arith,
}
use linux_mqtt_sn_gateway.Storage.Entries.{
  Subscription, SubscriptionFits, zero_subscription, zeros-IsArray,
}
use linux_mqtt_sn_gateway.Storage.Splice.{put}
use linux_mqtt_sn_gateway.Storage.Platform.{Platform}
use linux_mqtt_sn_gateway.Storage.Table.{Holds, whole, read_rows-Holds, save_row-Holds}
use linux_mqtt_sn_gateway.Persistent.State.{
  Persistent, ready, bad_topic, client_file, subscribe_file,
}
use linux_mqtt_sn_gateway.Persistent.Scan.{
  slot_result, find, scan-eq-find, scan_slot-eq, free_slot, free_slot_lem, new_offset-eq,
  last_empty,
}
use linux_mqtt_sn_gateway.Persistent.Subscriptions.{
  is_named, is_empty_row, new_subscription, name_scan, add_subscription, save_subscription,
  subscriptions_of,
}

-- A topic that the methods accept: not empty, and short enough for the array with its NUL.
pub record IsTopic (name : List ℕ) : Type 0 where
  pub text : IsText name
  pub not_empty : 0 < length name
  pub short : length name < 255

pub new_subscription-fits :
    (name : List ℕ) (id qos : ℕ)
    → IsTopic name
    → id < 65536
    → qos < 256
    → SubscriptionFits (new_subscription name id qos)
new_subscription-fits name id qos t hi hq = record {
  id_fits = hi;
  qos_fits = hq;
  name_fits = (
    length-overlay zero_subscription.topic_name (name ++ 0 ∷ []) ∙ (zeros-IsArray 255).0,
    All-overlay zero_subscription.topic_name (name ++ 0 ∷ []) (zeros-IsArray 255).1
        (All-IsByte_of_text name t.text),
  );
}

pub c_str-new_subscription :
    (name : List ℕ) (id qos : ℕ)
    → IsTopic name
    → c_str (new_subscription name id qos).topic_name ≡ name
c_str-new_subscription name id qos t =
    c_str-strcpy zero_subscription.topic_name name t.text
      (let n = (zeros-IsArray 255).0 in let h = t.short in omega arith)

-- The new row has its name, and no other.
pub is_named-new :
    (m name : List ℕ) (id qos : ℕ)
    → IsTopic name
    → is_named m (new_subscription name id qos) ≡ bytes_eq name m
is_named-new m name id qos t =
    rw (c_str-new_subscription name id qos t) (let h = t.short in ground arith)

pub good_topic : (name : List ℕ) → IsTopic name → bad_topic (some name) ≡ false
good_topic name t = let h = t.short in let k = t.not_empty in ground arith

-- An empty row has the name of no topic.
pub is_named-empty :
    (m : List ℕ) (e : Subscription) → 0 < length m → is_empty_row e ≡ true → is_named m e ≡ false
is_named-empty m e h t = elim (Bool-cases (bytes_eq (c_str e.topic_name) m)) [
  | inl q ↦
      let same = ap length ((bytes_eq_iff (c_str e.topic_name) m).0 q) in
      let none_left : strlen e.topic_name ≡ 0 = ground arith in absurd (omega arith)
  | inr q ↦ rw q (ground arith)
]

-- The loop's test for the subscription itself.
abbrev pub is_same : List ℕ → ℕ → Subscription → Bool
is_same name id e = not (is_empty_row e) && (e.topic_id == id && is_named name e)

abbrev pub added :
    List ℕ → ℕ → ℕ → List Subscription → Option (ℕ × Subscription) → List Subscription
added name id qos es (some _) = es
added name id qos es none = put es (free_slot is_empty_row es) (new_subscription name id qos)

-- What `add_subscription` does to the rows.
abbrev pub add_rows : List ℕ → ℕ → ℕ → List Subscription → List Subscription
add_rows name id qos es = added name id qos es (find (is_same name id) es 0)

module _ {p : Platform} where
  -- A transaction runs for a registered client, whose subscription file holds the rows `es`.
  pub record Serves (s : Persistent p) (es : List Subscription) : Type 0 where
    pub is_ready : ready s ≡ true
    pub table : Holds p p.subscription_layout (client_file s.entry_client subscribe_file) s.card es

  pub subscriptions_of-eq :
      (s : Persistent p) (es : List Subscription) → Serves s es → subscriptions_of s ≡ map whole es
  subscriptions_of-eq s es h =
      read_rows-Holds p p.subscription_layout (client_file s.entry_client subscribe_file) s.card es
        h.table

  -- The name lookup finds the first row of that name.
  pub name_scan-eq :
      (m : List ℕ) (s : Persistent p) (es : List Subscription)
      → Serves s es
      → length es < 65535
      → name_scan m s ≡ find (is_named m) es 0
  unfolding name_scan
  name_scan-eq m s es h k =
      rw (subscriptions_of-eq s es h) (scan-eq-find (2 ^ 32) (is_named m) es 0 (omega arith))

  saved-Serves :
      (name : List ℕ) (id qos : ℕ) (s : Persistent p) (es : List Subscription)
      (o : Option (ℕ × Subscription))
      → Serves s es
      → SubscriptionFits (new_subscription name id qos)
      → Serves
          (save_subscription name id qos
            (slot_result o (last_empty is_empty_row es none 0) (suc (length es)))
            s)
          (added name id qos es o)
  saved-Serves name id qos s es (some _) h f = h
  saved-Serves name id qos s es none h f = record {
    is_ready = h.is_ready;
    table =
        rw
          (new_offset-eq p.subscription_layout.size (last_empty is_empty_row es none 0) (length es))
          (save_row-Holds p p.subscription_layout (client_file s.entry_client subscribe_file) s.card
            es (free_slot is_empty_row es) (new_subscription name id qos) h.table f
            (free_slot_lem is_empty_row es).0);
  }

  -- add_subscription leaves a file that holds exactly the rows of `add_rows`. A transaction runs
  -- for a registered client, whose file holds fewer than 65535 rows, the topic is valid, its id is
  -- a uint16_t other than 0 and the quality of service a uint8_t.
  pub add_subscription-Serves :
      (name : List ℕ) (id qos : ℕ) (s : Persistent p) (es : List Subscription)
      → Serves s es
      → IsTopic name
      → (0 < id) × (id < 65536)
      → qos < 256
      → length es < 65535
      → Serves (add_subscription (some name) id qos s) (add_rows name id qos es)
  unfolding add_subscription
  add_subscription-Serves name id qos s es h t hi hq k =
      let not_zero : (id == 0) ≡ false = ground arith in
      rw
        (
          h.is_ready,
          good_topic name t,
          not_zero,
          subscriptions_of-eq s es h,
          scan_slot-eq false is_empty_row (λ e. e.topic_id == id && is_named name e) es none 0
              (omega arith),
          zero-add,
        )
        (saved-Serves name id qos s es (find (is_same name id) es 0) h
          (new_subscription-fits name id qos t hi.1 hq))
