-- ===== src/Persistent/Subscriptions/Add.antt =====
-- What the lookups of LinuxPersistent.cpp return after `add_subscription`.
use linux_mqtt_sn_gateway.Base.{
  ℕ, suc, ◌≤◌, ◌<◌, ◌≡◌, ◌≢◌, refl, ap, sym, ◌∙◌, true, false, Option, none, some, List, [], ◌∷◌,
  length, bytes_eq, bytes_eq_iff, All, Bool-cases, inl, inr, arith,
}
use linux_mqtt_sn_gateway.Storage.Entries.{Subscription}
use linux_mqtt_sn_gateway.Storage.Splice.{put, length-put}
use linux_mqtt_sn_gateway.Storage.Platform.{Platform}
use linux_mqtt_sn_gateway.Persistent.State.{Persistent}
use linux_mqtt_sn_gateway.Persistent.Scan.{
  find, find-some, find-none, find-none-All, find-put, find-put_ne, find-mem, get_elem?-put_self,
  free_slot, free_slot_lem,
}
use linux_mqtt_sn_gateway.Persistent.Subscriptions.{
  is_named, is_empty_row, new_subscription, row_value, is_subscribed, get_subscription_qos,
  get_subscription_topic_id, add_subscription,
}
use linux_mqtt_sn_gateway.Persistent.Subscriptions.Table.{
  IsTopic, is_same, added, add_rows, Serves, name_scan-eq, good_topic, is_named-new, is_named-empty,
  add_subscription-Serves,
}

bytes_eq_refl : (a : List ℕ) → bytes_eq a a ≡ true
bytes_eq_refl a = (bytes_eq_iff a a).1 refl

-- The added name is found.
find-added :
    (name : List ℕ) (id qos : ℕ) (es : List Subscription) (o : Option (ℕ × Subscription))
    → IsTopic name
    → find (is_same name id) es 0 ≡ o
    → (r : ℕ × Subscription) × (find (is_named name) (added name id qos es o) 0 ≡ some r)
find-added name id qos es (some (i, e)) t h =
    let (j, at, found, same, lt) = find-some (is_same name id) es 0 i e h in
    find-mem (is_named name) es 0 j e found (ground arith)
find-added name id qos es none t h =
    find-mem (is_named name) (put es (free_slot is_empty_row es) (new_subscription name id qos)) 0
      (free_slot is_empty_row es) (new_subscription name id qos)
      (get_elem?-put_self es (free_slot is_empty_row es) (new_subscription name id qos)
        (free_slot_lem is_empty_row es).0)
      (is_named-new name name id qos t ∙ bytes_eq_refl name)

others_differ :
    (name : List ℕ) (id : ℕ) (es : List Subscription)
    → All (λ e. is_named name e ≡ false) es
    → All (λ e. is_same name id e ≡ false) es
others_differ name id [] h = tt
others_differ name id (e ∷ es) h = (ground arith, others_differ name id es h.1)

-- A new name is found at its own row.
find-added_new :
    (name : List ℕ) (id qos : ℕ) (es : List Subscription)
    → IsTopic name
    → find (is_named name) es 0 ≡ none
    → find (is_named name) (add_rows name id qos es) 0
      ≡ some (free_slot is_empty_row es, new_subscription name id qos)
find-added_new name id qos es t h =
    let others = find-none-All (is_named name) es 0 h in
    let no_same = find-none (is_same name id) es 0 (others_differ name id es others) in
    rw no_same (
      find-put (is_named name) es 0 (free_slot is_empty_row es) (new_subscription name id qos)
        others (is_named-new name name id qos t ∙ bytes_eq_refl name)
        (free_slot_lem is_empty_row es).0
      ∙ ap (λ i. some (i, new_subscription name id qos)) (omega arith))

-- The lookup of another name finds what it found before.
find-added_other :
    (name m : List ℕ) (id qos : ℕ) (es : List Subscription) (o : Option (ℕ × Subscription))
    → IsTopic name
    → 0 < length m
    → name ≢ m
    → find (is_named m) (added name id qos es o) 0 ≡ find (is_named m) es 0
find-added_other name m id qos es (some _) t pos ne = refl
find-added_other name m id qos es none t pos ne =
    find-put_ne (is_named m) es 0 (free_slot is_empty_row es) (new_subscription name id qos)
      (λ x h. is_named-empty m x pos ((free_slot_lem is_empty_row es).1 x h))
      (is_named-new m name id qos t ∙ bytes_eq_ne name m ne)
  where
    bytes_eq_ne : (a b : List ℕ) → a ≢ b → bytes_eq a b ≡ false
    bytes_eq_ne a b n = elim (Bool-cases (bytes_eq a b)) [
      | inl e ↦ absurd (n ((bytes_eq_iff a b).0 e))
      | inr e ↦ e
    ]

length-added :
    (name : List ℕ) (id qos : ℕ) (es : List Subscription) (o : Option (ℕ × Subscription))
    → length (added name id qos es o) ≤ suc (length es)
length-added name id qos es (some _) = omega arith
length-added name id qos es none =
    length-put es (free_slot is_empty_row es) (new_subscription name id qos)

module _ {p : Platform} (m : List ℕ) (s : Persistent p) (es : List Subscription) where
  pub is_subscribed-rows :
      Serves s es
      → IsTopic m
      → length es < 65535
      → is_subscribed (some m) s ≡ row_value false (λ _. true) (find (is_named m) es 0)
  unfolding is_subscribed
  is_subscribed-rows h t k = rw (h.is_ready, good_topic m t, name_scan-eq m s es h k)

  get_subscription_topic_id-rows :
      Serves s es
      → IsTopic m
      → length es < 65535
      → get_subscription_topic_id (some m) s
        ≡ row_value 0 (λ e. e.topic_id) (find (is_named m) es 0)
  unfolding get_subscription_topic_id
  get_subscription_topic_id-rows h t k = rw (h.is_ready, good_topic m t, name_scan-eq m s es h k)

  get_subscription_qos-rows :
      Serves s es
      → IsTopic m
      → length es < 65535
      → get_subscription_qos (some m) s ≡ row_value 255 (λ e. e.qos) (find (is_named m) es 0)
  unfolding get_subscription_qos
  get_subscription_qos-rows h t k = rw (h.is_ready, good_topic m t, name_scan-eq m s es h k)

not_found : (o : Option (ℕ × Subscription)) → row_value false (λ _. true) o ≡ false → o ≡ none
not_found none h = refl
not_found (some _) h = absurd (ground arith)

-- The arguments that `add_subscription` writes as they are.
pub record IsRequest (name : List ℕ) (id qos : ℕ) : Type 0 where
  pub topic : IsTopic name
  pub id_pos : 0 < id
  pub id_fits : id < 65536
  pub qos_fits : qos < 256

module _ {p : Platform} (name : List ℕ) (id qos : ℕ) (s : Persistent p) (es : List Subscription)
    (h : Serves s es) (r : IsRequest name id qos) (k : length es < 65534) where
  after : Persistent p
  after = add_subscription (some name) id qos s

  after-Serves : Serves after (add_rows name id qos es)
  unfolding after
  after-Serves =
      add_subscription-Serves name id qos s es h r.topic (r.id_pos, r.id_fits) r.qos_fits
        (omega arith)

  after_room : length (add_rows name id qos es) < 65535
  after_room = omega (arith, length-added name id qos es (find (is_same name id) es 0))

  -- After add_subscription the client is subscribed to the topic. A transaction runs for a
  -- registered client with fewer than 65534 rows, and the arguments are a valid topic, an id other
  -- than 0 and numbers in range.
  pub is_subscribed-add_subscription :
      is_subscribed (some name) (add_subscription (some name) id qos s) ≡ true
  unfolding after
  is_subscribed-add_subscription =
      let (x, found) = find-added name id qos es (find (is_same name id) es 0) r.topic refl in
      is_subscribed-rows name after (add_rows name id qos es) after-Serves r.topic after_room
      ∙ ap (row_value false (λ _. true)) found

  -- After add_subscription, a topic that the client was not subscribed to has the topic id and the
  -- quality of service given. A transaction runs for a registered client with fewer than 65534
  -- rows, and the arguments are a valid topic, an id other than 0 and numbers in range.
  pub lookup-add_subscription :
      is_subscribed (some name) s ≡ false
      → (get_subscription_topic_id (some name) (add_subscription (some name) id qos s) ≡ id)
        × (get_subscription_qos (some name) (add_subscription (some name) id qos s) ≡ qos)
  unfolding after
  lookup-add_subscription fresh =
      let none_yet =
        not_found (find (is_named name) es 0)
          (sym (is_subscribed-rows name s es h r.topic (omega arith)) ∙ fresh) in
      let found = find-added_new name id qos es r.topic none_yet in
      (
        get_subscription_topic_id-rows name after (add_rows name id qos es) after-Serves r.topic
              after_room
            ∙ ap (row_value 0 (λ e. e.topic_id)) found,
        get_subscription_qos-rows name after (add_rows name id qos es) after-Serves r.topic
              after_room
            ∙ ap (row_value 255 (λ e. e.qos)) found,
      )

  -- After add_subscription, every other valid topic has the answers that it had before: subscribed
  -- or not, topic id, quality of service. The conditions are those of a valid request in a
  -- transaction with fewer than 65534 rows.
  pub lookup-add_subscription_ne :
      (m : List ℕ)
      → IsTopic m
      → name ≢ m
      → (is_subscribed (some m) (add_subscription (some name) id qos s) ≡ is_subscribed (some m) s)
        × (get_subscription_topic_id (some m) (add_subscription (some name) id qos s)
            ≡ get_subscription_topic_id (some m) s)
        × (get_subscription_qos (some m) (add_subscription (some name) id qos s)
            ≡ get_subscription_qos (some m) s)
  unfolding after
  lookup-add_subscription_ne m t ne =
      let same =
        find-added_other name m id qos es (find (is_same name id) es 0) r.topic t.not_empty ne in
      let rows' = add_rows name id qos es in
      (
        is_subscribed-rows m after rows' after-Serves t after_room
            ∙ ap (row_value false (λ _. true)) same
            ∙ sym (is_subscribed-rows m s es h t (omega arith)),
        get_subscription_topic_id-rows m after rows' after-Serves t after_room
            ∙ ap (row_value 0 (λ e. e.topic_id)) same
            ∙ sym (get_subscription_topic_id-rows m s es h t (omega arith)),
        get_subscription_qos-rows m after rows' after-Serves t after_room
            ∙ ap (row_value 255 (λ e. e.qos)) same
            ∙ sym (get_subscription_qos-rows m s es h t (omega arith)),
      )
