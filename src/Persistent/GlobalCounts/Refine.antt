-- ===== src/Persistent/GlobalCounts/Refine.antt =====
-- increment_global_subscription_count and decrement_global_subscription_count on the file MQTT.SUB
-- against a count for each topic.
use native.Mathlib.Nat.{zero-add}
use linux_mqtt_sn_gateway.Base.{
  ℕ, suc, ◌-◌, ◌*◌, ◌≤◌, ◌<◌, ◌≡◌, refl, Bool, true, false, not, ◌&&◌, Option, none, some, List,
  length, All, ◌==◌, Bool-cases, inl, inr, arith,
}
use linux_mqtt_sn_gateway.Storage.Entries.{GlobalSubscription, GlobalFits, zero_global-fits}
use linux_mqtt_sn_gateway.Storage.Splice.{put}
use linux_mqtt_sn_gateway.Storage.Platform.{Platform}
use linux_mqtt_sn_gateway.Storage.Table.{Holds, read_rows-Holds, save_row-Holds}
use linux_mqtt_sn_gateway.Persistent.State.{Persistent, mqtt_sub}
use linux_mqtt_sn_gateway.Persistent.Scan.{
  find, slot_result, scan_slot-eq, free_slot, free_slot_lem, new_offset-eq, last_empty,
}
use linux_mqtt_sn_gateway.Persistent.Unique.{find-ext, All-get_elem?}
use linux_mqtt_sn_gateway.Persistent.Subscriptions.Table.{IsTopic, good_topic}
use linux_mqtt_sn_gateway.Persistent.GlobalCounts.{
  save_global, is_unused, is_count_of, incremented, decremented, add_count, sub_count, count_scan,
  scanned_count, increment_global_subscription_count, decrement_global_subscription_count,
  get_global_topic_subscription_count,
}
use linux_mqtt_sn_gateway.Persistent.GlobalCounts.Table.{
  OneRowEach, HasRoom, counted, count_in, new_count, new_count-fits, incremented_at, decremented_at,
  increment_rows, decrement_rows, at_index, OneRowEach-increment, OneRowEach-decrement,
}

hides_none :
    (name : List ℕ) (e : GlobalSubscription)
    → (not (is_unused e) && is_count_of name e) ≡ is_count_of name e
hides_none name e = ground arith

decremented-fits : (x : GlobalSubscription) → GlobalFits x → GlobalFits (decremented x)
decremented-fits x f = elim (Bool-cases (x.client_subscription_count - 1 == 0)) [
  | inl z ↦ rw z zero_global-fits
  | inr z ↦
      rw z (record { count_fits = let c = f.count_fits in omega arith; name_fits = f.name_fits })
]

module _ {p : Platform} where
  -- No error is set, and MQTT.SUB holds the rows `es`, one for each topic that is counted.
  pub record Counts (s : Persistent p) (es : List GlobalSubscription) : Type 0 where
    pub no_error : not s.error ≡ true
    pub table : Holds p p.global_layout mqtt_sub s.card es
    pub one_row : OneRowEach es

  -- The empty row test hides no row that counts.
  count_scan-eq :
      (is_empty : GlobalSubscription → Bool) (name : List ℕ) (s : Persistent p)
      (es : List GlobalSubscription)
      → ((e : GlobalSubscription) → (not (is_empty e) && is_count_of name e) ≡ is_count_of name e)
      → Counts s es
      → length es < 65535
      → count_scan is_empty name s
        ≡ slot_result
            (find (is_count_of name) es 0)
            (last_empty is_empty es none 0)
            (suc (length es))
  count_scan-eq is_empty name s es same h k = rw (
    read_rows-Holds p p.global_layout mqtt_sub s.card es h.table,
    scan_slot-eq true is_empty (is_count_of name) es none 0 (omega arith),
    find-ext (λ e. not (is_empty e) && is_count_of name e) (is_count_of name) es 0 same,
    zero-add,
  )

  -- The count that the file gives for a valid topic is the count of the table. No error is set,
  -- and the file holds fewer than 65535 rows, one for each topic.
  pub get_count-eq :
      (name : List ℕ) (s : Persistent p) (es : List GlobalSubscription)
      → Counts s es
      → IsTopic name
      → length es < 65535
      → get_global_topic_subscription_count (some name) s ≡ count_in name es
  unfolding get_global_topic_subscription_count
  get_count-eq name s es h t k =
      rw (h.no_error, good_topic name t, count_scan-eq (λ _. false) name s es (λ e. refl) h k)
        (scanned (find (is_count_of name) es 0))
    where
      scanned :
          (o : Option (ℕ × GlobalSubscription))
          → scanned_count (slot_result o (last_empty (λ _. false) es none 0) (suc (length es)))
            ≡ counted o
      scanned none = refl
      scanned (some (i, e)) = refl

  saved :
      (s : Persistent p) (es : List GlobalSubscription) (i : ℕ) (e : GlobalSubscription)
      → Counts s es
      → GlobalFits e
      → i ≤ length es
      → OneRowEach (put es i e)
      → Counts (save_global (i * p.global_layout.size) e s) (put es i e)
  saved s es i e h f k u = record {
    no_error = h.no_error;
    table = save_row-Holds p p.global_layout mqtt_sub s.card es i e h.table f k;
    one_row = u;
  }

  -- increment_global_subscription_count of a valid topic leaves a file that holds exactly the rows
  -- of `increment_rows`, still one for each topic. No error is set, the file holds fewer than
  -- 65535 rows, one for each topic, and no count is at its limit.
  pub increment-Counts :
      (name : List ℕ) (s : Persistent p) (es : List GlobalSubscription)
      → Counts s es
      → IsTopic name
      → length es < 65535
      → All (HasRoom 1) es
      → Counts (increment_global_subscription_count (some name) s).0 (increment_rows name es)
  unfolding increment_global_subscription_count
  increment-Counts name s es h t k room =
      rw (h.no_error, good_topic name t, count_scan-eq is_unused name s es (hides_none name) h k)
        (go (find (is_count_of name) es 0) refl)
    where
      go :
          (o : Option (ℕ × GlobalSubscription))
          → find (is_count_of name) es 0 ≡ o
          → Counts
              (add_count name (slot_result o (last_empty is_unused es none 0) (suc (length es))) s)
              (incremented_at name es o)
      go none e =
          rw (new_offset-eq p.global_layout.size (last_empty is_unused es none 0) (length es)) (
            saved s es (free_slot is_unused es) (new_count name) h (new_count-fits name t)
              (free_slot_lem is_unused es).0 (OneRowEach-increment name es none t h.one_row room e))
      go (some (i, x)) e =
          let (at, q, lt) = at_index name es i x e in
          let fits = All-get_elem? GlobalFits es i x h.table.fit at in
          saved s es i (incremented x) h
            (record { count_fits = omega arith; name_fits = fits.name_fits }) (omega arith)
            (OneRowEach-increment name es (some (i, x)) t h.one_row room e)

  -- decrement_global_subscription_count of a valid topic leaves a file that holds exactly the rows
  -- of `decrement_rows`, still one for each topic. No error is set, and the file holds fewer than
  -- 65535 rows, one for each topic.
  pub decrement-Counts :
      (name : List ℕ) (s : Persistent p) (es : List GlobalSubscription)
      → Counts s es
      → IsTopic name
      → length es < 65535
      → Counts (decrement_global_subscription_count (some name) s).0 (decrement_rows name es)
  unfolding decrement_global_subscription_count
  decrement-Counts name s es h t k =
      rw (h.no_error, good_topic name t, count_scan-eq is_unused name s es (hides_none name) h k)
        (go (find (is_count_of name) es 0) refl)
    where
      go :
          (o : Option (ℕ × GlobalSubscription))
          → find (is_count_of name) es 0 ≡ o
          → Counts
              (sub_count (slot_result o (last_empty is_unused es none 0) (suc (length es))) s)
              (decremented_at es o)
      go none e = h
      go (some (i, x)) e =
          let (at, q, lt) = at_index name es i x e in
          saved s es i (decremented x) h
            (decremented-fits x (All-get_elem? GlobalFits es i x h.table.fit at)) (omega arith)
            (OneRowEach-decrement name es (some (i, x)) h.one_row e)
