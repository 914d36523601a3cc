-- ===== src/Persistent/Subscriptions/Remove.antt =====
-- delete_subscription and get_client_subscription_count of LinuxPersistent.cpp, and delete_client on
-- a client that has subscriptions.

use linux_mqtt_sn_gateway.Base.{
  ℕ, zero, suc, ◌+◌, ◌^◌, ◌≤◌, ◌<◌, ◌≡◌, refl, ap, sym, ◌∙◌, Bool, true, false, ◌||◌, none, some,
  List, [], ◌∷◌, map, length, leb, ltb, get_elem?, inc16, ◌==◌, if◌then◌else◌, Bool-cases, inl, inr,
  arith,
}
use linux_mqtt_sn_gateway.Storage.Entries.{Subscription, zero_subscription, zero_subscription-fits}
use linux_mqtt_sn_gateway.Storage.Splice.{put, length-put_inside}
use linux_mqtt_sn_gateway.Storage.Platform.{Platform}
use linux_mqtt_sn_gateway.Storage.Table.{Read, whole, save_row-Holds}
use linux_mqtt_sn_gateway.Persistent.State.{
  Persistent, active, ready, fail, client_file, subscribe_file,
}
use linux_mqtt_sn_gateway.Persistent.Scan.{find, find-some, scan-eq-find}
use linux_mqtt_sn_gateway.Persistent.Subscriptions.{
  count_rows, delete_subscription, get_client_subscription_count,
}
use linux_mqtt_sn_gateway.Persistent.Clients.{delete_client}
use linux_mqtt_sn_gateway.Persistent.Subscriptions.Table.{Serves, subscriptions_of-eq}

-- The rows with a topic id.
abbrev pub subscribed : List Subscription → ℕ
subscribed [] = 0
subscribed (e ∷ es) = if e.topic_id == 0 then subscribed es else suc (subscribed es)

subscribed-le : (es : List Subscription) → subscribed es ≤ length es
subscribed-le [] = omega arith
subscribed-le (e ∷ es) = let ih = subscribed-le es in ground arith

count_rows-step :
    (e : Subscription) (r : List (Read Subscription)) (n : ℕ)
    → count_rows (whole e ∷ r) n ≡ count_rows r (if e.topic_id == 0 then n else inc16 n)
unfolding count_rows
count_rows-step e r n = refl

-- The loop counts the rows with a topic id.
count_rows-eq :
    (es : List Subscription) (n : ℕ)
    → n + length es < 65536
    → count_rows (map whole es) n ≡ n + subscribed es
unfolding count_rows
count_rows-eq [] n h = omega arith
count_rows-eq (e ∷ es) n h = elim (Bool-cases (e.topic_id == 0)) [
  | inl t ↦ rw (count_rows-step e (map whole es) n, t) (count_rows-eq es n (omega arith))
  | inr t ↦
      let next : inc16 n ≡ suc n = omega arith in
      rw (count_rows-step e (map whole es) n, t, next)
        (count_rows-eq es (suc n) (omega arith) ∙ omega arith)
]

-- Clearing a row with a topic id leaves one row less.
subscribed-put :
    (es : List Subscription) (i : ℕ) (e : Subscription)
    → get_elem? es i ≡ some e
    → (e.topic_id == 0) ≡ false
    → suc (subscribed (put es i zero_subscription)) ≡ subscribed es
subscribed-put [] i e g t = absurd (ground arith)
subscribed-put (x ∷ es) zero e g t =
    let same : x ≡ e = ground arith in let used : (x.topic_id == 0) ≡ false = rw same t in rw used
subscribed-put (x ∷ es) (suc i) e g t =
    let ih = subscribed-put es i e g t in
    elim (Bool-cases (x.topic_id == 0)) [ inl z ↦ rw z ih | inr z ↦ rw z (omega arith) ]

abbrev pub has_topic_id : ℕ → Subscription → Bool
has_topic_id id e = e.topic_id == id

module _ {p : Platform} where
  active_of_ready : (s : Persistent p) → ready s ≡ true → active s ≡ true
  active_of_ready s h = ground arith

  -- get_client_subscription_count is the number of rows with a topic id. A transaction runs for a
  -- registered client, whose file holds fewer than 65536 rows.
  pub get_client_subscription_count-eq :
      (s : Persistent p) (es : List Subscription)
      → Serves s es
      → length es < 65536
      → get_client_subscription_count s ≡ subscribed es
  unfolding get_client_subscription_count
  get_client_subscription_count-eq s es h k =
      rw (h.is_ready, subscriptions_of-eq s es h) (count_rows-eq es 0 (omega arith) ∙ omega arith)

  -- delete_subscription of an id other than 0 leaves a file in which the first row of that id,
  -- which there is, is cleared, and the others are as they were. A transaction runs for a
  -- registered client, whose file holds fewer than 65536 rows.
  pub delete_subscription-Serves :
      (id i : ℕ) (e : Subscription) (s : Persistent p) (es : List Subscription)
      → Serves s es
      → 0 < id
      → length es < 65536
      → find (has_topic_id id) es 0 ≡ some (i, e)
      → Serves (delete_subscription id s) (put es i zero_subscription)
  unfolding delete_subscription
  delete_subscription-Serves id i e s es h pos k found =
      let nonzero : (id == 0) ≡ false = ground arith in
      let (j, at, row, meets, lt) = find-some (has_topic_id id) es 0 i e found in
      rw
        (
          active_of_ready s h.is_ready,
          nonzero,
          subscriptions_of-eq s es h,
          scan-eq-find (2 ^ 16) (has_topic_id id) es 0 (omega arith),
          found,
        )
        (record {
          is_ready = h.is_ready;
          table =
              save_row-Holds p p.subscription_layout (client_file s.entry_client subscribe_file)
                s.card es i zero_subscription h.table zero_subscription-fits (omega arith);
        })

  -- delete_subscription of an id other than 0 that a row has lowers get_client_subscription_count
  -- by one. A transaction runs for a registered client, whose file holds fewer than 65536 rows.
  pub get_client_subscription_count-delete_subscription :
      (id i : ℕ) (e : Subscription) (s : Persistent p) (es : List Subscription)
      → Serves s es
      → 0 < id
      → length es < 65536
      → find (has_topic_id id) es 0 ≡ some (i, e)
      → suc (get_client_subscription_count (delete_subscription id s))
        ≡ get_client_subscription_count s
  get_client_subscription_count-delete_subscription id i e s es h pos k found =
      let (j, at, row, meets, lt) = find-some (has_topic_id id) es 0 i e found in
      let same : i ≡ j = omega arith in
      let shorter = length-put_inside es i zero_subscription (omega arith) in
      ap suc (
        get_client_subscription_count-eq (delete_subscription id s) (put es i zero_subscription)
          (delete_subscription-Serves id i e s es h pos k found) (omega arith))
      ∙ subscribed-put es i e (rw same row) (ground arith)
      ∙ sym (get_client_subscription_count-eq s es h k)

  -- delete_subscription of an id other than 0 that no row has sets the error and does nothing
  -- else. A transaction runs for a registered client, whose file holds fewer than 65536 rows.
  pub delete_subscription-missing :
      (id : ℕ) (s : Persistent p) (es : List Subscription)
      → Serves s es
      → 0 < id
      → length es < 65536
      → find (has_topic_id id) es 0 ≡ none
      → delete_subscription id s ≡ fail s
  unfolding delete_subscription
  delete_subscription-missing id s es h pos k missing =
      let nonzero : (id == 0) ≡ false = ground arith in
      rw (
        active_of_ready s h.is_ready,
        nonzero,
        subscriptions_of-eq s es h,
        scan-eq-find (2 ^ 16) (has_topic_id id) es 0 (omega arith),
        missing,
      )

module _ {p : Platform} where
  -- delete_client sets the error and does nothing else while a row of the client's subscriptions
  -- has a topic id. A transaction runs for a registered client, whose file holds fewer than 65536
  -- rows.
  pub delete_client-subscribed :
      (client_id : List ℕ) (s : Persistent p) (es : List Subscription)
      → Serves s es
      → length es < 65536
      → 0 < subscribed es
      → delete_client client_id s ≡ fail s
  unfolding delete_client
  delete_client-subscribed client_id s es h k some_left =
      let busy : ltb 0 (get_client_subscription_count s) ≡ true =
        rw (get_client_subscription_count-eq s es h k) (ground arith) in
      let refused : (leb 24 (length client_id) || ltb 0 (get_client_subscription_count s)) ≡ true =
        rw busy (ground arith) in
      rw (h.is_ready, refused)
