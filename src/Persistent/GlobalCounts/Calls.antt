-- ===== src/Persistent/GlobalCounts/Calls.antt =====
-- Any sequence of increment_global_subscription_count and decrement_global_subscription_count calls.

use linux_mqtt_sn_gateway.Base.{
  ℕ, suc, ◌+◌, ◌-◌, ◌^◌, ◌≤◌, ◌<◌, ◌≡◌, refl, ap, ◌∙◌, Option, none, some, List, [], ◌∷◌, bytes_eq,
  bytes_eq_iff, length, All, if◌then◌else◌, Bool-cases, ◌==◌, inl, inr, arith,
}
use linux_mqtt_sn_gateway.Storage.Entries.{GlobalSubscription}
use linux_mqtt_sn_gateway.Storage.Splice.{length-put, length-put_inside}
use linux_mqtt_sn_gateway.Storage.Platform.{Platform}
use linux_mqtt_sn_gateway.Persistent.State.{Persistent}
use linux_mqtt_sn_gateway.Persistent.Scan.{find, free_slot}
use linux_mqtt_sn_gateway.Persistent.Unique.{All-put_of, All-get_elem?}
use linux_mqtt_sn_gateway.Persistent.Subscriptions.Table.{IsTopic}
use linux_mqtt_sn_gateway.Persistent.GlobalCounts.{
  is_unused, is_count_of, incremented, decremented, increment_global_subscription_count,
  decrement_global_subscription_count, get_global_topic_subscription_count,
}
use linux_mqtt_sn_gateway.Persistent.GlobalCounts.Table.{
  HasRoom, count_in, new_count, incremented_at, decremented_at, increment_rows, decrement_rows,
  at_index, count_in-increment_self, count_in-increment_ne, count_in-decrement_self,
  count_in-decrement_ne,
}
use linux_mqtt_sn_gateway.Persistent.GlobalCounts.Refine.{
  Counts, get_count-eq, increment-Counts, decrement-Counts,
}

pub data Call : Type 0 where
  subscribe unsubscribe : List ℕ → Call

abbrev pub topic_of : Call → List ℕ
topic_of (subscribe t) = t
topic_of (unsubscribe t) = t

module _ {p : Platform} where
  abbrev pub call : Call → Persistent p → Persistent p
  call (subscribe t) s = (increment_global_subscription_count (some t) s).0
  call (unsubscribe t) s = (decrement_global_subscription_count (some t) s).0

  abbrev pub run : List Call → Persistent p → Persistent p
  run [] s = s
  run (c ∷ cs) s = run cs (call c s)

-- The count of the topic `m` after the calls, from `n` before them.
abbrev pub tally : List ℕ → List Call → ℕ → ℕ
tally m [] n = n
tally m (subscribe t ∷ cs) n = tally m cs (if bytes_eq t m then suc n else n)
tally m (unsubscribe t ∷ cs) n = tally m cs (if bytes_eq t m then n - 1 else n)

weaken : (b : ℕ) (es : List GlobalSubscription) → All (HasRoom (suc b)) es → All (HasRoom b) es
weaken b [] r = tt
weaken b (x ∷ es) r = (omega arith, weaken b es r.1)

HasRoom-increment :
    (name : List ℕ) (b : ℕ) (es : List GlobalSubscription) (o : Option (ℕ × GlobalSubscription))
    → suc b < 2 ^ 32
    → find (is_count_of name) es 0 ≡ o
    → All (HasRoom (suc b)) es
    → All (HasRoom b) (incremented_at name es o)
HasRoom-increment name b es none k h room =
    All-put_of (HasRoom b) es (free_slot is_unused es) (new_count name) (weaken b es room)
      (omega arith)
HasRoom-increment name b es (some (i, e)) k h room =
    let (at, q, lt) = at_index name es i e h in
    let r = All-get_elem? (HasRoom (suc b)) es i e room at in
    All-put_of (HasRoom b) es i (incremented e) (weaken b es room) (omega arith)

decremented-HasRoom :
    (b : ℕ) (e : GlobalSubscription) → b < 2 ^ 32 → HasRoom b e → HasRoom b (decremented e)
decremented-HasRoom b e k r = elim (Bool-cases (e.client_subscription_count - 1 == 0)) [
  | inl z ↦ rw z (omega arith)
  | inr z ↦ rw z (omega arith)
]

HasRoom-decrement :
    (name : List ℕ) (b : ℕ) (es : List GlobalSubscription) (o : Option (ℕ × GlobalSubscription))
    → b < 2 ^ 32
    → find (is_count_of name) es 0 ≡ o
    → All (HasRoom b) es
    → All (HasRoom b) (decremented_at es o)
HasRoom-decrement name b es none k h room = room
HasRoom-decrement name b es (some (i, e)) k h room =
    let (at, q, lt) = at_index name es i e h in
    All-put_of (HasRoom b) es i (decremented e) room
      (decremented-HasRoom b e k (All-get_elem? (HasRoom b) es i e room at))

one_room : (b : ℕ) (es : List GlobalSubscription) → All (HasRoom (suc b)) es → All (HasRoom 1) es
one_room b [] r = tt
one_room b (x ∷ es) r = (omega arith, one_room b es r.1)

length-incremented_at :
    (name : List ℕ) (es : List GlobalSubscription) (o : Option (ℕ × GlobalSubscription))
    → length (incremented_at name es o) ≤ suc (length es)
length-incremented_at name es none = length-put es (free_slot is_unused es) (new_count name)
length-incremented_at name es (some (i, e)) = length-put es i (incremented e)

length-decremented_at :
    (name : List ℕ) (es : List GlobalSubscription) (o : Option (ℕ × GlobalSubscription))
    → find (is_count_of name) es 0 ≡ o
    → length (decremented_at es o) ≡ length es
length-decremented_at name es none h = refl
length-decremented_at name es (some (i, e)) h =
    let (at, q, lt) = at_index name es i e h in length-put_inside es i (decremented e) lt

-- One call changes the count of its own topic by one, and no other.
count_in-increment :
    (name m : List ℕ) (es : List GlobalSubscription)
    → IsTopic name
    → IsTopic m
    → All (HasRoom 1) es
    → count_in m (increment_rows name es)
      ≡ (if bytes_eq name m then suc (count_in m es) else count_in m es)
count_in-increment name m es t tm room = elim (Bool-cases (bytes_eq name m)) [
  | inl y ↦
      let same = (bytes_eq_iff name m).0 y in
      rw (y, ← same) (count_in-increment_self name es (find (is_count_of name) es 0) t room refl)
  | inr n ↦ rw n (
      count_in-increment_ne name m es (find (is_count_of name) es 0) t
        (λ e. let y = (bytes_eq_iff name m).1 e in ground arith) tm.not_empty room refl)
]

count_in-decrement :
    {p : Platform} (name m : List ℕ) (s : Persistent p) (es : List GlobalSubscription)
    → Counts s es
    → count_in m (decrement_rows name es)
      ≡ (if bytes_eq name m then count_in m es - 1 else count_in m es)
count_in-decrement name m s es h = elim (Bool-cases (bytes_eq name m)) [
  | inl y ↦
      let same = (bytes_eq_iff name m).0 y in
      rw (y, ← same) (count_in-decrement_self name es (find (is_count_of name) es 0) h.one_row refl)
  | inr n ↦ rw n (
      count_in-decrement_ne name m es (find (is_count_of name) es 0)
        (λ e. let y = (bytes_eq_iff name m).1 e in ground arith) refl)
]

module _ {p : Platform} where
  -- After any sequence of calls for valid topics the file gives, for every valid topic, the count
  -- that its own calls make: one more for an increment, one less, but not below 0, for a
  -- decrement. No error is set, MQTT.SUB holds a table with one row for each topic, rows and calls
  -- together are below 65535, and no count can pass 2 ^ 32 in so many calls.
  pub get_count-run :
      (m : List ℕ) (cs : List Call) (s : Persistent p) (es : List GlobalSubscription)
      → Counts s es
      → IsTopic m
      → All (λ c. IsTopic (topic_of c)) cs
      → length es + length cs < 65535
      → All (HasRoom (length cs)) es
      → get_global_topic_subscription_count (some m) (run cs s) ≡ tally m cs (count_in m es)
  get_count-run m [] s es h t ts k room = get_count-eq m s es h t (omega arith)
  get_count-run m (subscribe n ∷ cs) s es h t ts k room =
      let one = one_room (length cs) es room in
      get_count-run m cs (call (subscribe n) s) (increment_rows n es)
        (increment-Counts n s es h ts.0 (omega arith) one) t ts.1
        (omega (arith, length-incremented_at n es (find (is_count_of n) es 0)))
        (HasRoom-increment n (length cs) es (find (is_count_of n) es 0) (omega arith) refl room)
      ∙ ap (tally m cs) (count_in-increment n m es ts.0 t one)
  get_count-run m (unsubscribe n ∷ cs) s es h t ts k room =
      get_count-run m cs (call (unsubscribe n) s) (decrement_rows n es)
        (decrement-Counts n s es h ts.0 (omega arith)) t ts.1
        (omega (arith, length-decremented_at n es (find (is_count_of n) es 0) refl))
        (HasRoom-decrement n (length cs) es (find (is_count_of n) es 0) (omega arith) refl
          (weaken (length cs) es room))
      ∙ ap (tally m cs) (count_in-decrement n m s es h)
