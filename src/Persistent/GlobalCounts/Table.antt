-- ===== src/Persistent/GlobalCounts/Table.antt =====
-- MQTT.SUB as a list of rows, one for each topic that is subscribed to, and what
-- increment_global_subscription_count and decrement_global_subscription_count do to it.
use native.Mathlib.Nat.{zero-add}
use linux_mqtt_sn_gateway.Base.{
  ℕ, suc, ◌+◌, ◌-◌, ◌%◌, ◌^◌, ◌<◌, ◌≡◌, ◌≢◌, refl, ap, sym, ◌∙◌, true, false, Option, none, some,
  List, [], ◌∷◌, ◌++◌, c_str, bytes_eq, bytes_eq_iff, length, All, All-overlay, length-overlay,
  c_str-strcpy, All-IsByte_of_text, ◌==◌, Bool-cases, ==_iff, inl, inr, get_elem?, arith,
}
use linux_mqtt_sn_gateway.Storage.Entries.{
  GlobalSubscription, GlobalFits, zero_global, zeros-IsArray,
}
use linux_mqtt_sn_gateway.Storage.Splice.{put}
use linux_mqtt_sn_gateway.Persistent.Scan.{
  find, find-some, find-none-All, find-put, find-put_ne, free_slot, free_slot_lem,
}
use linux_mqtt_sn_gateway.Persistent.Unique.{
  All-get_elem?, Unique, Unique-put, find-put_found, find-put_gone,
}
use linux_mqtt_sn_gateway.Persistent.Subscriptions.Table.{IsTopic}
use linux_mqtt_sn_gateway.Persistent.GlobalCounts.{
  is_unused, is_count_of, incremented, decremented, first_count,
}

abbrev pub OneRowEach : List GlobalSubscription → Type 0
OneRowEach = Unique is_count_of

abbrev pub counted : Option (ℕ × GlobalSubscription) → ℕ
counted none = 0
counted (some (_, e)) = e.client_subscription_count

-- The count of a topic in a table.
abbrev pub count_in : List ℕ → List GlobalSubscription → ℕ
count_in name es = counted (find (is_count_of name) es 0)

abbrev pub new_count : List ℕ → GlobalSubscription
new_count name = first_count name zero_global

abbrev pub incremented_at :
    List ℕ → List GlobalSubscription → Option (ℕ × GlobalSubscription) → List GlobalSubscription
incremented_at name es none = put es (free_slot is_unused es) (new_count name)
incremented_at name es (some (i, e)) = put es i (incremented e)

abbrev pub decremented_at :
    List GlobalSubscription → Option (ℕ × GlobalSubscription) → List GlobalSubscription
decremented_at es none = es
decremented_at es (some (i, e)) = put es i (decremented e)

abbrev pub increment_rows : List ℕ → List GlobalSubscription → List GlobalSubscription
increment_rows name es = incremented_at name es (find (is_count_of name) es 0)

abbrev pub decrement_rows : List ℕ → List GlobalSubscription → List GlobalSubscription
decrement_rows name es = decremented_at es (find (is_count_of name) es 0)

bytes_eq_ne : (a b : List ℕ) → a ≢ b → bytes_eq a b ≡ false
bytes_eq_ne a b n = elim (Bool-cases (bytes_eq a b)) [
  | inl e ↦ absurd (n ((bytes_eq_iff a b).0 e))
  | inr e ↦ e
]

c_str-new_count : (name : List ℕ) → IsTopic name → c_str (new_count name).topic_name ≡ name
c_str-new_count name t =
    c_str-strcpy zero_global.topic_name name t.text
      (let n = (zeros-IsArray 255).0 in let h = t.short in omega arith)

is_count_of-new :
    (m name : List ℕ) → IsTopic name → is_count_of m (new_count name) ≡ bytes_eq name m
is_count_of-new m name t = rw (c_str-new_count name t) (let h = t.short in ground arith)

pub new_count-fits : (name : List ℕ) → IsTopic name → GlobalFits (new_count name)
new_count-fits name t = record {
  count_fits = omega arith;
  name_fits = (
    length-overlay zero_global.topic_name (name ++ 0 ∷ []) ∙ (zeros-IsArray 255).0,
    All-overlay zero_global.topic_name (name ++ 0 ∷ []) (zeros-IsArray 255).1
        (All-IsByte_of_text name t.text),
  );
}

-- A row answers to one name.
one_name :
    (m k : List ℕ) (e : GlobalSubscription)
    → is_count_of m e ≡ true
    → is_count_of k e ≡ bytes_eq m k
one_name m k e h =
    let q = (bytes_eq_iff (c_str e.topic_name) m).0 (ground arith) in rw q (ground arith)

same_row :
    (m : List ℕ) (e : GlobalSubscription)
    → is_count_of m (decremented e) ≡ true
    → is_count_of m e ≡ true
same_row m e h = elim (Bool-cases (e.client_subscription_count - 1 == 0)) [
  | inl z ↦ absurd (let r : is_count_of m zero_global ≡ true = rw z at h in ground arith)
  | inr z ↦
      let r : is_count_of m
            (record e { client_subscription_count = e.client_subscription_count - 1 })
          ≡ true =
        rw z at h in
      ground arith
]

same_row_incremented :
    (m name : List ℕ) (e : GlobalSubscription)
    → e.client_subscription_count + 1 < 2 ^ 32
    → is_count_of name e ≡ true
    → is_count_of m (incremented e) ≡ is_count_of m e
same_row_incremented m name e h q =
    let z : ((e.client_subscription_count + 1) % 2 ^ 32 == 0) ≡ false = ground arith in
    let y : (e.client_subscription_count == 0) ≡ false = ground arith in rw (z, y)

-- A row below the `uint32_t` limit can be counted up.
abbrev pub HasRoom : ℕ → GlobalSubscription → Type 0
HasRoom b e = e.client_subscription_count + b < 2 ^ 32

pub at_index :
    (name : List ℕ) (es : List GlobalSubscription) (i : ℕ) (e : GlobalSubscription)
    → find (is_count_of name) es 0 ≡ some (i, e)
    → (get_elem? es i ≡ some e) × (is_count_of name e ≡ true) × (i < length es)
at_index name es i e h =
    let (j, at, found, meets, lt) = find-some (is_count_of name) es 0 i e h in
    let k : j ≡ i = omega arith in (rw k at found, meets, omega arith)

All-at :
    {E : Type 0} (P : E → Type 0) (es : List E) (i : ℕ) (e : E)
    → All P es
    → get_elem? es i ≡ some e
    → P e
All-at P es i e h g = All-get_elem? P es i e h g

pub OneRowEach-increment :
    (name : List ℕ) (es : List GlobalSubscription) (o : Option (ℕ × GlobalSubscription))
    → IsTopic name
    → OneRowEach es
    → All (HasRoom 1) es
    → find (is_count_of name) es 0 ≡ o
    → OneRowEach (incremented_at name es o)
OneRowEach-increment name es none t u room h =
    Unique-put is_count_of es (free_slot is_unused es) (new_count name) u λ m k.
      let same : name ≡ m = (bytes_eq_iff name m).0 (sym (is_count_of-new m name t) ∙ k) in
      inr (rw (← same) (find-none-All (is_count_of name) es 0 h))
OneRowEach-increment name es (some (i, e)) t u room h =
    let (at, q, lt) = at_index name es i e h in
    Unique-put is_count_of es i (incremented e) u λ m k.
      inl (e, at, sym (same_row_incremented m name e (All-at (HasRoom 1) es i e room at) q) ∙ k)

pub OneRowEach-decrement :
    (name : List ℕ) (es : List GlobalSubscription) (o : Option (ℕ × GlobalSubscription))
    → OneRowEach es
    → find (is_count_of name) es 0 ≡ o
    → OneRowEach (decremented_at es o)
OneRowEach-decrement name es none u h = u
OneRowEach-decrement name es (some (i, e)) u h =
    let (at, q, lt) = at_index name es i e h in
    Unique-put is_count_of es i (decremented e) u (λ m k. inl (e, at, same_row m e k))

-- Counting one topic up.
pub count_in-increment_self :
    (name : List ℕ) (es : List GlobalSubscription) (o : Option (ℕ × GlobalSubscription))
    → IsTopic name
    → All (HasRoom 1) es
    → find (is_count_of name) es 0 ≡ o
    → count_in name (incremented_at name es o) ≡ suc (counted o)
count_in-increment_self name es none t room h = ap counted (
    find-put (is_count_of name) es 0 (free_slot is_unused es) (new_count name)
      (find-none-All (is_count_of name) es 0 h)
      (is_count_of-new name name t ∙ (bytes_eq_iff name name).1 refl)
      (free_slot_lem is_unused es).0)
count_in-increment_self name es (some (i, e)) t room h =
    let (at, q, lt) = at_index name es i e h in
    let small = All-at (HasRoom 1) es i e room at in
    let still = same_row_incremented name name e small q ∙ q in
    let found : find (is_count_of name) es 0 ≡ some (0 + i, e) = rw zero-add h in
    ap counted (find-put_found is_count_of name es 0 i e (incremented e) found still) ∙ omega arith

-- The other topics keep their counts.
pub count_in-increment_ne :
    (name m : List ℕ) (es : List GlobalSubscription) (o : Option (ℕ × GlobalSubscription))
    → IsTopic name
    → name ≢ m
    → 0 < length m
    → All (HasRoom 1) es
    → find (is_count_of name) es 0 ≡ o
    → count_in m (incremented_at name es o) ≡ count_in m es
count_in-increment_ne name m es none t ne pos room h = ap counted (
    find-put_ne (is_count_of m) es 0 (free_slot is_unused es) (new_count name)
      (λ x at. unused_answers_none m x ((free_slot_lem is_unused es).1 x at))
      (is_count_of-new m name t ∙ bytes_eq_ne name m ne))
  where
    unused_answers_none :
        (k : List ℕ) (x : GlobalSubscription) → is_unused x ≡ true → is_count_of k x ≡ false
    unused_answers_none k x q = ground arith
count_in-increment_ne name m es (some (i, e)) t ne pos room h =
    let (at, q, lt) = at_index name es i e h in
    let small = All-at (HasRoom 1) es i e room at in
    let not_m = one_name name m e q ∙ bytes_eq_ne name m ne in
    ap counted (
      find-put_ne (is_count_of m) es 0 i (incremented e)
        (λ x k. let same : e ≡ x = ground arith in rw same at not_m)
        (same_row_incremented m name e small q ∙ not_m))

pub count_in-decrement_self :
    (name : List ℕ) (es : List GlobalSubscription) (o : Option (ℕ × GlobalSubscription))
    → OneRowEach es
    → find (is_count_of name) es 0 ≡ o
    → count_in name (decremented_at es o) ≡ counted o - 1
count_in-decrement_self name es none u h = ap counted h ∙ omega arith
count_in-decrement_self name es (some (i, e)) u h =
    let (at, q, lt) = at_index name es i e h in
    let found : find (is_count_of name) es 0 ≡ some (0 + i, e) = rw zero-add h in
    elim (Bool-cases (e.client_subscription_count - 1 == 0)) [
      | inl z ↦ rw z (
          ap counted (find-put_gone is_count_of name es 0 i e zero_global u found (ground arith))
          ∙ (let k = (==_iff (e.client_subscription_count - 1) 0).0 z in omega arith))
      | inr z ↦ rw z (
          ap counted (
            find-put_found is_count_of name es 0 i e
              (record e { client_subscription_count = e.client_subscription_count - 1 }) found
              (ground arith)))
    ]

pub count_in-decrement_ne :
    (name m : List ℕ) (es : List GlobalSubscription) (o : Option (ℕ × GlobalSubscription))
    → name ≢ m
    → find (is_count_of name) es 0 ≡ o
    → count_in m (decremented_at es o) ≡ count_in m es
count_in-decrement_ne name m es none ne h = refl
count_in-decrement_ne name m es (some (i, e)) ne h =
    let (at, q, lt) = at_index name es i e h in
    let not_m = one_name name m e q ∙ bytes_eq_ne name m ne in
    ap counted (
      find-put_ne (is_count_of m) es 0 i (decremented e)
        (λ x k. let same : e ≡ x = ground arith in rw same at not_m) (gone m e not_m))
  where
    gone :
        (k : List ℕ) (x : GlobalSubscription)
        → is_count_of k x ≡ false
        → is_count_of k (decremented x) ≡ false
    gone k x n = elim (Bool-cases (is_count_of k (decremented x))) [
      | inl y ↦ absurd (let r = same_row k x y in ground arith)
      | inr y ↦ y
    ]
