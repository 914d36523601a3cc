-- ===== src/Persistent/Publishes/Table.antt =====
-- The waiting messages of a client as a list of rows, and what add_client_publish of
-- LinuxPersistent.cpp does to it.
use native.Mathlib.Nat.{zero-add}
use linux_mqtt_sn_gateway.Base.{
  All-take, take-overlay, ℕ, zero, suc, ◌+◌, ◌≤◌, ◌<◌, ◌≡◌, refl, ap, ◌∙◌, Bool, true, false, not,
  ◌&&◌, Option, none, some, List, [], ◌∷◌, map, take, length, get_elem?, IsByte, All, All-of,
  All-overlay, length-overlay, if◌then◌else◌, Bool-cases, ◌⊎◌, inl, inr, arith,
}
use linux_mqtt_sn_gateway.Storage.Entries.{Publish, PublishFits, zero_publish, zeros-IsArray}
use linux_mqtt_sn_gateway.Storage.Splice.{put}
use linux_mqtt_sn_gateway.Storage.Platform.{Platform}
use linux_mqtt_sn_gateway.Storage.Table.{Holds, whole, read_rows-Holds, save_row-Holds}
use linux_mqtt_sn_gateway.Persistent.State.{Persistent, ready, client_file, publish_file}
use linux_mqtt_sn_gateway.Persistent.Scan.{
  ended, scan_slot, find-none, scan_slot-eq, slot_of, free_slot, free_slot_lem, new_offset-eq,
  last_empty,
}
use linux_mqtt_sn_gateway.Persistent.Publishes.{
  is_free, new_publish, new_publish_id, publishes_of, add_client_publish,
}

-- A row in use carries its own index plus one as its id.
abbrev pub IsNumbered : List Publish → ℕ → Type 0
IsNumbered [] n = Unit
IsNumbered (e ∷ es) n = ((e.publish_id ≡ 0) ⊎ (e.publish_id ≡ suc n)) × IsNumbered es (suc n)

-- The rows in use.
abbrev pub used : List Publish → ℕ
used [] = 0
used (e ∷ es) = if is_free e then used es else suc (used es)

pub IsNumbered-put :
    (es : List Publish) (n i : ℕ) (e : Publish)
    → i ≤ length es
    → (e.publish_id ≡ 0) ⊎ (e.publish_id ≡ suc (n + i))
    → IsNumbered es n
    → IsNumbered (put es i e) n
IsNumbered-put [] n i e k h q = (let z : i ≡ 0 = omega arith in omega arith, tt)
IsNumbered-put (x ∷ es) n zero e k h q = (omega arith, q.1)
IsNumbered-put (x ∷ es) n (suc i) e k h q =
    (q.0, IsNumbered-put es (suc n) i e (omega arith) (omega arith) q.1)

pub id_of_row :
    (es : List Publish) (n i : ℕ) (e : Publish)
    → IsNumbered es n
    → get_elem? es i ≡ some e
    → is_free e ≡ false
    → e.publish_id ≡ suc (n + i)
id_of_row [] n i e q g f = absurd (ground arith)
id_of_row (x ∷ es) n zero e q g f =
    let same : x ≡ e = ground arith in
    let own : (e.publish_id ≡ 0) ⊎ (e.publish_id ≡ suc n) = rw same at q.0 in ground arith
id_of_row (x ∷ es) n (suc i) e q g f = id_of_row es (suc n) i e q.1 g f ∙ omega arith

-- A message put on a free row or at the end is one more, and a row in use that is cleared one less.
pub used-put_more :
    (es : List Publish) (i : ℕ) (e : Publish)
    → ((x : Publish) → get_elem? es i ≡ some x → is_free x ≡ true)
    → is_free e ≡ false
    → used (put es i e) ≡ suc (used es)
used-put_more [] i e h f = rw f
used-put_more (x ∷ es) zero e h f = rw (f, h x refl)
used-put_more (x ∷ es) (suc i) e h f = elim (Bool-cases (is_free x)) [
  | inl t ↦ rw t (used-put_more es i e h f)
  | inr t ↦ rw t (ap suc (used-put_more es i e h f))
]

pub used-put_less :
    (es : List Publish) (i : ℕ) (x e : Publish)
    → get_elem? es i ≡ some x
    → is_free x ≡ false
    → is_free e ≡ true
    → suc (used (put es i e)) ≡ used es
used-put_less [] i x e g f t = absurd (ground arith)
used-put_less (y ∷ es) zero x e g f t =
    let same : y ≡ x = ground arith in let q : is_free y ≡ false = rw same f in rw (t, q)
used-put_less (y ∷ es) (suc i) x e g f t = elim (Bool-cases (is_free y)) [
  | inl k ↦ rw k (used-put_less es i x e g f t)
  | inr k ↦ rw k (ap suc (used-put_less es i x e g f t))
]

-- The values of a message that the struct can hold.
pub record IsMessage (bytes : List ℕ) (len topic_id qos : ℕ) : Type 0 where
  pub bytes_fit : All IsByte bytes
  pub len_fits : len < 256
  pub enough : len ≤ length bytes
  pub topic_fits : topic_id < 65536
  pub qos_fits : qos < 256

pub new_publish-fits :
    (bytes : List ℕ) (len topic_id : ℕ) (retain : Bool) (qos id : ℕ)
    → IsMessage bytes len topic_id qos
    → id < 65536
    → PublishFits (new_publish bytes len topic_id retain qos id)
new_publish-fits bytes len topic_id retain qos id m h = record {
  msg_fits = (
    length-overlay zero_publish.msg (take len bytes) ∙ (zeros-IsArray 255).0,
    All-overlay zero_publish.msg (take len bytes) (zeros-IsArray 255).1
        (All-take IsByte len bytes m.bytes_fit),
  );
  length_fits = m.len_fits;
  id_fits = m.topic_fits;
  qos_fits = m.qos_fits;
  msg_id_fits = omega arith;
  publish_id_fits = h;
  timeout_fits = omega arith;
}

-- A row that holds a message of a call: its bytes and their number, its topic id, quality of service
-- and retain flag, under the id one more than its index. It is no retransmission and has no message id.
pub record Keeps (bytes : List ℕ) (len topic_id : ℕ) (retain : Bool) (qos i : ℕ) (e : Publish)
    : Type 0 where
  pub same_bytes : take len e.msg ≡ take len bytes
  pub same_length : e.msg_length ≡ len
  pub same_topic : e.topic_id ≡ topic_id
  pub same_retain : e.retain ≡ retain
  pub same_qos : e.qos ≡ qos
  pub first_time : e.dup ≡ false
  pub no_msg_id : e.msg_id ≡ 0
  pub numbered : e.publish_id ≡ suc i

-- The row that `add_client_publish` writes.
abbrev added_row : List ℕ → ℕ → ℕ → Bool → ℕ → List Publish → Publish
added_row bytes len topic_id retain qos es =
    new_publish bytes len topic_id retain qos (suc (free_slot is_free es))

added_row-Keeps :
    (bytes : List ℕ) (len topic_id : ℕ) (retain : Bool) (qos : ℕ) (es : List Publish)
    → IsMessage bytes len topic_id qos
    → Keeps bytes len topic_id retain qos
        (free_slot is_free es)
        (added_row bytes len topic_id retain qos es)
added_row-Keeps bytes len topic_id retain qos es m = record {
  same_bytes =
      let fits = m.len_fits in
      let room : length zero_publish.msg ≡ 255 = (zeros-IsArray 255).0 in
      take-overlay len zero_publish.msg bytes (omega arith) m.enough;
  same_length = refl;
  same_topic = refl;
  same_retain = refl;
  same_qos = refl;
  first_time = refl;
  no_msg_id = refl;
  numbered = refl;
}

module _ {p : Platform} where
  -- A transaction runs for a registered client, whose message file holds the rows `es`.
  pub record Waiting (s : Persistent p) (es : List Publish) : Type 0 where
    pub is_ready : ready s ≡ true
    pub table : Holds p p.publish_layout (client_file s.entry_client publish_file) s.card es
    pub numbered : IsNumbered es 0

  pub publishes_of-eq :
      (s : Persistent p) (es : List Publish) → Waiting s es → publishes_of s ≡ map whole es
  publishes_of-eq s es h =
      read_rows-Holds p p.publish_layout (client_file s.entry_client publish_file) s.card es h.table

  -- The loop of add_client_publish never stops at a row.
  add_scan-eq :
      (s : Persistent p) (es : List Publish)
      → Waiting s es
      → length es < 65535
      → scan_slot true is_free (λ _. false) (publishes_of s) none 0
        ≡ ended (last_empty is_free es none 0) (suc (length es)) none
  add_scan-eq s es h k = rw (
    publishes_of-eq s es h,
    scan_slot-eq true is_free (λ _. false) es none 0 (omega arith),
    find-none (λ e. not (is_free e) && false) es 0
        (All-of (λ e. (not (is_free e) && false) ≡ false) es (λ e. ground arith)),
    zero-add,
  )

  add_client_publish-put :
      (bytes : List ℕ) (len topic_id : ℕ) (retain : Bool) (qos : ℕ) (dup : Bool) (msg_id : ℕ)
      (s : Persistent p) (es : List Publish)
      → Waiting s es
      → IsMessage bytes len topic_id qos
      → length es < 65535
      → Waiting
          (add_client_publish bytes len topic_id retain qos dup msg_id s)
          (put es (free_slot is_free es) (added_row bytes len topic_id retain qos es))
  unfolding add_client_publish
  add_client_publish-put bytes len topic_id retain qos dup msg_id s es h m k =
      rw
        (
          h.is_ready,
          add_scan-eq s es h k,
          new_offset-eq p.publish_layout.size (last_empty is_free es none 0) (length es),
          new_id (last_empty is_free es none 0) (length es) inside k,
        )
        (record {
          is_ready = h.is_ready;
          table =
              save_row-Holds p p.publish_layout (client_file s.entry_client publish_file) s.card es
                (free_slot is_free es) (added_row bytes len topic_id retain qos es) h.table
                (new_publish-fits bytes len topic_id retain qos (suc (free_slot is_free es)) m
                  (omega (arith, inside)))
                inside;
          numbered =
              IsNumbered-put es 0 (free_slot is_free es)
                (added_row bytes len topic_id retain qos es) inside (omega arith) h.numbered;
        })
    where
      inside : free_slot is_free es ≤ length es
      inside = (free_slot_lem is_free es).0

      new_id :
          (first : Option ℕ) (count : ℕ)
          → slot_of first count ≤ count
          → count < 65535
          → new_publish_id first (suc count) ≡ suc (slot_of first count)
      new_id none count le lt = omega arith
      new_id (some i) count le lt = omega arith

  -- add_client_publish leaves a file that holds the old rows with one row put on a free row, or at
  -- the end: it holds the bytes of the message and their number, its topic id, quality of service
  -- and retain flag, no dup flag and no message id, under the id one more than its index. A
  -- transaction runs for a registered client, whose file holds fewer than 65535 rows, each free or
  -- under its own id, the arguments fit the struct, and there are as many bytes as `len` says.
  pub add_client_publish-Waiting :
      (bytes : List ℕ) (len topic_id : ℕ) (retain : Bool) (qos : ℕ) (dup : Bool) (msg_id : ℕ)
      (s : Persistent p) (es : List Publish)
      → Waiting s es
      → IsMessage bytes len topic_id qos
      → length es < 65535
      → (e : Publish) × Keeps bytes len topic_id retain qos (free_slot is_free es) e
        × Waiting
            (add_client_publish bytes len topic_id retain qos dup msg_id s)
            (put es (free_slot is_free es) e)
  add_client_publish-Waiting bytes len topic_id retain qos dup msg_id s es h m k = (
    added_row bytes len topic_id retain qos es,
    added_row-Keeps bytes len topic_id retain qos es m,
    add_client_publish-put bytes len topic_id retain qos dup msg_id s es h m k,
  )
