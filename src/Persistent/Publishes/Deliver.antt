-- ===== src/Persistent/Publishes/Deliver.antt =====
-- Handing out and removing the waiting messages: has_client_publishes, get_next_publish,
-- set_publish_msg_id and remove_publish_by_publish_id of LinuxPersistent.cpp.

use linux_mqtt_sn_gateway.Base.{
  ℕ, zero, suc, ◌+◌, ◌<◌, ◌≡◌, refl, sym, ◌∙◌, Bool, true, false, not, ◌&&◌, Option, none, some,
  List, [], ◌∷◌, length, get_elem?, All, All-of, ◌==◌, ltb, lt→ltb, Bool-cases, ◌⊎◌, inl, inr,
  arith,
}
use linux_mqtt_sn_gateway.Storage.Entries.{Publish, PublishFits, zero_publish, zero_publish-fits}
use linux_mqtt_sn_gateway.Storage.Splice.{put}
use linux_mqtt_sn_gateway.Storage.Platform.{Platform}
use linux_mqtt_sn_gateway.Storage.Table.{save_row-Holds, read_row-Holds}
use linux_mqtt_sn_gateway.Persistent.State.{Persistent, client_file, publish_file}
use linux_mqtt_sn_gateway.Persistent.Scan.{
  find, find-none-All, find-none, find-some, scan_slot-eq, slot_result, last_empty, last_empty-some,
  last_empty-none-All,
}
use linux_mqtt_sn_gateway.Persistent.Unique.{All-get_elem?}
use linux_mqtt_sn_gateway.Persistent.Publishes.{
  is_free, is_hit, handed_back, row_of_publish, change_publish, has_client_publishes,
  get_next_publish, set_publish_msg_id, remove_publish_by_publish_id,
}
use linux_mqtt_sn_gateway.Persistent.Publishes.Table.{
  used, IsNumbered-put, id_of_row, used-put_less, Waiting, publishes_of-eq,
}

abbrev pub in_use : Publish → Bool
in_use e = not (is_free e)

none-used : (es : List Publish) → All (λ e. in_use e ≡ false) es → used es ≡ 0
none-used [] h = refl
none-used (e ∷ es) h = let t : is_free e ≡ true = ground arith in rw t (none-used es h.1)

some-used :
    (es : List Publish) (j : ℕ) (e : Publish)
    → get_elem? es j ≡ some e
    → in_use e ≡ true
    → 0 < used es
some-used [] j e g t = absurd (ground arith)
some-used (x ∷ es) zero e g t =
    let same : x ≡ e = ground arith in
    let q : is_free x ≡ false = rw same (ground arith) in rw q (omega arith)
some-used (x ∷ es) (suc j) e g t = elim (Bool-cases (is_free x)) [
  | inl k ↦ rw k (some-used es j e g t)
  | inr k ↦ rw k (omega arith)
]

module _ {p : Platform} (s : Persistent p) (es : List Publish) (h : Waiting s es)
    (k : length es < 65535) where
  has_client_publishes-eq : has_client_publishes s ≡ is_hit (slot_result (find in_use es 0) none 0)
  unfolding has_client_publishes
  has_client_publishes-eq =
      rw
        (
          h.is_ready,
          publishes_of-eq s es h,
          scan_slot-eq true (λ _. false) in_use es none 0 (omega arith),
        )
        (same (find in_use es 0))
    where
      same :
          (o : Option (ℕ × Publish))
          → is_hit (slot_result o (last_empty (λ _. false) es none 0) (suc (0 + length es)))
            ≡ is_hit (slot_result o none 0)
      same none = refl
      same (some (i, e)) = refl

  -- has_client_publishes tells whether a row is in use. A transaction runs for a registered
  -- client, whose file holds fewer than 65535 rows.
  pub has_client_publishes-used : has_client_publishes s ≡ ltb 0 (used es)
  has_client_publishes-used = go (find in_use es 0) refl
    where
      go :
          (o : Option (ℕ × Publish))
          → find in_use es 0 ≡ o
          → has_client_publishes s ≡ ltb 0 (used es)
      go none e =
          let empty = none-used es (find-none-All in_use es 0 e) in
          rw (has_client_publishes-eq, e, empty)
      go (some (i, x)) e =
          let (j, at, found, meets, lt) = find-some in_use es 0 i x e in
          let more = some-used es j x found meets in
          rw (has_client_publishes-eq, e) (sym (lt→ltb 0 (used es) more))

  row_in_use :
      0 < used es
      → (i : ℕ) × (e : Publish) × (last_empty in_use es none 0 ≡ some i)
        × (get_elem? es i ≡ some e)
        × (is_free e ≡ false)
        × (i < length es)
  row_in_use more = go (last_empty in_use es none 0) refl
    where
      at_row :
          (i : ℕ)
          → last_empty in_use es none 0 ≡ some i
          → (none ≡ some i)
            ⊎ ((j : ℕ) × (i ≡ 0 + j)
                × (e : Publish) × (get_elem? es j ≡ some e)
                × (in_use e ≡ true)
                × (j < length es))
          → (i : ℕ) × (e : Publish) × (last_empty in_use es none 0 ≡ some i)
            × (get_elem? es i ≡ some e)
            × (is_free e ≡ false)
            × (i < length es)
      at_row i q (inl no_way) = absurd (ground arith)
      at_row i q (inr (j, at, e, found, meets, lt)) =
          let same : j ≡ i = omega arith in (i, e, q, rw same at found, ground arith, omega arith)

      go :
          (o : Option ℕ)
          → last_empty in_use es none 0 ≡ o
          → (i : ℕ) × (e : Publish) × (last_empty in_use es none 0 ≡ some i)
            × (get_elem? es i ≡ some e)
            × (is_free e ≡ false)
            × (i < length es)
      go none q =
          let empty = none-used es (last_empty-none-All in_use es none 0 q).1 in
          absurd (omega arith)
      go (some i) q = at_row i q (last_empty-some in_use es none 0 i q)

  get_next-row :
      (i : ℕ) (e : Publish)
      → last_empty in_use es none 0 ≡ some i
      → get_elem? es i ≡ some e
      → get_next_publish s ≡ handed_back e
  unfolding get_next_publish
  get_next-row i e last found = rw (
    h.is_ready,
    publishes_of-eq s es h,
    scan_slot-eq true in_use (λ _. false) es none 0 (omega arith),
    find-none (λ x. not (in_use x) && false) es 0
        (All-of (λ x. (not (in_use x) && false) ≡ false) es (λ x. ground arith)),
    last,
    read_row-Holds p p.publish_layout (client_file s.entry_client publish_file) s.card es i e
        h.table found,
  )

  -- A row in use can be changed by its id: its new value replaces it, and the others stay.
  pub change-row :
      (f : Publish → Publish) (i id : ℕ) (e : Publish)
      → get_elem? es i ≡ some e
      → id ≡ e.publish_id
      → is_free e ≡ false
      → i < length es
      → PublishFits (f e)
      → ((f e).publish_id ≡ 0) ⊎ ((f e).publish_id ≡ suc i)
      → Waiting (change_publish f id (row_of_publish id s) s) (put es i (f e))
  change-row f i id e found named busy lt fits numbered =
      let own : e.publish_id ≡ suc i = id_of_row es 0 i e h.numbered found busy ∙ omega arith in
      let same : (e.publish_id == suc i) ≡ true = ground arith in
      let at_row : id ≡ suc i = omega arith in
      rw
        (
          at_row,
          read_row-Holds p p.publish_layout (client_file s.entry_client publish_file) s.card es i e
              h.table found,
          same,
        )
        (record {
          is_ready = h.is_ready;
          table =
              save_row-Holds p p.publish_layout (client_file s.entry_client publish_file) s.card es
                i (f e) h.table fits (omega arith);
          numbered = IsNumbered-put es 0 i (f e) (omega arith) (omega arith) h.numbered;
        })

  -- While messages wait, get_next_publish hands out the row of one of them, and removing it by the
  -- id handed out clears that row, keeps the others, and leaves one message less. A transaction
  -- runs for a registered client, whose file holds fewer than 65535 rows, each free or under its
  -- own id.
  pub next_then_remove :
      has_client_publishes s ≡ true
      → (i : ℕ) × (e : Publish) × (get_elem? es i ≡ some e)
        × (get_next_publish s ≡ handed_back e)
        × Waiting (remove_publish_by_publish_id e.publish_id s) (put es i zero_publish)
        × (suc (used (put es i zero_publish)) ≡ used es)
  unfolding remove_publish_by_publish_id
  next_then_remove waiting =
      let more : 0 < used es = let q = sym has_client_publishes-used ∙ waiting in ground arith in
      let (i, e, last, found, busy, lt) = row_in_use more in
      (
        i,
        e,
        found,
        get_next-row i e last found,
        rw h.is_ready (
            change-row (λ _. zero_publish) i e.publish_id e found refl busy lt zero_publish-fits
              (inl refl)),
        used-put_less es i e zero_publish found busy refl,
      )

  -- set_publish_msg_id on the id of a message in use, with a uint16_t, sets its message id and
  -- nothing else. A transaction runs for a registered client, whose file holds fewer than 65535
  -- rows, each free or under its own id.
  pub set_publish_msg_id-Waiting :
      (msg_id i : ℕ) (e : Publish)
      → msg_id < 65536
      → get_elem? es i ≡ some e
      → is_free e ≡ false
      → i < length es
      → Waiting (set_publish_msg_id e.publish_id msg_id s) (put es i (record e { msg_id = msg_id }))
  unfolding set_publish_msg_id
  set_publish_msg_id-Waiting msg_id i e fits found busy lt =
      let old = All-get_elem? PublishFits es i e h.table.fit found in
      let own : e.publish_id ≡ suc i = id_of_row es 0 i e h.numbered found busy ∙ omega arith in
      rw h.is_ready (
        change-row (λ x. record x { msg_id = msg_id }) i e.publish_id e found refl busy lt
          (assumption) (inr own))
