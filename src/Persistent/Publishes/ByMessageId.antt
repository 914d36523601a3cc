-- ===== src/Persistent/Publishes/ByMessageId.antt =====
-- remove_publish_by_msg_id of LinuxPersistent.cpp: it seeks to `entry_number * sizeof(buffer_size)` and
-- writes `sizeof(buffer_size)` bytes, where `buffer_size` is a `uint16_t`.

use linux_mqtt_sn_gateway.Base.{
  ℕ, suc, ◌+◌, ◌*◌, ◌≤◌, ◌<◌, ◌≡◌, ◌≢◌, ap, ◌∙◌, true, false, none, some, List, [], ◌∷◌, length,
  get_elem?, ◌==◌, arith,
}
use linux_mqtt_sn_gateway.Storage.Entries.{Publish}
use linux_mqtt_sn_gateway.Storage.Platform.{Platform}
use linux_mqtt_sn_gateway.Storage.Table.{whole, read_row, read_row-write_before}
use linux_mqtt_sn_gateway.Persistent.State.{Persistent, client_file, publish_file}
use linux_mqtt_sn_gateway.Persistent.Scan.{find, find-some, new_offset, scan_slot-eq}
use linux_mqtt_sn_gateway.Persistent.Publishes.{is_free, row_of_publish, remove_publish_by_msg_id}
use linux_mqtt_sn_gateway.Persistent.Publishes.Table.{id_of_row, Waiting, publishes_of-eq}

two_bytes : (i size : ℕ) → 0 < i → 4 ≤ size → i * 2 + 2 ≤ i * size
two_bytes i size h k = grind arith

-- Bytes written before the row of an id leave the row as it was.
row-write_before :
    {p : Platform} (s : Persistent p) (es : List Publish) (id j off : ℕ) (e : Publish)
    (bytes : List ℕ)
    → Waiting s es
    → get_elem? es j ≡ some e
    → id ≡ suc j
    → off + length bytes ≤ j * p.publish_layout.size
    → read_row p p.publish_layout
        (client_file s.entry_client publish_file)
        (new_offset p.publish_layout.size none id)
        (p.write_at
          (client_file s.entry_client publish_file)
          off
          bytes
          (p.open_write (client_file s.entry_client publish_file) s.card))
      ≡ some (whole e)
row-write_before {p} s es id j off e bytes h found named before = rw named (
    read_row-write_before p p.publish_layout (client_file s.entry_client publish_file) s.card es j
      off e bytes h.table found before)

-- The message in use that a message id other than 0 finds, when it does not stand in the first
-- row, is still in its row after remove_publish_by_msg_id of that id. A transaction runs for a
-- registered client, whose file holds fewer than 65535 rows, each free or under its own id, and
-- the struct has at least 4 bytes.
pub acknowledged_message_stays :
    {p : Platform} (msg_id i : ℕ) (e : Publish) (s : Persistent p) (es : List Publish)
    → Waiting s es
    → length es < 65535
    → 4 ≤ p.publish_layout.size
    → msg_id ≢ 0
    → find (λ x. x.msg_id == msg_id) es 0 ≡ some (i, e)
    → 0 < i
    → is_free e ≡ false
    → row_of_publish e.publish_id (remove_publish_by_msg_id msg_id s) ≡ some (whole e)
unfolding remove_publish_by_msg_id
acknowledged_message_stays {p} msg_id i e s es h k big nonzero found later busy =
    let (j, at, row, meets, lt) = find-some (λ x. x.msg_id == msg_id) es 0 i e found in
    let own : e.publish_id ≡ suc j = id_of_row es 0 j e h.numbered row busy ∙ omega arith in
    let known : (msg_id == 0) ≡ false = ground arith in
    rw
      (
        h.is_ready,
        publishes_of-eq s es h,
        scan_slot-eq true (λ _. false) (λ x. x.msg_id == msg_id) es none 0 (omega arith),
        found,
        known,
      )
      (row-write_before s es e.publish_id j (i * 2) e (0 ∷ 0 ∷ []) h row own (
        let room = two_bytes i p.publish_layout.size later big in
        let same : i ≡ j = omega arith in
        let moved = ap (λ k. k * p.publish_layout.size) same in omega arith))
