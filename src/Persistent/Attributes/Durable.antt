-- ===== src/Persistent/Attributes/Durable.antt =====
-- The setters of LinuxPersistent.cpp write `_entry_client` through to its row of CLIENTS, and a later
-- transaction reads it back.
use linux_mqtt_sn_gateway.Base.{
  ℕ, ◌+◌, ◌^◌, ◌≤◌, ◌<◌, ◌≡◌, refl, ap, ◌∙◌, true, some, List, length, arith,
}
use native.Mathlib.Nat.{zero-add}
use linux_mqtt_sn_gateway.Storage.Entries.{Client, ClientFits}
use linux_mqtt_sn_gateway.Storage.Splice.{put, length-put}
use linux_mqtt_sn_gateway.Storage.Platform.{Platform}
use linux_mqtt_sn_gateway.Storage.Table.{Holds, save_row-Holds}
use linux_mqtt_sn_gateway.Persistent.State.{
  Persistent, ready, client_registry, parse_file_number_to_int,
}
use linux_mqtt_sn_gateway.Persistent.Scan.{find, find-some}
use linux_mqtt_sn_gateway.Persistent.Unique.{find-put_found, All-get_elem?}
use linux_mqtt_sn_gateway.Persistent.Clients.{
  has_client_id, loaded, opened, apply_transaction, start_client_transaction,
}
use linux_mqtt_sn_gateway.Persistent.Clients.Add.{start-eq}
use linux_mqtt_sn_gateway.Persistent.Attributes.{
  store_entry, set_client_await_message, set_timeout, set_client_state, set_client_await_msg_id,
  get_client_await_message_type, get_client_status, get_client_await_msg_id,
}

parse_cong :
    (e e' : Client)
    → e'.file_number ≡ e.file_number
    → parse_file_number_to_int e' ≡ parse_file_number_to_int e
unfolding parse_file_number_to_int
parse_cong e e' h = rw h

module _ {p : Platform} where
  -- A transaction runs for the client `id`, and `_entry_client` is the row that its file number names,
  -- the first row of that id.
  pub record InSync (id : List ℕ) (s : Persistent p) (es : List Client) : Type 0 where
    pub is_ready : ready s ≡ true
    pub table : Holds p p.client_layout client_registry s.card es
    pub row :
        find (has_client_id id) es 0
        ≡ some (parse_file_number_to_int s.entry_client, s.entry_client)

  in_table :
      (id : List ℕ) (s : Persistent p) (es : List Client)
      → InSync id s es
      → (parse_file_number_to_int s.entry_client ≤ length es)
        × (has_client_id id s.entry_client ≡ true)
        × ClientFits p.address_size p.status_range p.message_range s.entry_client
  in_table id s es h =
      let (j, at, found, meets, lt) =
        find-some (has_client_id id) es 0 (parse_file_number_to_int s.entry_client) s.entry_client
          h.row in
      (
        omega arith,
        meets,
        All-get_elem? (ClientFits p.address_size p.status_range p.message_range) es j s.entry_client
            h.table.fit found,
      )

  -- Writing a changed entry that keeps its id and file number replaces its row and no other, and
  -- the entry in memory is still its row, the first of its id. The transaction runs for that
  -- client, whose entry in memory is its row.
  store_entry-InSync :
      (id : List ℕ) (e : Client) (s : Persistent p) (es : List Client)
      → InSync id s es
      → e.file_number ≡ s.entry_client.file_number
      → has_client_id id e ≡ true
      → ClientFits p.address_size p.status_range p.message_range e
      → InSync id (store_entry e s) (put es (parse_file_number_to_int s.entry_client) e)
  store_entry-InSync id e s es h same named fits =
      let (inside, old, old_fits) = in_table id s es h in
      let i = parse_file_number_to_int s.entry_client in
      let q = parse_cong s.entry_client e same in
      let found : find (has_client_id id) es 0 ≡ some (0 + i, s.entry_client) = rw zero-add h.row in
      rw h.is_ready (record {
        is_ready = h.is_ready;
        table =
            rw q
              (save_row-Holds p p.client_layout client_registry s.card es i e h.table fits inside);
        row = rw q (
            find-put_found has_client_id id es 0 i s.entry_client e found named
            ∙ ap (λ n. some (n, e)) (omega arith));
      })

  -- Applying the transaction and starting one for the same client loads the same entry, from its
  -- row. The transaction runs for the client, whose entry in memory is its row of a registry with
  -- fewer than 65536 rows, and the id has fewer than 24 bytes.
  pub restart-InSync :
      (id : List ℕ) (s : Persistent p) (es : List Client)
      → InSync id s es
      → length id < 24
      → length es < 65536
      → let again = start_client_transaction id (apply_transaction s).0 in
        InSync id again es × (again.entry_client ≡ s.entry_client)
  unfolding apply_transaction
  restart-InSync id s es h short k =
      let t = (apply_transaction s).0 in
      let starts : start_client_transaction id t
          ≡ loaded (some (parse_file_number_to_int s.entry_client, s.entry_client)) (opened t) =
        start-eq id t es h.table k refl short ∙ ap (λ o. loaded o (opened t)) h.row in
      rw starts (record { is_ready = refl; table = h.table; row = h.row }, refl)

  abbrev pub reopen : List ℕ → Persistent p → Persistent p
  reopen id s = start_client_transaction id (apply_transaction s).0

  module _ (id : List ℕ) (s : Persistent p) (es : List Client) (h : InSync id s es)
      (short : length id < 24) (k : length es < 65535) where
    survives :
        (e : Client)
        → e.file_number ≡ s.entry_client.file_number
        → has_client_id id e ≡ true
        → ClientFits p.address_size p.status_range p.message_range e
        → (ready (reopen id (store_entry e s)) ≡ true)
          × ((reopen id (store_entry e s)).entry_client ≡ e)
    survives e same named fits =
        let i = parse_file_number_to_int s.entry_client in
        let stored = store_entry-InSync id e s es h same named fits in
        let (sync, loads) =
          restart-InSync id (store_entry e s) (put es i e) stored short
            (omega (arith, length-put es i e)) in
        (sync.is_ready, loads ∙ entry_stored e)
      where
        entry_stored : (x : Client) → (store_entry x s).entry_client ≡ x
        entry_stored x = rw h.is_ready

    -- A timeout, a status, an awaited message type and an awaited message id that are set, each
    -- within its type, are read back in a later transaction for the client. The transaction runs
    -- for the client `id`, whose entry in memory is its row of a registry with fewer than 65535
    -- rows.
    pub settings_survive :
        (t status msg_type msg_id : ℕ)
        → t < 2 ^ 32
        → status < p.status_range
        → msg_type < p.message_range
        → msg_id < 65536
        → ((reopen id (set_timeout t s)).entry_client.timeout ≡ t)
          × (get_client_status (reopen id (set_client_state status s)) ≡ status)
          × (get_client_await_message_type (reopen id (set_client_await_message msg_type s))
              ≡ msg_type)
          × (get_client_await_msg_id (reopen id (set_client_await_msg_id msg_id s)) ≡ msg_id)
    unfolding set_timeout set_client_state set_client_await_message set_client_await_msg_id
        get_client_status get_client_await_message_type get_client_await_msg_id
    settings_survive t status msg_type msg_id ht hs hm hi =
        let (inside, named, fits) = in_table id s es h in
        let e = s.entry_client in
        let timed = survives (record e { timeout = t }) refl named (assumption) in
        let stated = survives (record e { client_status = status }) refl named (assumption) in
        let waiting = survives (record e { await_message = msg_type }) refl named (assumption) in
        let numbered = survives (record e { await_message_id = msg_id }) refl named (assumption) in
        (
          ap (λ (c : Client). c.timeout) timed.1,
          rw stated.0 (ap (λ (c : Client). c.client_status) stated.1),
          rw waiting.0 (ap (λ (c : Client). c.await_message) waiting.1),
          rw numbered.0 (ap (λ (c : Client). c.await_message_id) numbered.1),
        )
