-- ===== src/Persistent/Clients/Add.antt =====
-- `add_client` of LinuxPersistent.cpp, and the transaction that loads the client again.
use native.Mathlib.Nat.{zero-add}
use linux_mqtt_sn_gateway.Base.{
  ◌||◌, ℕ, ◌+◌, ◌<◌, ◌≡◌, refl, ap, ◌∙◌, true, false, not, none, some, List, bytes_eq_iff, length,
  leb, arith,
}
use linux_mqtt_sn_gateway.Storage.Entries.{Client, Address}
use linux_mqtt_sn_gateway.Storage.Splice.{put, length-put}
use linux_mqtt_sn_gateway.Storage.Platform.{Platform}
use linux_mqtt_sn_gateway.Storage.Table.{Holds, save_row-Holds}
use linux_mqtt_sn_gateway.Persistent.State.{
  Persistent, active, client_registry, parse_file_number_to_int, client_file, Ending,
  registration_file, subscribe_file, will_file, publish_file,
}
use linux_mqtt_sn_gateway.Persistent.Scan.{find, find-none-All, find-put}
use linux_mqtt_sn_gateway.Persistent.Clients.{
  has_client_id, new_client, file_number_of, create_files, loaded, opened, add_at, add_client,
  apply_transaction, start_client_transaction, client_exist,
}
use linux_mqtt_sn_gateway.Persistent.Clients.FileNumber.{
  client_file-ne-registry, parse-file_number_of,
}
use linux_mqtt_sn_gateway.Persistent.Clients.Registry.{
  free_row, free_row-le, empty_entry-eq, IsClient, has_client_id-new, new_client-fits,
  registry_of-eq, id_scan-eq,
}

module _ {p : Platform} where
  -- Creating the files of a new client leaves the registry as it was.
  Holds-create_files :
      (e : Client) (n : ℕ) (c : p.Card) (es : List Client)
      → e.file_number ≡ file_number_of n
      → Holds p p.client_layout client_registry c es
      → Holds p p.client_layout client_registry (create_files p e c) es
  Holds-create_files e n c es same h = record {
    there =
        other publish_file (p.open_write (client_file e will_file) c3)
        ∙ other will_file c3
        ∙ other subscribe_file c1
        ∙ other registration_file c
        ∙ h.there;
    fit = h.fit;
  }
    where
      other :
          (x : Ending) (d : p.Card)
          → p.file (p.open_write (client_file e x) d) client_registry ≡ p.file d client_registry
      other x d =
          p.file-open_write_ne (client_file e x) client_registry d
            (client_file-ne-registry e n x same)

      c1 : p.Card
      c1 = p.open_write (client_file e registration_file) c

      c3 : p.Card
      c3 = p.open_write (client_file e subscribe_file) c1

  -- With no transaction running, a transaction for an id of fewer than 24 bytes loads the first
  -- row of that id in a registry with fewer than 65536 rows, or notes that there is none.
  pub start-eq :
      (id : List ℕ) (t : Persistent p) (rows : List Client)
      → Holds p p.client_layout client_registry t.card rows
      → length rows < 65536
      → t.transaction_started ≡ false
      → length id < 24
      → start_client_transaction id t ≡ loaded (find (has_client_id id) rows 0) (opened t)
  unfolding start_client_transaction
  start-eq id t rows h k idle short =
      let guard : (t.transaction_started || leb 24 (length id)) ≡ false = ground arith in
      rw (guard, id_scan-eq (has_client_id id) t rows h k)

  module _ (id : List ℕ) (a : Address) (duration : ℕ) (s : Persistent p) (es : List Client)
      (c : IsClient p id a duration) (h : Holds p p.client_layout client_registry s.card es)
      (k : length es < 65535) where
    passes :
        s.not_in_client_registry ≡ true
        → (not s.not_in_client_registry || leb 24 (length id)) ≡ false
    passes new = let q = c.short in ground arith

    add_client-eq :
        active s ≡ true
        → s.not_in_client_registry ≡ true
        → add_client id a duration s ≡ add_at id a duration (free_row es) s
    unfolding add_client
    add_client-eq act new =
        rw (act, passes new, registry_of-eq s es h, empty_entry-eq es 0 (omega arith), zero-add)

    -- add_client leaves a registry with a row for the client at the first free row, or at the end,
    -- and the other rows as they were. The arguments fit the struct, the transaction runs without
    -- error for an unregistered client, and the registry holds fewer than 65535 rows.
    pub add_client-rows :
        active s ≡ true
        → s.not_in_client_registry ≡ true
        → Holds p p.client_layout client_registry
            (add_client id a duration s).card
            (put es (free_row es) (new_client p id a duration (free_row es)))
    add_client-rows act new =
        let e = new_client p id a duration (free_row es) in
        rw (add_client-eq act new) (
          save_row-Holds p p.client_layout client_registry (create_files p e s.card) es
            (free_row es) e (Holds-create_files e (free_row es) s.card es refl h)
            (new_client-fits id a duration (free_row es) c) (free_row-le es))

    -- For an id that no row has: once the client is added and the transaction applied, with
    -- success, a new transaction for its id loads it, from the row that its file number names. The
    -- arguments fit the struct, the transaction runs without error for an unregistered client, and
    -- the registry holds fewer than 65535 rows.
    pub start-add_client :
        active s ≡ true
        → s.not_in_client_registry ≡ true
        → find (has_client_id id) es 0 ≡ none
        → let done = apply_transaction (add_client id a duration s) in
          let again = start_client_transaction id done.0 in
          (done.1 ≡ 1)
          × (client_exist again ≡ true)
          × (again.entry_client ≡ new_client p id a duration (free_row es))
          × (parse_file_number_to_int again.entry_client ≡ free_row es)
    unfolding apply_transaction start_client_transaction client_exist
    start-add_client act new fresh =
        let e = new_client p id a duration (free_row es) in
        let t = (apply_transaction (add_client id a duration s)).0 in
        let found : find (has_client_id id) (put es (free_row es) e) 0 ≡ some (0 + free_row es, e) =
          find-put (has_client_id id) es 0 (free_row es) e
            (find-none-All (has_client_id id) es 0 fresh)
            (has_client_id-new id id a duration (free_row es) c ∙ (bytes_eq_iff id id).1 refl)
            (free_row-le es) in
        let starts : start_client_transaction id t ≡ loaded (some (0 + free_row es, e)) (opened t) =
          start-eq id t (put es (free_row es) e) (add_client-rows act new)
            (omega (arith, length-put es (free_row es) e)) refl c.short
          ∙ ap (λ o. loaded o (opened t)) found in
        (
          rw (add_client-eq act new) (ground arith),
          ap client_exist starts,
          ap (λ (u : Persistent p). u.entry_client) starts,
          ap (λ (u : Persistent p). parse_file_number_to_int u.entry_client) starts
              ∙ parse-file_number_of e (free_row es) refl (omega (arith, free_row-le es)),
        )
