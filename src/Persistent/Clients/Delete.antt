-- ===== src/Persistent/Clients/Delete.antt =====
-- `delete_client` of LinuxPersistent.cpp on a client with no subscriptions.
use native.Mathlib.Nat.{zero-add}
use linux_mqtt_sn_gateway.Base.{
  ℕ, ◌≤◌, ◌<◌, ◌≡◌, ◌≢◌, ◌*◌, refl, ap, sym, ◌∙◌, Bool, true, false, ◌||◌, ◌&&◌, Option, none, some,
  List, [], ◌∷◌, c_str-zeros, bytes_eq, length, leb, ltb, arith,
}
use linux_mqtt_sn_gateway.Storage.Entries.{Client, ClientFits, zeros-IsArray}
use linux_mqtt_sn_gateway.Storage.Splice.{put, length-put}
use linux_mqtt_sn_gateway.Storage.Platform.{Platform}
use linux_mqtt_sn_gateway.Storage.Table.{Holds, save_row-Holds, file-save_at_ne}
use linux_mqtt_sn_gateway.Persistent.State.{
  Persistent, zero_client, ready, client_registry, client_file, Ending, registration_file,
  subscribe_file, will_file, publish_file,
}
use linux_mqtt_sn_gateway.Persistent.Scan.{find, find-some}
use linux_mqtt_sn_gateway.Persistent.Unique.{Unique, find-ext, find-put_gone}
use linux_mqtt_sn_gateway.Persistent.Subscriptions.{get_client_subscription_count}
use linux_mqtt_sn_gateway.Persistent.Clients.{
  has_client_id, file_number_of, delete_file, delete_files, loaded, opened, erased, delete_client,
  apply_transaction, start_client_transaction, client_exist,
}
use linux_mqtt_sn_gateway.Persistent.Clients.FileNumber.{client_file-ne-registry}
use linux_mqtt_sn_gateway.Persistent.Clients.Registry.{id_scan-eq}
use linux_mqtt_sn_gateway.Persistent.Clients.Add.{start-eq}

-- A cleared row has no id.
has_client_id-zero :
    (p : Platform) (id : List ℕ) → 0 < length id → has_client_id id (zero_client p) ≡ false
unfolding bytes_eq
has_client_id-zero p [] h = absurd (omega arith)
has_client_id-zero p (b ∷ id) h = rw (c_str-zeros 24)

pub zero_client-fits :
    (p : Platform) → ClientFits p.address_size p.status_range p.message_range (zero_client p)
zero_client-fits p =
    let a = p.active-lt-range in
    let b = p.pingreq-lt-range in
    record {
      id_fits = zeros-IsArray 24;
      number_fits = zeros-IsArray 9;
      address_fits = zeros-IsArray p.address_size;
      status_fits = omega arith;
      duration_fits = omega arith;
      timeout_fits = omega arith;
      await_id_fits = omega arith;
      await_fits = omega arith;
    }

file-delete_file_ne :
    (p : Platform) (n m : List ℕ) (c : p.Card) → n ≢ m → p.file (delete_file p n c) m ≡ p.file c m
file-delete_file_ne p n m c ne = go (p.file c n) refl
  where
    go : (o : Option (List ℕ)) → p.file c n ≡ o → p.file (delete_file p n c) m ≡ p.file c m
    go none e = rw e refl
    go (some bs) e = rw e (p.file-remove_ne n m c ne)

file-delete_file_self :
    (p : Platform) (n : List ℕ) (c : p.Card) → p.file (delete_file p n c) n ≡ none
file-delete_file_self p n c = go (p.file c n) refl
  where
    go : (o : Option (List ℕ)) → p.file c n ≡ o → p.file (delete_file p n c) n ≡ none
    go none e = rw e e
    go (some bs) e = rw e (p.file-remove_self n c)

-- A file that is not there stays away.
file-delete_file_absent :
    (p : Platform) (n m : List ℕ) (c : p.Card)
    → p.file c m ≡ none
    → p.file (delete_file p n c) m ≡ none
file-delete_file_absent p n m c away = go (p.file c n) refl
  where
    go : (o : Option (List ℕ)) → p.file c n ≡ o → p.file (delete_file p n c) m ≡ none
    go none e = rw e away
    go (some bs) e =
        rw e (
          p.file-remove_ne n m c (λ same. absurd (clash (sym e ∙ ap (p.file c) same ∙ away)))
          ∙ away)
      where
        clash : ◌≡◌ {A = Option (List ℕ)} (some bs) none → ⊥
        clash h = cc

-- An id of at least one byte that the row has.
abbrev pub is_client : List ℕ → Client → Bool
is_client id e = ltb 0 (length id) && has_client_id id e

is_client-eq : (id : List ℕ) (e : Client) → 0 < length id → is_client id e ≡ has_client_id id e
is_client-eq id e h = let k : ltb 0 (length id) ≡ true = ground arith in rw k

-- No file of the client is left.
file-delete_files :
    (p : Platform) (e : Client) (c : p.Card) (x : Ending)
    → p.file (delete_files p e c) (client_file e x) ≡ none
file-delete_files p e c x = go x
  where
    c1 : p.Card
    c1 = delete_file p (client_file e registration_file) c

    c2 : p.Card
    c2 = delete_file p (client_file e subscribe_file) c1

    c3 : p.Card
    c3 = delete_file p (client_file e will_file) c2

    last : (m : List ℕ) → p.file c3 m ≡ none → p.file (delete_files p e c) m ≡ none
    last m h = file-delete_file_absent p (client_file e publish_file) m c3 h

    third : (m : List ℕ) → p.file c2 m ≡ none → p.file (delete_files p e c) m ≡ none
    third m h = last m (file-delete_file_absent p (client_file e will_file) m c2 h)

    go : (y : Ending) → p.file (delete_files p e c) (client_file e y) ≡ none
    go registration_file = third _ (
        file-delete_file_absent p (client_file e subscribe_file) _ c1
          (file-delete_file_self p (client_file e registration_file) c))
    go subscribe_file = third _ (file-delete_file_self p (client_file e subscribe_file) c1)
    go will_file = last _ (file-delete_file_self p (client_file e will_file) c2)
    go publish_file = file-delete_file_self p (client_file e publish_file) c3

module _ {p : Platform} where
  -- Deleting the files of a client leaves the registry as it was.
  Holds-delete_files :
      (e : Client) (n : ℕ) (c : p.Card) (es : List Client)
      → e.file_number ≡ file_number_of n
      → Holds p p.client_layout client_registry c es
      → Holds p p.client_layout client_registry (delete_files p e c) es
  Holds-delete_files e n c es same h = record {
    there =
        other publish_file c3
        ∙ other will_file c2
        ∙ other subscribe_file c1
        ∙ other registration_file c
        ∙ h.there;
    fit = h.fit;
  }
    where
      other :
          (x : Ending) (d : p.Card)
          → p.file (delete_file p (client_file e x) d) client_registry ≡ p.file d client_registry
      other x d =
          file-delete_file_ne p (client_file e x) client_registry d
            (client_file-ne-registry e n x same)

      c1 : p.Card
      c1 = delete_file p (client_file e registration_file) c

      c2 : p.Card
      c2 = delete_file p (client_file e subscribe_file) c1

      c3 : p.Card
      c3 = delete_file p (client_file e will_file) c2

  module _ (id : List ℕ) (i n : ℕ) (e : Client) (s : Persistent p) (es : List Client)
      (is_ready : ready s ≡ true) (table : Holds p p.client_layout client_registry s.card es)
      (one_row : Unique is_client es) (at : find (has_client_id id) es 0 ≡ some (i, e))
      (number : s.entry_client.file_number ≡ file_number_of n)
      (none_left : get_client_subscription_count s ≡ 0) (not_empty : 0 < length id)
      (short : length id < 24) (k : length es < 65535) where
    without_files : Persistent p
    without_files = record s { card = delete_files p s.entry_client s.card }

    inside : i ≤ length es
    inside = let (j, here, row, meets, lt) = find-some (has_client_id id) es 0 i e at in omega arith

    kept : Holds p p.client_layout client_registry without_files.card es
    unfolding without_files
    kept = Holds-delete_files s.entry_client n s.card es number table

    delete_client-eq : delete_client id s ≡ erased (some (i, e)) without_files
    unfolding delete_client without_files
    delete_client-eq =
        let passes : (leb 24 (length id) || ltb 0 (get_client_subscription_count s)) ≡ false =
          rw none_left (ground arith) in
        rw (is_ready, passes, id_scan-eq (has_client_id id) without_files es kept (omega arith), at)

    gone : (x : Ending) → p.file (delete_client id s).card (client_file s.entry_client x) ≡ none
    unfolding without_files
    gone x =
        let away = file-delete_files p s.entry_client s.card x in
        let other =
          file-save_at_ne p p.client_layout client_registry (client_file s.entry_client x)
            (i * p.client_layout.size) (zero_client p) without_files.card
            (λ h. client_file-ne-registry s.entry_client n x number (sym h)) in
        rw delete_client-eq (other ∙ away)

    missing : find (has_client_id id) (put es i (zero_client p)) 0 ≡ none
    missing =
        let same : (c : Client) → is_client id c ≡ has_client_id id c =
          λ c. is_client-eq id c not_empty in
        let cleared : is_client id (zero_client p) ≡ false =
          same (zero_client p) ∙ has_client_id-zero p id not_empty in
        sym (find-ext (is_client id) (has_client_id id) (put es i (zero_client p)) 0 same)
        ∙ find-put_gone is_client id es 0 i e (zero_client p) one_row
            (find-ext (is_client id) (has_client_id id) es 0 same ∙ rw zero-add at) cleared

    -- delete_client of a client with no subscriptions clears the row of `id` in the registry and
    -- keeps the others, and none of the four files of the client in the transaction is left; once
    -- the transaction is applied a new one for `id` does not find it. The transaction runs for a
    -- registered client with a written file number, the registry holds fewer than 65535 rows, one
    -- of them of the id, and no two of one id but for rows with no id, and the id has 1 to 23
    -- bytes.
    pub delete_client-gone :
        Holds p p.client_layout client_registry (delete_client id s).card (put es i (zero_client p))
        × ((x : Ending) → p.file (delete_client id s).card (client_file s.entry_client x) ≡ none)
        × (client_exist (start_client_transaction id (apply_transaction (delete_client id s)).0)
            ≡ false)
    unfolding apply_transaction client_exist
    delete_client-gone =
        let cleared =
          save_row-Holds p p.client_layout client_registry without_files.card es i (zero_client p)
            kept (zero_client-fits p) inside in
        let after : Holds p p.client_layout client_registry (delete_client id s).card
            (put es i (zero_client p)) =
          rw delete_client-eq cleared in
        let t = (apply_transaction (delete_client id s)).0 in
        let starts : start_client_transaction id t ≡ loaded none (opened t) =
          start-eq id t (put es i (zero_client p)) after
            (omega (arith, length-put es i (zero_client p))) refl short
          ∙ ap (λ o. loaded o (opened t)) missing in
        (after, gone, ap client_exist starts)
