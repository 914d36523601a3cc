-- ===== src/Persistent/Registrations/Names.antt =====
-- Topic ids and names: add_client_registration and get_topic_name of LinuxPersistent.cpp.
use native.Mathlib.Nat.{zero-add}
use linux_mqtt_sn_gateway.Base.{
  ℕ, zero, suc, ◌+◌, ◌^◌, ◌<◌, ◌≡◌, refl, ap, ◌∙◌, true, false, not, ◌&&◌, Option, none, some, List,
  [], ◌∷◌, ◌++◌, map, c_str, length, ltb, get_elem?, All, All-overlay, length-overlay, c_str-strcpy,
  All-IsByte_of_text, ◌==◌, arith,
}
use linux_mqtt_sn_gateway.Storage.Entries.{
  Registration, RegistrationFits, zero_registration, zeros-IsArray,
}
use linux_mqtt_sn_gateway.Storage.Splice.{put, length-put}
use linux_mqtt_sn_gateway.Storage.Platform.{Platform}
use linux_mqtt_sn_gateway.Storage.Table.{Holds, whole, read_rows-Holds, save_row-Holds}
use linux_mqtt_sn_gateway.Persistent.State.{
  Persistent, active, ready, client_file, registration_file,
}
use linux_mqtt_sn_gateway.Persistent.Scan.{
  find, find-some, find-put, slot_result, scan_slot-eq, scan-eq-find, last_empty,
}
use linux_mqtt_sn_gateway.Persistent.Unique.{find-ext}
use linux_mqtt_sn_gateway.Persistent.Subscriptions.Table.{IsTopic}
use linux_mqtt_sn_gateway.Persistent.Registrations.{
  is_vacant, has_id, is_registration_of, new_registration, registrations_of, register,
  add_client_registration, get_topic_name,
}

-- Row i has the topic id i + 1, counted from `n`.
abbrev pub IsNumbered : List Registration → ℕ → Type 0
IsNumbered [] n = Unit
IsNumbered (e ∷ es) n = (e.topic_id ≡ suc n) × IsNumbered es (suc n)

abbrev pub new_row : List ℕ → ℕ → Registration
new_row name n = new_registration name n zero_registration

none_vacant :
    (es : List Registration) (n : ℕ) (first : Option ℕ)
    → IsNumbered es n
    → last_empty is_vacant es first n ≡ first
none_vacant [] n first h = refl
none_vacant (e ∷ es) n first h =
    let own = h.0 in
    let kept : is_vacant e ≡ false = ground arith in rw kept (none_vacant es (suc n) first h.1)

no_later_id :
    (es : List Registration) (n id : ℕ)
    → IsNumbered es n
    → n + length es < id
    → All (λ e. has_id id e ≡ false) es
no_later_id [] n id h k = tt
no_later_id (e ∷ es) n id h k =
    let own = h.0 in (ground arith, no_later_id es (suc n) id h.1 (omega arith))

id_of_row :
    (es : List Registration) (n i : ℕ) (e : Registration)
    → IsNumbered es n
    → get_elem? es i ≡ some e
    → e.topic_id ≡ suc (n + i)
id_of_row [] n i e h g = absurd (ground arith)
id_of_row (x ∷ es) n zero e h g =
    let same : x ≡ e = ground arith in let own : e.topic_id ≡ suc n = rw same at h.0 in omega arith
id_of_row (x ∷ es) n (suc i) e h g = id_of_row es (suc n) i e h.1 g ∙ omega arith

IsNumbered-put :
    (es : List Registration) (n : ℕ) (e : Registration)
    → IsNumbered es n
    → e.topic_id ≡ suc (n + length es)
    → IsNumbered (put es (length es) e) n
IsNumbered-put [] n e h k = (k ∙ omega arith, tt)
IsNumbered-put (x ∷ es) n e h k = (h.0, IsNumbered-put es (suc n) e h.1 (k ∙ omega arith))

hides_none :
    (name : List ℕ) (e : Registration)
    → (not (is_vacant e) && is_registration_of name e) ≡ is_registration_of name e
hides_none name e = ground arith

c_str-new_row : (name : List ℕ) (n : ℕ) → IsTopic name → c_str (new_row name n).topic_name ≡ name
c_str-new_row name n t =
    c_str-strcpy zero_registration.topic_name name t.text
      (let z = (zeros-IsArray 255).0 in let h = t.short in omega arith)

has_id-new_row : (name : List ℕ) (n : ℕ) → IsTopic name → has_id n (new_row name n) ≡ true
has_id-new_row name n t = rw (c_str-new_row name n t) (let h = t.short in ground arith)

pub new_row-fits :
    (name : List ℕ) (n : ℕ) → IsTopic name → n < 65536 → RegistrationFits (new_row name n)
new_row-fits name n t h = record {
  id_fits = h;
  name_fits = (
    length-overlay zero_registration.topic_name (name ++ 0 ∷ []) ∙ (zeros-IsArray 255).0,
    All-overlay zero_registration.topic_name (name ++ 0 ∷ []) (zeros-IsArray 255).1
        (All-IsByte_of_text name t.text),
  );
}

module _ {p : Platform} where
  -- A transaction runs for a registered client, whose registration file holds the rows `es`.
  pub record HasNames (s : Persistent p) (es : List Registration) : Type 0 where
    pub is_ready : ready s ≡ true
    pub table :
        Holds p p.registration_layout (client_file s.entry_client registration_file) s.card es
    pub numbered : IsNumbered es 0

  registrations_of-eq :
      (s : Persistent p) (es : List Registration)
      → HasNames s es
      → registrations_of s ≡ map whole es
  registrations_of-eq s es h =
      read_rows-Holds p p.registration_layout (client_file s.entry_client registration_file) s.card
        es h.table

  register-eq :
      (name : List ℕ) (s : Persistent p) (es : List Registration)
      → HasNames s es
      → length name < 256
      → length es < 65535
      → add_client_registration name s
        ≡ register name (slot_result (find (is_registration_of name) es 0) none (suc (length es))) s
  unfolding add_client_registration
  register-eq name s es h short k =
      let passes : ltb 255 (length name) ≡ false = ground arith in
      rw (
        h.is_ready,
        passes,
        registrations_of-eq s es h,
        scan_slot-eq true is_vacant (is_registration_of name) es none 0 (omega arith),
        find-ext (λ e. not (is_vacant e) && is_registration_of name e) (is_registration_of name) es
            0 (hides_none name),
        none_vacant es 0 none h.numbered,
        zero-add,
      )

  -- Registering a valid name that no row has appends a row for it, which gets the next id, so that
  -- every row still has the id one more than its index. A transaction runs for a registered
  -- client, whose file holds fewer than 65535 rows, each with the id one more than its index.
  pub add_client_registration-HasNames :
      (name : List ℕ) (s : Persistent p) (es : List Registration)
      → HasNames s es
      → IsTopic name
      → length es < 65535
      → find (is_registration_of name) es 0 ≡ none
      → HasNames
          (add_client_registration name s).0
          (put es (length es) (new_row name (suc (length es))))
        × ((add_client_registration name s).1 ≡ some (suc (length es)))
  add_client_registration-HasNames name s es h t k fresh =
      rw (register-eq name s es h (let q = t.short in omega arith) k, fresh)
        (
          record {
            is_ready = h.is_ready;
            table =
                save_row-Holds p p.registration_layout
                  (client_file s.entry_client registration_file) s.card es (length es)
                  (new_row name (suc (length es))) h.table
                  (new_row-fits name (suc (length es)) t (omega arith)) (omega arith);
            numbered =
                IsNumbered-put es 0 (new_row name (suc (length es))) h.numbered (omega arith);
          },
          refl,
        )

  get_topic_name-row :
      (id i : ℕ) (e : Registration) (s : Persistent p) (es : List Registration)
      → HasNames s es
      → 0 < id
      → length es < 65537
      → find (has_id id) es 0 ≡ some (i, e)
      → (get_topic_name id s).1 ≡ some (c_str e.topic_name)
  unfolding get_topic_name
  get_topic_name-row id i e s es h pos k found =
      let busy : active s ≡ true = let r = h.is_ready in ground arith in
      let nonzero : (id == 0) ≡ false = ground arith in
      rw (
        busy,
        nonzero,
        registrations_of-eq s es h,
        scan-eq-find (2 ^ 32) (has_id id) es 0 (omega arith),
        found,
      )

  -- A valid name that no row has gets the id one more than the number of rows, and get_topic_name
  -- of that id gives the name. A transaction runs for a registered client, whose file holds fewer
  -- than 65535 rows, each with the id one more than its index.
  pub get_topic_name-add_client_registration :
      (name : List ℕ) (s : Persistent p) (es : List Registration)
      → HasNames s es
      → IsTopic name
      → length es < 65535
      → find (is_registration_of name) es 0 ≡ none
      → let (t, id) = add_client_registration name s in
        (id ≡ some (suc (length es))) × ((get_topic_name (suc (length es)) t).1 ≡ some name)
  get_topic_name-add_client_registration name s es h t k fresh =
      let new = suc (length es) in
      let (later, id) = add_client_registration-HasNames name s es h t k fresh in
      (
        id,
        get_topic_name-row new (0 + length es) (new_row name new) (add_client_registration name s).0
              (put es (length es) (new_row name new)) later (omega arith)
              (omega (arith, length-put es (length es) (new_row name new)))
              (find-put (has_id new) es 0 (length es) (new_row name new)
                (no_later_id es 0 new h.numbered (omega arith)) (has_id-new_row name new t)
                (omega arith))
            ∙ ap some (c_str-new_row name new t),
      )

  -- Registering a name of fewer than 256 bytes that a row has gives the id of the first such row,
  -- one more than its index, and writes nothing to the card. A transaction runs for a registered
  -- client, whose file holds fewer than 65535 rows, each with the id one more than its index.
  pub add_client_registration-known :
      (name : List ℕ) (i : ℕ) (e : Registration) (s : Persistent p) (es : List Registration)
      → HasNames s es
      → length name < 256
      → length es < 65535
      → find (is_registration_of name) es 0 ≡ some (i, e)
      → ((add_client_registration name s).1 ≡ some (suc i))
        × ((add_client_registration name s).0.card ≡ s.card)
  add_client_registration-known name i e s es h short k found =
      let (j, at, row, meets, lt) = find-some (is_registration_of name) es 0 i e found in
      let own : e.topic_id ≡ suc i = id_of_row es 0 j e h.numbered row ∙ omega arith in
      rw (register-eq name s es h short k, found) (ap some own, refl)
