-- ===== src/Persistent/Clients/Registry.antt =====
-- CLIENTS as a list of rows, and the scans of LinuxPersistent.cpp over it.
use linux_mqtt_sn_gateway.Base.{
  ℕ, suc, ◌+◌, ◌^◌, ◌≤◌, ◌<◌, ◌≡◌, ◌∙◌, Bool, true, Option, some, List, [], ◌∷◌, ◌++◌, map, c_str,
  strlen, replicate, bytes_eq, length, get_elem?, IsText, All-overlay, length-overlay, c_str-strcpy,
  All-IsByte_of_text, inc16, ◌==◌, if◌then◌else◌, Bool-cases, inl, inr, arith,
}
use linux_mqtt_sn_gateway.Storage.Entries.{Client, ClientFits, Address, IsArray, zeros-IsArray}
use linux_mqtt_sn_gateway.Storage.Platform.{Platform}
use linux_mqtt_sn_gateway.Storage.Table.{Holds, whole, read_rows-Holds}
use linux_mqtt_sn_gateway.Persistent.State.{Persistent, client_registry, decimal}
use linux_mqtt_sn_gateway.Persistent.Scan.{find, scan, scan-eq-find}
use linux_mqtt_sn_gateway.Persistent.Clients.{has_client_id, empty_entry, new_client, registry_of}
use linux_mqtt_sn_gateway.Persistent.Clients.FileNumber.{decimal-IsText}

-- A row with no id is free.
abbrev pub has_no_id : Client → Bool
has_no_id e = strlen e.client_id == 0

-- The first free row, or the end.
abbrev pub free_row : List Client → ℕ
free_row [] = 0
free_row (e ∷ es) = let rest = suc (free_row es) in if has_no_id e then 0 else rest

pub empty_entry-eq :
    (es : List Client) (n : ℕ)
    → n + length es < 65536
    → empty_entry (map whole es) n ≡ n + free_row es
unfolding empty_entry
empty_entry-eq [] n h = omega arith
empty_entry-eq (e ∷ es) n h =
    let ih = empty_entry-eq es (inc16 n) (omega arith) in
    elim (Bool-cases (has_no_id e)) [ inl t ↦ rw t (omega arith) | inr t ↦ rw t (ih ∙ omega arith) ]

pub free_row-le : (es : List Client) → free_row es ≤ length es
free_row-le [] = omega arith
free_row-le (e ∷ es) = elim (Bool-cases (has_no_id e)) [
  | inl t ↦ rw t (omega arith)
  | inr t ↦ rw t (let ih = free_row-le es in omega arith)
]

pub free_row-has_no_id :
    (es : List Client) (e : Client) → get_elem? es (free_row es) ≡ some e → has_no_id e ≡ true
free_row-has_no_id [] e h = absurd (ground arith)
free_row-has_no_id (x ∷ es) e h = elim (Bool-cases (has_no_id x)) [
  | inl t ↦
      let k : ◌≡◌ {A = Option Client} (some x) (some e) = rw t at h in
      let same : x ≡ e = ground arith in rw (← same) t
  | inr t ↦ free_row-has_no_id es e (rw t at h)
]

-- The arguments of a registration that the structs can hold.
pub record IsClient (p : Platform) (id : List ℕ) (a : Address) (duration : ℕ) : Type 0 where
  pub text : IsText id
  pub not_empty : 0 < length id
  pub short : length id < 24
  pub address : IsArray p.address_size a
  pub duration_fits : duration < 2 ^ 32

module _ {p : Platform} where
  c_str-new_client :
      (id : List ℕ) (a : Address) (duration n : ℕ)
      → IsClient p id a duration
      → c_str (new_client p id a duration n).client_id ≡ id
  c_str-new_client id a duration n c =
      c_str-strcpy (replicate 24 0) id c.text
        (let h = c.short in let k = (zeros-IsArray 24).0 in omega arith)

  -- The new row has its id, and no other.
  pub has_client_id-new :
      (m id : List ℕ) (a : Address) (duration n : ℕ)
      → IsClient p id a duration
      → has_client_id m (new_client p id a duration n) ≡ bytes_eq id m
  has_client_id-new m id a duration n c =
      rw (c_str-new_client id a duration n c) (let h = c.short in ground arith)

  pub new_client-fits :
      (id : List ℕ) (a : Address) (duration n : ℕ)
      → IsClient p id a duration
      → ClientFits p.address_size p.status_range p.message_range (new_client p id a duration n)
  new_client-fits id a duration n c = record {
    id_fits = (
      length-overlay (replicate 24 0) (id ++ 0 ∷ []) ∙ (zeros-IsArray 24).0,
      All-overlay (replicate 24 0) (id ++ 0 ∷ []) (zeros-IsArray 24).1
          (All-IsByte_of_text id c.text),
    );
    number_fits = (
      length-overlay (replicate 9 0) (decimal 8 n ++ 0 ∷ []) ∙ (zeros-IsArray 9).0,
      All-overlay (replicate 9 0) (decimal 8 n ++ 0 ∷ []) (zeros-IsArray 9).1
          (All-IsByte_of_text (decimal 8 n) (decimal-IsText 8 n)),
    );
    address_fits = (
      length-overlay (replicate p.address_size 0) a ∙ (zeros-IsArray p.address_size).0,
      All-overlay (replicate p.address_size 0) a (zeros-IsArray p.address_size).1 c.address.1,
    );
    status_fits = p.active-lt-range;
    duration_fits = c.duration_fits;
    timeout_fits = omega arith;
    await_id_fits = omega arith;
    await_fits = p.pingreq-lt-range;
  }

  pub registry_of-eq :
      (s : Persistent p) (es : List Client)
      → Holds p p.client_layout client_registry s.card es
      → registry_of s ≡ map whole es
  registry_of-eq s es h = read_rows-Holds p p.client_layout client_registry s.card es h

  pub id_scan-eq :
      (test : Client → Bool) (s : Persistent p) (es : List Client)
      → Holds p p.client_layout client_registry s.card es
      → length es < 65536
      → scan (2 ^ 32) test (registry_of s) 0 ≡ find test es 0
  id_scan-eq test s es h k =
      rw (registry_of-eq s es h) (scan-eq-find (2 ^ 32) test es 0 (omega arith))
