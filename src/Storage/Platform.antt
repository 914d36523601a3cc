-- ===== src/Storage/Platform.antt =====
-- What the gateway takes from outside the repository: the SD library of the Arduino abstraction, the
-- compiler's struct layouts, and constants of the core library.
use linux_mqtt_sn_gateway.Base.{ℕ, ◌<◌, ◌≤◌, ◌≡◌, ◌≢◌, List, Option, none, some, length, take, drop}
use linux_mqtt_sn_gateway.Storage.Entries.{
  ClientFits, GlobalFits, WillFits, SubscriptionFits, RegistrationFits, PublishFits,
}
use linux_mqtt_sn_gateway.Storage.Splice.{splice}

-- The layout of a struct: `sizeof`, the bytes of a value, the value of `sizeof` bytes. Copying a
-- value to bytes and back gives the value, for a value that the type holds.
pub record Layout {E : Type 0} (Fits : E → Type 0) : Type 0 where
  pub size : ℕ
  pub encode : E → List ℕ
  pub decode : List ℕ → E
  pub size_pos : 0 < size
  pub length-encode : (e : E) → Fits e → length (encode e) ≡ size
  pub decode-encode : (e : E) → Fits e → decode (encode e) ≡ e

abbrev pub content : Option (List ℕ) → List ℕ
content none = List.[]
content (some bs) = bs

pub record Platform : Type 1 where
  -- The files of the card, by name; `none` where there is no such file.
  pub Card : Type 0
  pub file : Card → List ℕ → Option (List ℕ)
  -- `SD.remove`
  pub remove : List ℕ → Card → Card
  -- `SD.open(name, FILE_WRITE)`: a file that is missing is created, one that is there is kept.
  pub open_write : List ℕ → Card → Card
  -- `seek(off)` and `write(bytes)` on a file opened for writing.
  pub write_at : List ℕ → ℕ → List ℕ → Card → Card
  pub file-remove_self : (n : List ℕ) (c : Card) → file (remove n c) n ≡ none
  pub file-remove_ne : (n m : List ℕ) (c : Card) → n ≢ m → file (remove n c) m ≡ file c m
  pub file-open_write_self :
      (n : List ℕ) (c : Card) → file (open_write n c) n ≡ some (content (file c n))
  pub file-open_write_ne : (n m : List ℕ) (c : Card) → n ≢ m → file (open_write n c) m ≡ file c m
  pub file-write_at_self :
      (n : List ℕ) (off : ℕ) (bytes old : List ℕ) (c : Card)
      → file c n ≡ some old
      → off ≤ length old
      → file (write_at n off bytes c) n ≡ some (splice old off bytes)
  pub file-write_at_ne :
      (n m : List ℕ) (off : ℕ) (bytes : List ℕ) (c : Card)
      → n ≢ m
      → file (write_at n off bytes c) m ≡ file c m
  -- `SD.open(name, FILE_READ)`, `seek(off)` and `read` of at most so many bytes.
  pub read_at : List ℕ → ℕ → ℕ → Card → List ℕ
  pub read_at_lem :
      (n : List ℕ) (off size : ℕ) (c : Card)
      → off ≤ length (content (file c n))
      → read_at n off size c ≡ take size (drop off (content (file c n)))
  -- `sizeof(device_address)`, and the ranges of the enumerations of the core library.
  pub address_size : ℕ
  pub status_range : ℕ
  pub message_range : ℕ
  pub client_layout : Layout (ClientFits address_size status_range message_range)
  pub global_layout : Layout GlobalFits
  pub will_layout : Layout WillFits
  pub subscription_layout : Layout SubscriptionFits
  pub registration_layout : Layout RegistrationFits
  pub publish_layout : Layout PublishFits
  -- Enumerators of the core library.
  pub status_empty : ℕ
  pub status_active : ℕ
  pub status_lost : ℕ
  pub mqttsn_pingreq : ℕ
  pub active-lt-range : status_active < status_range
  pub pingreq-lt-range : mqttsn_pingreq < message_range
  pub active-ne-empty : status_active ≢ status_empty
