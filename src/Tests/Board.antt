-- ===== src/Tests/Board.antt =====
-- A concrete platform: a card is a function from names to files, addresses have six bytes.

use linux_mqtt_sn_gateway.Base.{
  ℕ, ◌≡◌, ◌≢◌, refl, ap, ◌∙◌, Option, none, some, List, bytes_eq, bytes_eq_iff, take, drop,
  if◌then◌else◌, Bool-cases, inl, inr, arith,
}
use linux_mqtt_sn_gateway.Storage.Splice.{splice}
use linux_mqtt_sn_gateway.Storage.Platform.{Platform, content}
use linux_mqtt_sn_gateway.Tests.Layouts.{
  client_layout, global_layout, will_layout, subscription_layout, registration_layout,
  publish_layout,
}

abbrev pub Files : Type 0
Files = List ℕ → Option (List ℕ)

abbrev pub set_file : List ℕ → Option (List ℕ) → Files → Files
set_file n o c m = if bytes_eq n m then o else c m

pub set_file_self : (n : List ℕ) (o : Option (List ℕ)) (c : Files) → set_file n o c n ≡ o
set_file_self n o c = let h = (bytes_eq_iff n n).1 refl in rw h refl

pub set_file_ne : (n m : List ℕ) (o : Option (List ℕ)) (c : Files) → n ≢ m → set_file n o c m ≡ c m
set_file_ne n m o c ne = elim (Bool-cases (bytes_eq n m)) [
  | inl e ↦ absurd (ne ((bytes_eq_iff n m).0 e))
  | inr e ↦ rw e refl
]

abbrev pub board : Platform
board = record {
  Card = Files;
  file = λ c n. c n;
  remove = λ n c. set_file n none c;
  open_write = λ n c. set_file n (some (content (c n))) c;
  write_at = λ n off bytes c. set_file n (some (splice (content (c n)) off bytes)) c;
  file-remove_self = λ n c. set_file_self n none c;
  file-remove_ne = λ n m c ne. set_file_ne n m none c ne;
  file-open_write_self = λ n c. set_file_self n (some (content (c n))) c;
  file-open_write_ne = λ n m c ne. set_file_ne n m (some (content (c n))) c ne;
  file-write_at_self = λ n off bytes old c there inside.
      set_file_self n (some (splice (content (c n)) off bytes)) c
      ∙ ap (λ o. some (splice (content o) off bytes)) there;
  file-write_at_ne =
      λ n m off bytes c ne. set_file_ne n m (some (splice (content (c n)) off bytes)) c ne;
  read_at = λ n off size c. take size (drop off (content (c n)));
  read_at_lem = λ n off size c inside. refl;
  address_size = 6;
  status_range = 8;
  message_range = 30;
  client_layout = client_layout;
  global_layout = global_layout;
  will_layout = will_layout;
  subscription_layout = subscription_layout;
  registration_layout = registration_layout;
  publish_layout = publish_layout;
  status_empty = 0;
  status_active = 1;
  status_lost = 4;
  mqttsn_pingreq = 22;
  active-lt-range = omega arith;
  pingreq-lt-range = omega arith;
  active-ne-empty = omega arith;
}
