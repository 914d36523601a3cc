-- ===== src/Tests/Samples.antt =====
-- A client in a transaction, its card and its topics.
use linux_mqtt_sn_gateway.Base.{codes, ℕ, refl, true, false, none, some, List, [], ◌∷◌, All, arith}
use linux_mqtt_sn_gateway.Storage.Entries.{Client, zero_registration, Address}
use linux_mqtt_sn_gateway.Storage.Platform.{Layout}
use linux_mqtt_sn_gateway.Storage.Table.{Holds, image}
use linux_mqtt_sn_gateway.Persistent.State.{Persistent}
use linux_mqtt_sn_gateway.Persistent.Clients.{new_client}
use linux_mqtt_sn_gateway.Persistent.Clients.Registry.{IsClient}
use linux_mqtt_sn_gateway.Persistent.Subscriptions.Table.{IsTopic}
use linux_mqtt_sn_gateway.Tests.Board.{Files, board, set_file, set_file_self}

abbrev pub ann : List ℕ
ann = codes "ann"

abbrev pub bob : List ℕ
bob = codes "bob"

abbrev pub home : Address
home = 192 ∷ 168 ∷ 0 ∷ 7 ∷ 39 ∷ 16 ∷ []

abbrev pub door : List ℕ
door = codes "door"

abbrev pub lamp : List ℕ
lamp = codes "lamp"

pub IsTopic-door : IsTopic door
IsTopic-door = record { text = omega arith; not_empty = omega arith; short = omega arith }

pub IsTopic-lamp : IsTopic lamp
IsTopic-lamp = record { text = omega arith; not_empty = omega arith; short = omega arith }

pub IsClient-ann : IsClient board ann home 60
IsClient-ann = record {
  text = omega arith;
  not_empty = omega arith;
  short = omega arith;
  address = (refl, omega arith);
  duration_fits = omega arith;
}

pub IsClient-bob : IsClient board bob home 60
IsClient-bob = record {
  text = omega arith;
  not_empty = omega arith;
  short = omega arith;
  address = (refl, omega arith);
  duration_fits = omega arith;
}

-- The row of the client, the first of the registry.
abbrev pub ann_entry : Client
ann_entry = new_client board ann home 60 0

-- A transaction for the client of row 0, on a card.
abbrev pub ann_on : Files → Persistent board
ann_on c = record {
  card = c;
  entry_client = ann_entry;
  registration_entry = zero_registration;
  predefined_registration_entry = zero_registration;
  not_in_client_registry = false;
  transaction_started = true;
  error = false;
  mqttsn_online = true;
  mqtt_online = true;
}

-- A card with one file of structs.
abbrev pub card_with : {E : Type 0} {Fits : E → Type 0} → Layout Fits → List ℕ → List E → Files
card_with l n es = set_file n (some (image l es)) (λ _. none)

pub Holds-card_with :
    {E : Type 0} {Fits : E → Type 0} (l : Layout Fits) (n : List ℕ) (es : List E)
    → All Fits es
    → Holds board l n (card_with l n es) es
Holds-card_with l n es h = record {
  there = set_file_self n (some (image l es)) (λ _. none);
  fit = h;
}
