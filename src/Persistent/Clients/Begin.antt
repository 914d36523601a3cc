-- ===== src/Persistent/Clients/Begin.antt =====
-- `begin` of LinuxPersistent.cpp on a card that already holds a registry.
use linux_mqtt_sn_gateway.Base.{
  ◌≡◌, ◌≢◌, refl, ap, sym, ◌∙◌, true, false, some, List, [], length, arith,
}
use linux_mqtt_sn_gateway.Storage.Entries.{Client}
use linux_mqtt_sn_gateway.Storage.Platform.{Platform, content}
use linux_mqtt_sn_gateway.Storage.Table.{Holds, image}
use linux_mqtt_sn_gateway.Persistent.State.{Persistent, client_registry, mqtt_sub}
use linux_mqtt_sn_gateway.Persistent.Clients.{begin}

mqtt_sub-ne-client_registry : mqtt_sub ≢ client_registry
mqtt_sub-ne-client_registry h = let n = ap length h in omega arith

client_registry-ne-mqtt_sub : client_registry ≢ mqtt_sub
client_registry-ne-mqtt_sub h = mqtt_sub-ne-client_registry (sym h)

module _ {p : Platform} where
  -- begin, with a core and a logger, succeeds with no transaction running: a registry on the card
  -- is kept with its rows, and the counts of the topics start from an empty file.
  pub begin-Holds :
      (s : Persistent p) (es : List Client)
      → Holds p p.client_layout client_registry s.card es
      → ((begin true true s).1 ≡ true)
        × ((begin true true s).0.transaction_started ≡ false)
        × Holds p p.client_layout client_registry (begin true true s).0.card es
        × Holds p p.global_layout mqtt_sub (begin true true s).0.card []
  unfolding begin
  begin-Holds s es h =
      let c1 = p.remove mqtt_sub s.card in
      let c2 = p.open_write client_registry c1 in
      let kept : p.file (p.open_write mqtt_sub c2) client_registry
          ≡ some (image p.client_layout es) =
        p.file-open_write_ne mqtt_sub client_registry c2 mqtt_sub-ne-client_registry
        ∙ p.file-open_write_self client_registry c1
        ∙ ap (λ o. some (content o))
            (p.file-remove_ne mqtt_sub client_registry s.card mqtt_sub-ne-client_registry
              ∙ h.there) in
      let emptied : p.file (p.open_write mqtt_sub c2) mqtt_sub ≡ some [] =
        p.file-open_write_self mqtt_sub c2
        ∙ ap (λ o. some (content o))
            (p.file-open_write_ne client_registry mqtt_sub c1 client_registry-ne-mqtt_sub
              ∙ p.file-remove_self mqtt_sub s.card) in
      (refl, refl, record { there = kept; fit = h.fit }, record { there = emptied; fit = tt })
