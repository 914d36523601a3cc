-- ===== src/Tests/DeleteRuns.antt =====
-- Deleting the only client of a registry with two cleared rows, which has an empty subscription
-- file.
use linux_mqtt_sn_gateway.Base.{
  ℕ, ◌≡◌, refl, ◌∙◌, false, none, some, List, [], ◌∷◌, bytes_eq, c_str, c_str-zeros, overlay, arith,
}
use linux_mqtt_sn_gateway.Storage.Entries.{Client}
use linux_mqtt_sn_gateway.Storage.Splice.{put}
use linux_mqtt_sn_gateway.Storage.Table.{Holds}
use linux_mqtt_sn_gateway.Persistent.State.{
  Persistent, zero_client, client_registry, client_file, Ending, subscribe_file,
}
use linux_mqtt_sn_gateway.Persistent.Unique.{Unique}
use linux_mqtt_sn_gateway.Persistent.Scan.{find}
use linux_mqtt_sn_gateway.Persistent.Subscriptions.{get_client_subscription_count}
use linux_mqtt_sn_gateway.Persistent.Subscriptions.Remove.{get_client_subscription_count-eq}
use linux_mqtt_sn_gateway.Persistent.Clients.{
  has_client_id, delete_client, apply_transaction, start_client_transaction, client_exist,
}
use linux_mqtt_sn_gateway.Persistent.Clients.FileNumber.{client_file-ne-registry}
use linux_mqtt_sn_gateway.Persistent.Clients.Registry.{new_client-fits}
use linux_mqtt_sn_gateway.Persistent.Clients.Delete.{
  is_client, zero_client-fits, delete_client-gone,
}
use linux_mqtt_sn_gateway.Tests.Board.{board, set_file, set_file_self, set_file_ne}
use linux_mqtt_sn_gateway.Tests.Samples.{
  ann, home, IsClient-ann, ann_entry, ann_on, card_with, Holds-card_with,
}

abbrev registry : List Client
registry = ann_entry ∷ zero_client board ∷ zero_client board ∷ []

abbrev state : Persistent board
state = ann_on (
    set_file (client_file ann_entry subscribe_file) (some [])
      (card_with board.client_layout client_registry registry))

state-Holds : Holds board board.client_layout client_registry state.card registry
state-Holds =
    let h = Holds-card_with board.client_layout client_registry registry (
      new_client-fits {p = board} ann home 60 0 IsClient-ann,
      (zero_client-fits board, (zero_client-fits board, tt)),
    ) in
    record {
      there =
          set_file_ne (client_file ann_entry subscribe_file) client_registry (some [])
            (card_with board.client_layout client_registry registry)
            (client_file-ne-registry ann_entry 0 subscribe_file refl)
          ∙ h.there;
      fit = h.fit;
    }

no_subscriptions : get_client_subscription_count state ≡ 0
no_subscriptions =
    get_client_subscription_count-eq state []
      (record {
        is_ready = refl;
        table = record {
          there =
              set_file_self (client_file ann_entry subscribe_file) (some [])
                (card_with board.client_layout client_registry registry);
          fit = tt;
        };
      })
      (omega arith)

is_client-zero : (m : List ℕ) → is_client m (zero_client board) ≡ false
unfolding bytes_eq
is_client-zero [] = refl
is_client-zero (b ∷ m) = rw (c_str-zeros 24) (ground arith)

registry-Unique : Unique is_client registry
registry-Unique = (
  λ m k. (is_client-zero m, (is_client-zero m, tt)),
  (λ m k. (is_client-zero m, tt), (λ m k. tt, tt)),
)

ann_row : find (has_client_id ann) registry 0 ≡ some (0, ann_entry)
unfolding c_str bytes_eq overlay
ann_row = refl

delete_client-gone_example :
    Holds board board.client_layout client_registry
      (delete_client ann state).card
      (put registry 0 (zero_client board))
    × ((x : Ending) → board.file (delete_client ann state).card (client_file ann_entry x) ≡ none)
    × (client_exist (start_client_transaction ann (apply_transaction (delete_client ann state)).0)
        ≡ false)
delete_client-gone_example =
    delete_client-gone ann 0 0 ann_entry state registry refl state-Holds registry-Unique ann_row
      refl no_subscriptions (omega arith) (omega arith) (omega arith)
