-- ===== src/Ble/Replies.antt =====
-- Replies of the gateway to a device of BLESocket.cpp, by the address of its messages.
use linux_mqtt_sn_gateway.Base.{
  ℕ, ◌≡◌, ◌∙◌, refl, ap, true, false, Option, none, some, List, [], ◌∷◌, ◌++◌, bytes_eq_iff, arith,
}
use linux_mqtt_sn_gateway.Ble.Mac.{get_mac_from_device_address}
use linux_mqtt_sn_gateway.Ble.Socket.{
  BleSocket, find_connection, erase_connection, is_living, send, send_to, add_ble_connection,
  inserted, remove_ble_connection,
}

find_connection-append :
    (mac : List ℕ) (c : ℕ) (es : List (List ℕ × ℕ))
    → find_connection mac es ≡ none
    → find_connection mac (es ++ (mac, c) ∷ []) ≡ some c
unfolding find_connection
find_connection-append mac c [] e = rw ((bytes_eq_iff mac mac).1 refl) refl
find_connection-append mac c (x ∷ xs) e = ground (arith, find_connection-append mac c xs)

erase_connection-append :
    (mac : List ℕ) (c : ℕ) (es : List (List ℕ × ℕ))
    → find_connection mac es ≡ none
    → erase_connection mac (es ++ (mac, c) ∷ []) ≡ es
unfolding find_connection erase_connection
erase_connection-append mac c [] e = rw ((bytes_eq_iff mac mac).1 refl) refl
erase_connection-append mac c (x ∷ xs) e = ground (arith, erase_connection-append mac c xs)

send-found :
    (address bytes : List ℕ) (o : Option ℕ) (s : BleSocket)
    → find_connection (get_mac_from_device_address address) s.ble_connections ≡ o
    → send address bytes s ≡ (true, send_to (get_mac_from_device_address address) bytes o s)
unfolding send
send-found address bytes o s e =
    ap (λ r. (true, send_to (get_mac_from_device_address address) bytes r s)) e

add_ble_connection-new :
    (mac : List ℕ) (c : ℕ) (s : BleSocket)
    → find_connection mac s.ble_connections ≡ none
    → add_ble_connection mac c s ≡ record s { ble_connections = s.ble_connections ++ (mac, c) ∷ [] }
unfolding add_ble_connection
add_ble_connection-new mac c s e =
    ap (λ o. record s { ble_connections = inserted mac c o s.ble_connections }) e

-- From addBLEConnection to removeBLEConnection of a connection that a shared pointer holds, `send` to
-- the address with the text of its MAC address goes to it; behind the removal everything is as it
-- was before, and `send` changes nothing. The map has no other entry of that MAC address.
pub send-add_ble_connection :
    (c : ℕ) (address bytes : List ℕ) (s : BleSocket)
    → find_connection (get_mac_from_device_address address) s.ble_connections ≡ none
    → is_living c s.living ≡ true
    → let mac = get_mac_from_device_address address in
      let added = add_ble_connection mac c s in
      (send address bytes added ≡ (
        true,
        record s {
          ble_connections = s.ble_connections ++ (mac, c) ∷ [];
          sent = s.sent ++ (c, bytes) ∷ [];
        },
      ))
      × (send address bytes (remove_ble_connection mac added) ≡ (true, s))
unfolding remove_ble_connection
send-add_ble_connection c address bytes s e l =
    let mac = get_mac_from_device_address address in
    let s' : BleSocket = record s { ble_connections = s.ble_connections ++ (mac, c) ∷ [] } in
    let added = add_ble_connection-new mac c s e in
    (
      ap (send address bytes) added
          ∙ send-found address bytes (some c) s' (find_connection-append mac c s.ble_connections e)
          ∙ rw l refl,
      ap (λ t. send address bytes (remove_ble_connection mac t)) added
          ∙ ap (λ es. send address bytes (record s { ble_connections = es }))
              (erase_connection-append mac c s.ble_connections e)
          ∙ send-found address bytes none s e,
    )

-- `insert` keeps an entry whose connection has ended without removing it: `send` to a new connection
-- of the device returns true, sends nothing and erases the entry.
pub send-stale :
    (old c : ℕ) (address bytes : List ℕ) (s : BleSocket)
    → find_connection (get_mac_from_device_address address) s.ble_connections ≡ some old
    → is_living old s.living ≡ false
    → let mac = get_mac_from_device_address address in
      send address bytes (add_ble_connection mac c s)
      ≡ (true, record s { ble_connections = erase_connection mac s.ble_connections })
unfolding add_ble_connection
send-stale old c address bytes s e l =
    let mac = get_mac_from_device_address address in
    ap (λ o. send address bytes (record s { ble_connections = inserted mac c o s.ble_connections }))
      e
    ∙ send-found address bytes (some old) s e
    ∙ rw l refl
