-- ===== src/Tests/Layouts.antt =====
-- Concrete layouts of the structs of LinuxPersistent.h: numbers in little-endian bytes, then the
-- arrays.
use linux_mqtt_sn_gateway.Base.{
  ℕ, ◌+◌, ◌*◌, ◌/◌, ◌%◌, ◌<◌, ◌≡◌, refl, Bool, true, false, List, ◌∷◌, ◌++◌, length, take, drop,
  length-append, take-length_append, drop-length_append, ◌==◌, arith,
}
use linux_mqtt_sn_gateway.Storage.Entries.{
  Client, GlobalSubscription, Will, Subscription, Registration, Publish, ClientFits, GlobalFits,
  WillFits, SubscriptionFits, RegistrationFits, PublishFits, zero_global, zero_will,
  zero_subscription, zero_registration, zero_publish,
}
use linux_mqtt_sn_gateway.Storage.Platform.{Layout}

abbrev pub bit : Bool → ℕ
bit true = 1
bit false = 0

abbrev pub is_set : ℕ → Bool
is_set b = b == 1

pub is_set-bit : (b : Bool) → is_set (bit b) ≡ b
is_set-bit true = refl
is_set-bit false = refl

pub word16 : (n : ℕ) → n < 65536 → n % 256 + 256 * (n / 256) ≡ n
word16 n h = omega arith

pub word32 :
    (n : ℕ)
    → n % 256 + 256 * (n / 256 % 256) + 65536 * (n / 65536 % 256) + 16777216 * (n / 16777216) ≡ n
word32 n = omega arith

pub front : (n : ℕ) (xs ys : List ℕ) → length xs ≡ n → take n (xs ++ ys) ≡ xs
front n xs ys h = rw (← h) (take-length_append xs ys)

pub back : (n : ℕ) (xs ys : List ℕ) → length xs ≡ n → drop n (xs ++ ys) ≡ ys
back n xs ys h = rw (← h) (drop-length_append xs ys)

abbrev pub encode_subscription : Subscription → List ℕ
encode_subscription e = e.topic_id % 256 ∷ e.topic_id / 256 ∷ e.qos ∷ e.topic_name

abbrev pub decode_subscription : List ℕ → Subscription
decode_subscription (a ∷ b ∷ q ∷ name) = record {
  topic_id = a + 256 * b;
  qos = q;
  topic_name = name;
}
decode_subscription _ = zero_subscription

abbrev pub subscription_layout : Layout SubscriptionFits
subscription_layout = record {
  size = 258;
  encode = encode_subscription;
  decode = decode_subscription;
  size_pos = omega arith;
  length-encode = λ e h. let n = h.name_fits.0 in omega arith;
  decode-encode = λ e h. rw (word16 e.topic_id h.id_fits) refl;
}

abbrev pub encode_global : GlobalSubscription → List ℕ
encode_global e =
    let n = e.client_subscription_count in
    n % 256 ∷ n / 256 % 256 ∷ n / 65536 % 256 ∷ n / 16777216 ∷ e.topic_name

abbrev pub decode_global : List ℕ → GlobalSubscription
decode_global (a ∷ b ∷ c ∷ d ∷ name) = record {
  client_subscription_count = a + 256 * b + 65536 * c + 16777216 * d;
  topic_name = name;
}
decode_global _ = zero_global

abbrev pub global_layout : Layout GlobalFits
global_layout = record {
  size = 259;
  encode = encode_global;
  decode = decode_global;
  size_pos = omega arith;
  length-encode = λ e h. let n = h.name_fits.0 in omega arith;
  decode-encode = λ e h. rw (word32 e.client_subscription_count) refl;
}

abbrev pub encode_registration : Registration → List ℕ
encode_registration e = e.topic_id % 256 ∷ e.topic_id / 256 ∷ bit e.known ∷ e.topic_name

abbrev pub decode_registration : List ℕ → Registration
decode_registration (a ∷ b ∷ k ∷ name) = record {
  topic_id = a + 256 * b;
  topic_name = name;
  known = is_set k;
}
decode_registration _ = zero_registration

abbrev pub registration_layout : Layout RegistrationFits
registration_layout = record {
  size = 258;
  encode = encode_registration;
  decode = decode_registration;
  size_pos = omega arith;
  length-encode = λ e h. let n = h.name_fits.0 in omega arith;
  decode-encode = λ e h. rw (word16 e.topic_id h.id_fits, is_set-bit e.known) refl;
}

abbrev pub encode_will : Will → List ℕ
encode_will e = e.willmsg_length ∷ e.qos ∷ bit e.retain ∷ (e.willtopic ++ e.willmsg)

abbrev pub decode_will : List ℕ → Will
decode_will (n ∷ q ∷ r ∷ bs) = record {
  willtopic = take 255 bs;
  willmsg = drop 255 bs;
  willmsg_length = n;
  qos = q;
  retain = is_set r;
}
decode_will _ = zero_will

abbrev pub will_layout : Layout WillFits
will_layout = record {
  size = 513;
  encode = encode_will;
  decode = decode_will;
  size_pos = omega arith;
  length-encode = λ e h.
      let n = h.topic_fits.0 in
      let m = h.msg_fits.0 in omega (arith, length-append e.willtopic e.willmsg);
  decode-encode = λ e h.
      rw
        (
          front 255 e.willtopic e.willmsg h.topic_fits.0,
          back 255 e.willtopic e.willmsg h.topic_fits.0,
          is_set-bit e.retain,
        )
        refl;
}

abbrev pub encode_publish : Publish → List ℕ
encode_publish e =
    let t = e.retransmition_timeout in
    e.publish_id % 256
    ∷ e.publish_id / 256
    ∷ e.msg_id % 256
    ∷ e.msg_id / 256
    ∷ e.topic_id % 256
    ∷ e.topic_id / 256
    ∷ t % 256
    ∷ t / 256 % 256
    ∷ t / 65536 % 256
    ∷ t / 16777216
    ∷ e.msg_length
    ∷ e.qos
    ∷ bit e.retain
    ∷ bit e.dup
    ∷ e.msg

abbrev pub decode_publish : List ℕ → Publish
decode_publish (a ∷ b ∷ c ∷ d ∷ f ∷ g ∷ h ∷ i ∷ j ∷ k ∷ n ∷ q ∷ r ∷ u ∷ bs) = record {
  msg = bs;
  msg_length = n;
  topic_id = f + 256 * g;
  qos = q;
  retain = is_set r;
  dup = is_set u;
  msg_id = c + 256 * d;
  publish_id = a + 256 * b;
  retransmition_timeout = h + 256 * i + 65536 * j + 16777216 * k;
}
decode_publish _ = zero_publish

abbrev pub publish_layout : Layout PublishFits
publish_layout = record {
  size = 269;
  encode = encode_publish;
  decode = decode_publish;
  size_pos = omega arith;
  length-encode = λ e h. let n = h.msg_fits.0 in omega arith;
  decode-encode = λ e h.
      rw
        (
          word16 e.publish_id h.publish_id_fits,
          word16 e.msg_id h.msg_id_fits,
          word16 e.topic_id h.id_fits,
          word32 e.retransmition_timeout,
          is_set-bit e.retain,
          is_set-bit e.dup,
        )
        refl;
}

-- An address of six bytes; eight states, and thirty message types.
abbrev pub encode_client : Client → List ℕ
encode_client e =
    let d = e.duration in
    let t = e.timeout in
    d % 256
    ∷ d / 256 % 256
    ∷ d / 65536 % 256
    ∷ d / 16777216
    ∷ t % 256
    ∷ t / 256 % 256
    ∷ t / 65536 % 256
    ∷ t / 16777216
    ∷ e.await_message_id % 256
    ∷ e.await_message_id / 256
    ∷ e.client_status
    ∷ e.await_message
    ∷ (e.client_id ++ (e.file_number ++ e.client_address))

abbrev pub decode_client : List ℕ → Client
decode_client (a ∷ b ∷ c ∷ d ∷ f ∷ g ∷ h ∷ i ∷ j ∷ k ∷ s ∷ m ∷ bs) = record {
  client_id = take 24 bs;
  file_number = take 9 (drop 24 bs);
  client_address = drop 9 (drop 24 bs);
  client_status = s;
  duration = a + 256 * b + 65536 * c + 16777216 * d;
  timeout = f + 256 * g + 65536 * h + 16777216 * i;
  await_message_id = j + 256 * k;
  await_message = m;
}
decode_client bs = record {
  client_id = bs;
  file_number = bs;
  client_address = bs;
  client_status = 0;
  duration = 0;
  timeout = 0;
  await_message_id = 0;
  await_message = 0;
}

abbrev pub client_layout : Layout (ClientFits 6 8 30)
client_layout = record {
  size = 51;
  encode = encode_client;
  decode = decode_client;
  size_pos = omega arith;
  length-encode = λ e h.
      let n = h.id_fits.0 in
      let m = h.number_fits.0 in
      let a = h.address_fits.0 in
      omega (
        arith,
        length-append e.client_id (e.file_number ++ e.client_address),
        length-append e.file_number e.client_address,
      );
  decode-encode = λ e h.
      rw
        (
          word32 e.duration,
          word32 e.timeout,
          word16 e.await_message_id h.await_id_fits,
          front 24 e.client_id (e.file_number ++ e.client_address) h.id_fits.0,
          back 24 e.client_id (e.file_number ++ e.client_address) h.id_fits.0,
          front 9 e.file_number e.client_address h.number_fits.0,
          back 9 e.file_number e.client_address h.number_fits.0,
        )
        refl;
}
