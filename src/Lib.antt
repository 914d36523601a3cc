-- ===== src/Lib.antt =====
-- The MQTT-SN gateway for Linux: its persistence layer, src/Implementation/LinuxPersistent.{h,cpp}, its
-- bridge to a microcontroller on a serial line, src/Implementation/Serial/LinuxSerialSocket.{h,cpp}, its
-- connection to the MQTT broker, src/Implementation/paho/PahoMqttMessageHandler.{h,cpp}, its transports over
-- UDP, TCP and Bluetooth, src/Implementation/Udp, src/Implementation/Tcp and src/Implementation/Ble, its
-- logger, src/Implementation/LinuxLogger.{h,cpp}, and its clock, src/Implementation/LinuxSystem.{h,cpp}.
--
-- The gateway joins a core library, which handles the MQTT-SN messages, to Linux: transports for
-- MQTT-SN (UDP, TCP, Bluetooth, serial, Telnet), an MQTT client, a logger, a clock, and `LinuxPersistent`, which
-- keeps the state of every client in files on an SD card (on Linux a directory). The core calls
-- `start_client_transaction`, some methods for that client, and `apply_transaction`. The registry
-- CLIENTS has one struct for each client; the client in row i has the files i.REG, i.SUB, i.WIL and
-- i.PUB (its row as eight digits), tables of structs as well; MQTT.SUB counts the subscriptions of each
-- topic over all clients.
--
-- The parts:
--   Base: shared names, Boolean tests, C strings as lists of bytes.
--   Storage: the structs of LinuxPersistent.h (Entries), a file as a list of bytes into which a struct
--     is written (Splice), what comes from outside (Platform), a file as a table of structs (Table).
--   Persistent.State: the fields of the class, its guards, its file names. Persistent.Scan: the read
--     loops that the methods share. Persistent.Unique: tables with one row for each key.
--   Persistent.Clients: begin to reset_client. Persistent.Attributes: the setters and getters of the
--     client's struct and the connection flags. Persistent.Subscriptions, Persistent.GlobalCounts,
--     Persistent.Registrations, Persistent.Publishes, Persistent.Wills: the methods on the other files.
--   Persistent.Errors: sequences of calls in a transaction that has failed.
--   Settings: the configuration files of LinuxPersistent. Lines: readLine and the loop over a file.
--     Parse: the parsers of a value behind a space. Getters: get_advertise_duration to get_mqtt_will
--     and get_predefined_topic_name. Values, Decimal, Entries, Turns, Broker, Topics: what they find
--     in a line and a file.
--   Serial: LinuxSerialSocket, a protocol of text lines. State: the object, the port as the bytes it
--     still gives and those written to it, and how a call ends. Numbers: parseLong and strsep. Lines:
--     waitFor and the loops that read a line. Read: the read methods. Commands: begin, send, loop.
--     Waiting, Words, RoundTrip, Session, Configuration, Start: theorems, from lines to sessions.
--   Telnet: LinuxTelnetSocket (src/Implementation/Telnet), the same protocol with other line ends; its
--     readers are those of Serial, whose text it repeats.
--   Udp: LinuxUdpSocket (src/Implementation/Udp). Address: sockaddr_in and device_address. Socket: the
--     class, over the sockets of the system, whose `call` answers each `socket`, `setsockopt` and `bind`.
--     Reply, Reopen: theorems. Interfaces: the search for the address of eth0.
--   Tcp: src/Implementation/Tcp. Descriptors: the calls of the system. Single, Client: SingleTcpSocket
--     and theorems. Messages, Threads: TcpSocket, TcpConnection, ConnectionAcceptor, TcpMessage, Queue,
--     with one function for a turn of each thread. Interleavings: the step relation of the turns.
--     Heap, Senders: theorems.
--   Ble: src/Implementation/Ble, over what libBLE answers about a device. Statistic, Mac, Socket,
--     Connection, Acceptor: the classes. Life: the step relation of a device's statistic. Addresses,
--     Delivery, Endings, Faulty, Lookup, Replies, Sightings: theorems.
--   Logger: LinuxLogger, by the bytes that it prints.
--   Clock: LinuxSystem, with `millis` as an argument.
--   Paho: PahoMqttMessageHandler. Library: the Paho client and the core, as records of functions.
--     Handler: the class. Connect, Broker: theorems; `getConfigAndConnect` goes through Settings.
--   Each definition has the name of its method. A method that changes the object or the card takes the
--   state and returns it; a result comes beside it. A pointer that may be null and an out-parameter
--   that may be left alone are options. Guards are in the order of the code.
--   Tests: a concrete platform and the theorems applied on it.
--
-- Not in the repository, and parameters (Storage.Platform): the SD library, by what `open`, `seek`,
-- `read`, `write` and `remove` do to a file; the compiler's layout of each struct, by its size and that
-- copying a value out and back gives the value; `device_address`, and the enumerators of the core.
-- The serial bridge takes sizeof(device_address), the result of `open` and whether the port could be
-- set up as arguments; its port is a blocking one, which gives the bytes of a list and then waits.
-- A read or write of a struct is taken to be complete but for a read at the end of the file.
-- The operating system's calls on sockets (Udp.Socket, Tcp.Descriptors) and libBLE, a git submodule
-- (Ble.Connection, Ble.Acceptor), are taken by what they answer.
--
-- An access outside an array is an outcome of its own: `overflow` in Serial, `outside` and `none` in
-- Settings. A line that fills its buffer leaves no NUL for strsep or strlen and counts as one. The loop
-- over the lines of a file has one more than the bytes of the file as fuel; every turn reads a byte.
-- A wait for a line that never comes is `stuck`.
--
-- Loops run over the reads that the file gives, so they end with the file. `entry_number` is a
-- uint16_t and wraps; theorems ask for fewer rows than that. `_entry_client` is a local variable in
-- get_nth_client and get_last_client_address. Log output is left out.
--
-- Not modelled: setCore and setLogger, methods that the source leaves empty (get_topic_id,
-- set_topic_known, set_client_duration), the terminal settings of the serial port, and the start of
-- the program; copies of other projects under
-- src/Implementation/paho/pahomqttembeddedc and src/Implementation/Ble_old.
pub mod Base
pub mod Storage
pub mod Persistent
pub mod Serial
pub mod Telnet
pub mod Settings
pub mod Paho
pub mod Udp
pub mod Tcp
pub mod Ble
pub mod Clock
pub mod Logger
pub mod Tests
