-- ===== src/Lib.antt =====
-- The pyrinas-zephyr firmware library: events over Bluetooth, a UART link, and a cloud client
-- over MQTT with firmware updates. It is written in C for Zephyr; this library models its own
-- logic as functions on explicit states and leaves Zephyr and the libraries of the Nordic SDK as
-- parameters.
--
-- The parts, and how they meet:
--
-- * Events over Bluetooth, lib/ble/ble_m.c. An application subscribes to names and publishes
--   events. `ble_publish` encodes an event and hands it to the peripheral or the central role,
--   whichever the build has; what comes in goes to `ble_evt_handler`, which decodes it and queues
--   it for `bt_send_work_handler`, which calls the handlers. Ble/Subscriptions.antt is the
--   subscription list (`ble_subscribe`, `subscriber_search`), Ble/Events.antt the path of an
--   event. The nanopb codec is a pair of functions, and a received packet a list of bytes.
--   Ble/Role.antt is the choice of the role with what depends on it, and the start of the stack;
--   Ble/Role/Link.antt joins a peripheral that publishes to a central whose handlers are called.
-- * The central role, lib/ble/ble_central.c: Ble/Central.antt. Its table `m_conns` is a list of
--   entries, each with a connection, its send queue and whether its discovery is done. The
--   callbacks of the stack and the calls of the application are the steps of a machine.
-- * The peripheral role, lib/ble/ble_peripheral.c: Ble/Peripheral.antt, one connection, the
--   advertising set and a send queue.
-- * The receive loop of subsys/comms/comms.c, `comms_rx_thread`: Comms/Rx.antt. A message on the
--   wire is its length in one byte and then its bytes; one round of the loop takes what the ring
--   buffer gives. Comms/Rx/Reference.antt is a reader that takes one byte at a time, against which
--   the loop is measured. Comms/Uart.antt is the rest of that file: the ring buffers, the events of
--   the UART driver and the blocks that it fills (`uart_callback`), `comms_init` and `comms_write`.
--   Comms/Uart/Receiving.antt joins the two, from the driver's events to the messages.
-- * The cloud client, subsys/pyrinas_cloud/pyrinas_cloud.c. Cloud/Version.antt compares firmware
--   versions (`ver_comp` of pyrinas_cloud_helper.c), Cloud/Payload.antt reads the payload of a
--   message (`publish_get_payload`), Cloud/Topics.antt is the array `callbacks` of the
--   application's subscriptions, and Cloud/Client.antt has the states `cloud_state_s` and
--   `ota_state_s`, the work functions, the handlers of the MQTT and download events and
--   `pyrinas_cloud_connect`. Cloud/Client/Steps.antt puts these in any order. Cloud/Process.antt
--   is the thread that serves the connection, `pyrinas_cloud_process`. Cloud/Client/Publish.antt
--   is what the client publishes, with its topics and `pyrinas_cloud_init`.
-- * The messages of the cloud, subsys/pyrinas_cloud/pyrinas_cloud_codec.c: Cloud/Codec.antt, with
--   the encoders in Cloud/Codec/Encode.antt, over an encoder of QCBOR that is an interface, and
--   `decode_ota_data` in Cloud/Codec/Decode.antt, over the decoder interface of
--   Cloud/Codec/Qcbor.antt. Cloud/Client/Update.antt puts the decoder into the handler of a message,
--   up to the download that an update starts.
-- * The modem, subsys/cellular/cellular.c: Cellular.antt, whose signal strength is in the telemetry.
-- * The start of the application, lib/app/main.c: App/Main.antt has the callbacks that it gives to
--   the cloud client and the work that reconnects, on top of the client. App/Start.antt
--   is `main` from the modem to its wait for the cloud, with the clock's alarm set through Rtc.antt.
--   App/Version.antt is the version string of applications/sample/src/version.c.
-- * The applications: App/Ticker.antt is the timer of applications/hub and applications/client that
--   publishes a counter, followed from the client to the hub in App/Ticker/Delivery.antt.
-- * The clock driver, drivers/rtc/pcf85063a/pcf85063a.c: Rtc.antt, on an I2C bus with a chip whose
--   registers are known by their bits.
--
-- How the code is rendered. The static variables of a file are a record, and an operation takes
-- it and returns it. A call of Zephyr, of the Bluetooth stack or of the MQTT library stands as
-- an action in the list that an operation returns, in the order of the calls; what such a call
-- returns is an argument of the operation. Pointers to functions and connections are numbers. A
-- `k_msgq` is any implementation of the interface Msgq of Common/MessageQueue.antt, which states
-- what Zephyr's documentation promises of it. The numbers of the code are natural numbers, with
-- the reduction modulo 2 ^ 8 or 2 ^ 32 written out where the code can reach it, and results with
-- a sign are the integers of Common/Int.antt. An access to memory that the program does not own
-- is a result of its own: `fault` in Comms/Rx.antt and Cloud/Topics.antt, `none` in
-- Ble/Central.antt for the connection that a failed creation leaves undefined, and in
-- Cloud/Client.antt, Cloud/Client/Publish.antt, Cloud/Process.antt, Cloud/Codec/Decode.antt and
-- App/Main.antt.
--
-- Loops. A loop over an array is recursion on the list. `bt_send_work_handler` of ble_m.c takes
-- fuel, one round more than there are events in the queue; the loop of `publish_get_payload`
-- takes as much fuel as the payload has bytes, since a read that gives nothing ends it.
-- `comms_rx_thread` and `pyrinas_cloud_process` never return: their models run through a list of
-- claims, and of rounds.
--
-- Not modelled: pairing callbacks, which only print; the initialisation of threads and timers, and of
-- work items where it is not an action of the operation that makes it; the filling of the MQTT library's structures (`client_init`, `subscribe`); the pins
-- and the LED device that `ble_stack_init` of ble_m.c sets up; the work queue of subsys/worker, which
-- passes a call on; the buttons, LEDs and set-up of the applications; samples/hci_uart, which is
-- Zephyr's own sample. Logging is left out everywhere, and so is timing: work that is submitted with
-- a delay is submitted.
pub mod Common
pub mod Ble
pub mod Comms
pub mod Cellular
pub mod Cloud
pub mod App
pub mod Rtc
