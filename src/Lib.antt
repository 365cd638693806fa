-- ===== src/Lib.antt =====
-- Verification of the LowNet node: a program for an ESP32 that exchanges frames with other nodes over
-- ESP-NOW, in the clear or encrypted, and on top of that chats, pings, takes signed commands and drives
-- a crane. All paths are from the repository's root.
--
-- The program. main/app_main.c starts the services and reads lines from the serial port; a line is a
-- command of its table (managed_components/cli) or a message. managed_components/lownet carries frames:
-- lownet_send builds a frame of 212 bytes with its check sum and, when a key is active, encrypts it
-- through the function that managed_components/crypt supplies; on the way in a callback sorts the data
-- into two queues, one task decrypts, another checks each frame and calls the handler that a protocol
-- has registered. Chat, ping and crane are such protocols; managed_components/command is written as one.
-- managed_components/device-table says which MAC address is which node.
--
-- The files, with the code that each models:
--   Base: comparisons, buffers, machine words, the laws of the bit operations and a ruleset for appended
--     lists, which the rest uses.
--   DeviceTable: managed_components/device-table/device-table.c (lownet_lookup, lownet_lookup_mac).
--   Queue: the queues of FreeRTOS between tasks, and what it means that items pass them in order.
--   Serial: managed_components/serial/serial_io.c. Session: the service, the main loop that reads and the
--     tasks that write, in any order.
--   Utility: managed_components/utility/utility.c, format_id of lownet/lownet_util.c, and the comparisons
--     of command/hash.c and command/signature.c.
--   Lownet: managed_components/lownet.
--     Crc: the register of lownet_crc. Frame: the structs of include/lownet.h and their bytes.
--     Protocols: lownet_register_protocol, lownet_get_handler. Time: lownet_util.c.
--     Keys: lownet_crypt.c. Net: net_system without its queues and tasks, the clock and the active key.
--     Start: lownet_init and the start of lownet_service_main. Text: format_time of lownet_util.c, and
--     the lines of managed_components/lownet-commands and of a ping's reply.
--     Send: lownet_send, lownet_encrypt_send. Receive: lownet_inbound_handler and the bodies of the loops
--     of decrypt_service_main and lownet_service_main, each on one item, and the three in turn.
--     Service: the three around their two queues, in any order.
--   Crypt: managed_components/crypt/crypt.c (SelfTest has crypt_test_command); Crypt/Delivery joins it
--     with Send and Receive.
--   Command: managed_components/command/command.c, the whole state machine.
--   Chat: managed_components/chat/chat.c. Ping: managed_components/ping/ping.c.
--   Cli: managed_components/cli/cli.c, and strtok. App: main/app_main.c; Node is what one
--     node does with a line that is typed and with data that arrives, Session the order of both, Delivered
--     and Pinged join two nodes.
--   Crane: managed_components/crane/crane.c. Packet: the packet and its bytes. Machine: the state, the
--     receive handlers, crane_connect, crane_disconnect. Action: read_acks and crane_action.
--     Script: crane_wait_until_idle, crane_test and crane_command. Texts: the lines that are written.
--   Tests: the properties at concrete inputs.
--
-- How code becomes definitions. A static variable of a component is a record that its operations take
-- and return. A byte, a word or a counter is a natural number, with the wrap-around of its type written
-- out where the code can reach it. A buffer is the list of its bytes. An uninitialised local is an
-- argument. What the code hands to other code (bytes to the radio, a frame to lownet_send, a line to the
-- serial port) is the operation's result. Log lines are left out.
--
-- Code that is not in the repository is a parameter: the block cipher of ESP-IDF (Crypt.AesCbc, with
-- what it promises in IsAesCbc), SHA-256 and RSA of mbedtls (Command.Digests), FreeRTOS's
-- queues (Queue.MessageQueue, IsQueue; Crane.Machine.AckQueue, IsAckQueue), esp_random and esp_timer_get_time, whose values
-- are arguments.
--
-- Two tasks run at once: the network task calls the receive handlers while crane_action or
-- crane_disconnect wait. Each wait is therefore given the frames that arrive during it, and handles them
-- in order. That is exact as long as frames arrive only during waits, which last seconds, and not
-- between two statements of the command task.
--
-- Bounds and fuel. Every loop is structural recursion, on the rounds left where the code counts: the
-- five attempts of crane_action, the hundred rounds of crane_wait_until_idle and the thirty in which
-- crane_test waits for the handshake; and eight rounds of the loop that empties the acknowledgement
-- queue, which holds eight.
--
-- The output loop of the serial service has the fuel for the sixteen lines that its queue holds; a line
-- that is written while the loop runs counts as printed in the next round. "%lu" has the fuel for ten digits.
--
-- Not modelled: what the calls of ESP-IDF do on the radio and the UART, HEXDUMP, log lines, and
-- what printf makes of a % in the format that it is given. In the model of the service's rounds what a
-- handler does is left out, which App/Node has. Reading the memory behind a buffer gives bytes that are
-- an argument, and no fault; following a pointer that is NULL or not initialised can be a fault.
-- A failure under ESP_ERROR_CHECK resets the chip, as the sdkconfig sets.
-- managed_components/ping/app_ping.c is an older copy of ping.c that is not built.
pub mod App
pub mod Base
pub mod Chat
pub mod Cli
pub mod Command
pub mod Crane
pub mod Crypt
pub mod DeviceTable
pub mod Lownet
pub mod Ping
pub mod Queue
pub mod Serial
pub mod Tests
pub mod Utility
